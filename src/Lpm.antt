-- ===== src/Lpm.antt =====
-- include/core/lpm_trie.hpp and src/core/lpm_trie.cpp: `LPMTrie`, a binary trie of routes with one
-- level for each bit of an address, the highest first.
pub mod Walk
pub mod Prefix
pub mod Lookup
pub mod Table
pub mod Refine
pub mod Cidr
mod Tests
mod TextTests
use aether_plane.Base.{
  ℕ, zero, suc, ◌+◌, ◌-◌, Bool, true, false, Option, none, some, bit_and, ltb, ◌==◌, if◌then◌else◌,
  u8, add64, sub64, ◌>>>◌,
}

pub record RouteEntry : Type 0 where
  pub prefix : ℕ
  pub prefix_len : ℕ
  pub next_hop_ip : ℕ
  pub egress_ifindex : ℕ
  pub metric : ℕ

-- A `std::unique_ptr<TrieNode>`: `null`, or a node with its entry and its two children.
pub data Trie : Type 0 where
  null : Trie
  node : Option RouteEntry → Trie → Trie → Trie

pub record LpmTrie : Type 0 where
  pub root : Trie
  pub route_count : ℕ

-- `std::make_unique<TrieNode>()`
abbrev pub fresh : Trie
fresh = node none null null

unfoldable pub init : LpmTrie
init = record { root = fresh; route_count = 0 }

abbrev pub entry_of : Trie → Option RouteEntry
entry_of null = none
entry_of (node e l r) = e

abbrev pub has_value {ℓ} : {A : Type ℓ} → Option A → Bool
has_value none = false
has_value (some e) = true

abbrev pub is_null : Trie → Bool
is_null null = true
is_null (node e l r) = false

-- `children[bit]`, read and written
abbrev pub child : ℕ → Trie → Trie
child b null = null
child zero (node e l r) = l
child (suc b) (node e l r) = r

abbrev pub set_child : ℕ → Trie → Trie → Trie
set_child b null c = null
set_child zero (node e l r) c = node e c r
set_child (suc b) (node e l r) c = node e l c

abbrev pub set_entry : Trie → Option RouteEntry → Trie
set_entry null o = null
set_entry (node e l r) o = node o l r

-- `if (!child) child = std::make_unique<TrieNode>()`
abbrev pub make_child : Trie → Trie
make_child null = fresh
make_child (node e l r) = node e l r

-- `(prefix >> (31 - i)) & 1`
unfoldable pub bit : ℕ → ℕ → ℕ
bit prefix i = bit_and (prefix >>> (31 - i)) 1

-- The loop of `insert_route` at level `i`, `n` levels to go, at the node `t`: whether the node at its
-- end had an entry, and the trie with the new one.
unfoldable pub insert_from : ℕ → ℕ → ℕ → RouteEntry → Trie → Bool × Trie
insert_from zero i prefix e t = (has_value (entry_of t), set_entry t (some e))
insert_from (suc n) i prefix e t =
    let b = bit prefix i in
    let (had, c) = insert_from n (i + 1) prefix e (make_child (child b t)) in (had, set_child b t c)

unfoldable pub insert_route : LpmTrie → ℕ → ℕ → ℕ → ℕ → ℕ → Bool × LpmTrie
insert_route t prefix prefix_len next_hop egress_ifindex metric =
    if ltb 32 prefix_len
    then (false, t)
    else let e : RouteEntry = record {
      prefix = prefix;
      prefix_len = prefix_len;
      next_hop_ip = next_hop;
      egress_ifindex = egress_ifindex;
      metric = metric;
    } in
      let (had, root) = insert_from prefix_len 0 prefix e t.root in
      (
        true,
        record { root = root; route_count = if had then t.route_count else add64 t.route_count 1 },
      )

-- `if (current->entry.has_value()) best_match = current->entry`
abbrev pub newer {ℓ} : {A : Type ℓ} → Option A → Option A → Option A
newer none best = best
newer (some e) best = some e

-- The loop of `lookup`, which breaks off at a missing child.
unfoldable pub lookup_from : ℕ → ℕ → ℕ → Trie → Option RouteEntry → Option RouteEntry
lookup_from zero i dest_ip t best = best
lookup_from (suc n) i dest_ip t best =
    let c = child (bit dest_ip i) t in
    let rest = lookup_from n (i + 1) dest_ip c (newer (entry_of c) best) in
    if is_null c then best else rest

unfoldable pub lookup : LpmTrie → ℕ → Option RouteEntry
lookup t dest_ip = lookup_from 32 0 dest_ip t.root (newer (entry_of t.root) none)

-- The loop of `delete_route`: whether a route was taken out, and the trie afterwards. No node is freed.
unfoldable pub delete_from : ℕ → ℕ → ℕ → Trie → Bool × Trie
delete_from zero i prefix t = (has_value (entry_of t), set_entry t none)
delete_from (suc n) i prefix t =
    let b = bit prefix i in
    let rest = delete_from n (i + 1) prefix (child b t) in
    if is_null (child b t) then (false, t) else (rest.0, set_child b t rest.1)

unfoldable pub delete_route : LpmTrie → ℕ → ℕ → Bool × LpmTrie
delete_route t prefix prefix_len =
    if ltb 32 prefix_len
    then (false, t)
    else let (found, root) = delete_from prefix_len 0 prefix t.root in
      (
        found,
        record {
          root = root;
          route_count = if found then sub64 t.route_count 1 else t.route_count;
        },
      )
