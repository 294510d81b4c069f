-- ===== src/Lpm/Refine.antt =====
-- The trie implements the table, whatever the calls.
use aether_plane.Base.{
  ℕ, ◌≤◌, ◌≡◌, refl, sym, ap, ap₂, ◌∙◌, Bool, ◌&&◌, none, some, List, [], ◌∷◌, arith, length, ltb,
  ◌==◌, if◌then◌else◌, u64, Bool-cases, inl, inr,
}
use aether_plane.Lpm.{
  RouteEntry, null, LpmTrie, init, has_value, insert_from, delete_from, insert_route, delete_route,
  lookup,
}
use aether_plane.Lpm.Walk.{
  IsNode, entry_from, entry_from-null, entry_from-make_child, entry_from-insert_from,
  entry_from-delete_from, insert_from-had, delete_from-found, insert_from-IsNode,
  delete_from-IsNode,
}
use aether_plane.Lpm.Prefix.{agree_from-network}
use aether_plane.Lpm.Lookup.{longest_cong, lookup-longest}
use aether_plane.Lpm.Table.{
  Table, find, remove, put, best, Op, insert, delete, IsAddress, IsOp, apply, IsUnique, find-remove,
  find-put, remove-IsUnique, put-IsUnique, length-remove, length-put, length_of_found,
}

-- The trie `t` holds the routes of the table, and counts them modulo 2 ^ 64.
pub record Holds (t : LpmTrie) (tbl : Table) : Type 0 where
  pub rooted : IsNode t.root
  pub unique : IsUnique tbl
  pub counted : t.route_count ≡ u64 (length tbl)
  pub same :
      (len addr : ℕ) → len ≤ 32 → IsAddress addr → entry_from len 0 addr t.root ≡ find len addr tbl

unfoldable pub step : LpmTrie → Op → Bool × LpmTrie
step t (insert prefix len hop out metric) = insert_route t prefix len hop out metric
step t (delete prefix len) = delete_route t prefix len

init-Holds : Holds init []
unfolding init find
init-Holds = record {
  rooted = refl;
  unique = tt;
  counted = refl;
  same = λ len addr h k. entry_from-make_child len 0 addr null ∙ entry_from-null len 0 addr;
}

put-Holds :
    (t : LpmTrie) (tbl : Table) (e : RouteEntry)
    → Holds t tbl
    → e.prefix_len ≤ 32
    → IsAddress e.prefix
    → (len addr : ℕ) → len ≤ 32
    → IsAddress addr
    → entry_from len 0 addr (insert_from e.prefix_len 0 e.prefix e t.root).1
      ≡ find len addr (put e tbl)
put-Holds t tbl e v hl hp len addr le ha =
    entry_from-insert_from len e.prefix_len 0 e.prefix addr e t.root v.rooted
    ∙ ap₂ (λ b o. if len == e.prefix_len && b then some e else o)
        (agree_from-network e.prefix_len e.prefix addr hl hp ha) (v.same len addr le ha)
    ∙ sym (find-put len addr e tbl v.unique)

remove-Holds :
    (t : LpmTrie) (tbl : Table) (n p : ℕ)
    → Holds t tbl
    → n ≤ 32
    → IsAddress p
    → (len addr : ℕ) → len ≤ 32
    → IsAddress addr
    → entry_from len 0 addr (delete_from n 0 p t.root).1 ≡ find len addr (remove n p tbl)
remove-Holds t tbl n p v hl hp len addr le ha =
    entry_from-delete_from len n 0 p addr t.root v.rooted
    ∙ ap₂ (λ b o. if len == n && b then none else o) (agree_from-network n p addr hl hp ha)
        (v.same len addr le ha)
    ∙ sym (find-remove len addr n p tbl v.unique)

-- Each call gets the table's reply, and leaves the trie holding the table's routes.
pub step-Holds :
    (t : LpmTrie) (tbl : Table) (op : Op)
    → IsOp op
    → Holds t tbl
    → ((step t op).0 ≡ (apply tbl op).0) × Holds (step t op).1 (apply tbl op).1
unfolding step insert_route delete_route apply
step-Holds t tbl (insert p n hop out metric) ok v = elim (Bool-cases (ltb 32 n)) [
  | inl long ↦ rw long (refl, v)
  | inr fits ↦
      let e : RouteEntry = record {
        prefix = p;
        prefix_len = n;
        next_hop_ip = hop;
        egress_ifindex = out;
        metric = metric;
      } in
      let had = insert_from-had n 0 p e t.root ∙ ap has_value (v.same n p (ground arith) ok) in
      rw fits (
        refl,
        record {
          rooted = insert_from-IsNode n 0 p e t.root v.rooted;
          unique = put-IsUnique e tbl v.unique;
          counted = ground (arith, had, length-put e tbl);
          same = put-Holds t tbl e v (ground arith) ok;
        },
      )
]
step-Holds t tbl (delete p n) ok v = elim (Bool-cases (ltb 32 n)) [
  | inl long ↦ rw long (refl, v)
  | inr fits ↦
      let found = delete_from-found n 0 p t.root ∙ ap has_value (v.same n p (ground arith) ok) in
      rw fits (
        found,
        record {
          rooted = delete_from-IsNode n 0 p t.root v.rooted;
          unique = remove-IsUnique n p tbl v.unique;
          counted = ground (arith, found, length-remove n p tbl, length_of_found n p tbl);
          same = remove-Holds t tbl n p v (ground arith) ok;
        },
      )
]

pub step-lookup :
    (t : LpmTrie) (tbl : Table) (dest_ip : ℕ)
    → Holds t tbl
    → IsAddress dest_ip
    → lookup t dest_ip ≡ best dest_ip tbl
unfolding best
step-lookup t tbl a v ha =
    lookup-longest t a
    ∙ longest_cong (λ len. entry_from len 0 a t.root) (λ len. find len a tbl) 32
        (λ len le. v.same len a le ha)

-- The state and the table after a history of calls, the first call first.
unfoldable pub run : LpmTrie → List Op → LpmTrie
run t [] = t
run t (op ∷ ops) = run (step t op).1 ops

pub table_after : Table → List Op → Table
table_after tbl [] = tbl
table_after tbl (op ∷ ops) = table_after (apply tbl op).1 ops

abbrev pub AreOps : List Op → Type 0
AreOps [] = Unit {0}
AreOps (op ∷ ops) = IsOp op × AreOps ops

run-Holds :
    (ops : List Op) (t : LpmTrie) (tbl : Table)
    → AreOps ops
    → Holds t tbl
    → Holds (run t ops) (table_after tbl ops)
unfolding run table_after
run-Holds [] t tbl ok v = v
run-Holds (op ∷ ops) t tbl ok v =
    run-Holds ops (step t op).1 (apply tbl op).1 ok.1 (step-Holds t tbl op ok.0 v).1

-- After any history of insertions and deletions, an address is answered with the route of the
-- longest prefix in the table that contains it, and `route_count` is the number of routes modulo
-- 2 ^ 64.
pub run-lookup :
    (ops : List Op) (dest_ip : ℕ)
    → AreOps ops
    → IsAddress dest_ip
    → (lookup (run init ops) dest_ip ≡ best dest_ip (table_after [] ops))
      × ((run init ops).route_count ≡ u64 (length (table_after [] ops)))
run-lookup ops dest_ip ok ha =
    let v = run-Holds ops init [] ok init-Holds in
    (step-lookup (run init ops) (table_after [] ops) dest_ip v ha, v.counted)
