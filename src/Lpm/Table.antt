-- ===== src/Lpm/Table.antt =====
-- What the router promises: a table of routes, at most one for each prefix, and for an address the
-- route of the longest prefix that contains it.
use native.Mathlib.Decide.{ℕ_discrete}
use aether_plane.Base.{
  ap, ℕ, suc, ◌-◌, ◌^◌, ◌<◌, ◌≡◌, refl, Bool, true, false, ◌&&◌, Option, none, some, List, [], ◌∷◌,
  arith, length, ltb, ◌==◌, if◌then◌else◌,
}
use aether_plane.Lpm.{RouteEntry, has_value}
use aether_plane.Lpm.Prefix.{network}
use aether_plane.Lpm.Lookup.{longest}

abbrev pub Table : Type 0
Table = List RouteEntry

-- `e` is the route for the `len`-bit prefix of `addr`.
abbrev pub is_for : ℕ → ℕ → RouteEntry → Bool
is_for len addr e = e.prefix_len == len && (network len e.prefix == network len addr)

unfoldable pub find : ℕ → ℕ → Table → Option RouteEntry
find len addr [] = none
find len addr (e ∷ tbl) = if is_for len addr e then some e else find len addr tbl

unfoldable pub remove : ℕ → ℕ → Table → Table
remove len addr [] = []
remove len addr (e ∷ tbl) = if is_for len addr e then tbl else e ∷ remove len addr tbl

unfoldable pub put : RouteEntry → Table → Table
put e tbl = e ∷ remove e.prefix_len e.prefix tbl

unfoldable pub best : ℕ → Table → Option RouteEntry
best addr tbl = longest (λ len. find len addr tbl) 32

-- A call of `insert_route` or `delete_route`.
pub data Op : Type 0 where
  insert : ℕ → ℕ → ℕ → ℕ → ℕ → Op
  delete : ℕ → ℕ → Op

abbrev pub IsAddress : ℕ → Type 0
IsAddress a = a < 2 ^ 32

abbrev pub IsOp : Op → Type 0
IsOp (insert prefix len hop out metric) = IsAddress prefix
IsOp (delete prefix len) = IsAddress prefix

-- The reply and the table after a call.
unfoldable pub apply : Table → Op → Bool × Table
apply tbl (insert prefix len hop out metric) = if ltb 32 len then (false, tbl) else (
  true,
  put
      (record {
        prefix = prefix;
        prefix_len = len;
        next_hop_ip = hop;
        egress_ifindex = out;
        metric = metric;
      })
      tbl,
)
apply tbl (delete prefix len) =
    if ltb 32 len then (false, tbl) else (has_value (find len prefix tbl), remove len prefix tbl)

-- One route for a prefix.
abbrev pub IsUnique : Table → Type 0
IsUnique [] = Unit {0}
IsUnique (e ∷ tbl) = (find e.prefix_len e.prefix tbl ≡ none) × IsUnique tbl

find_cong :
    (len a b : ℕ) (tbl : Table) → network len a ≡ network len b → find len a tbl ≡ find len b tbl
unfolding find
find_cong len a b [] e = refl
find_cong len a b (r ∷ tbl) e = ground (arith, find_cong len a b tbl e)

pub find-remove :
    (len a n p : ℕ) (tbl : Table)
    → IsUnique tbl
    → find len a (remove n p tbl)
      ≡ (if len == n && (network n p == network n a) then none else find len a tbl)
unfolding find remove
find-remove len a n p [] u = ground arith
find-remove len a n p (e ∷ tbl) u = elim (ℕ_discrete e.prefix_len n) [
  | yes same ↦ ground (
    arith,
    find-remove len a n p tbl u.1,
    ap (λ k. find k e.prefix tbl) same,
    ap (λ k. network k e.prefix) same,
    find_cong n e.prefix a tbl,
  )
  | no other ↦ ground (arith, find-remove len a n p tbl u.1)
]

pub find-put :
    (len a : ℕ) (e : RouteEntry) (tbl : Table)
    → IsUnique tbl
    → find len a (put e tbl) ≡ (
        if len == e.prefix_len && (network e.prefix_len e.prefix == network e.prefix_len a)
        then some e
        else find len a tbl)
unfolding find put
find-put len a e tbl u = ground (arith, find-remove len a e.prefix_len e.prefix tbl u)

pub remove-IsUnique : (n p : ℕ) (tbl : Table) → IsUnique tbl → IsUnique (remove n p tbl)
unfolding remove
remove-IsUnique n p [] u = tt
remove-IsUnique n p (e ∷ tbl) u =
    ground (arith, remove-IsUnique n p tbl u.1, find-remove e.prefix_len e.prefix n p tbl u.1)

pub put-IsUnique : (e : RouteEntry) (tbl : Table) → IsUnique tbl → IsUnique (put e tbl)
unfolding put
put-IsUnique e tbl u = (
  ground (arith, find-remove e.prefix_len e.prefix e.prefix_len e.prefix tbl u),
  remove-IsUnique e.prefix_len e.prefix tbl u,
)

pub length_of_found : (n p : ℕ) (tbl : Table) → has_value (find n p tbl) ≡ true → 0 < length tbl
unfolding find
length_of_found n p [] h = absurd (cc)
length_of_found n p (e ∷ tbl) h = omega arith

pub length-remove :
    (n p : ℕ) (tbl : Table)
    → length (remove n p tbl) ≡ (if has_value (find n p tbl) then length tbl - 1 else length tbl)
unfolding find remove
length-remove n p [] = refl
length-remove n p (e ∷ tbl) = ground (arith, length-remove n p tbl, length_of_found n p tbl)

pub length-put :
    (e : RouteEntry) (tbl : Table)
    → length (put e tbl)
      ≡ (if has_value (find e.prefix_len e.prefix tbl) then length tbl else suc (length tbl))
unfolding put
length-put e tbl =
    ground
      (arith, length-remove e.prefix_len e.prefix tbl, length_of_found e.prefix_len e.prefix tbl)
