-- ===== src/Lpm/Walk.antt =====
-- The entry at the end of a walk, and what an insertion and a deletion make of it.
use native.Mathlib.Decide.{ℕ_discrete}
use aether_plane.Base.{
  ℕ, zero, suc, ◌+◌, ◌-◌, ◌%◌, ◌<◌, ◌≡◌, ◌≢◌, refl, sym, ap, ◌∙◌, Bool, true, false, ◌&&◌, Option,
  none, some, arith, ◌==◌, if◌then◌else◌, Bool-cases, inl, inr, ◌>>>◌,
}
use aether_plane.Base.Bits.{bit_and-mask}
use aether_plane.Lpm.{
  RouteEntry, Trie, null, node, fresh, entry_of, has_value, is_null, child, set_child, make_child,
  bit, insert_from, delete_from,
}

pub bit-eq-mod : (a i : ℕ) → bit a i ≡ (a >>> (31 - i)) % 2
unfolding bit
bit-eq-mod a i = bit_and-mask 1 (a >>> (31 - i))

bit-lt : (a i : ℕ) → bit a i < 2
bit-lt a i = omega (arith, bit-eq-mod a i)

-- `n` levels down from level `i` along the bits of `addr`.
unfoldable pub entry_from : ℕ → ℕ → ℕ → Trie → Option RouteEntry
entry_from zero i addr t = entry_of t
entry_from (suc n) i addr t = entry_from n (i + 1) addr (child (bit addr i) t)

-- The bits of two addresses agree at `n` levels from level `i` on.
unfoldable pub agree_from : ℕ → ℕ → ℕ → ℕ → Bool
agree_from zero i p q = true
agree_from (suc n) i p q = bit p i == bit q i && agree_from n (i + 1) p q

abbrev pub IsNode : Trie → Type 0
IsNode t = is_null t ≡ false

pub entry_from-null : (n i addr : ℕ) → entry_from n i addr null ≡ none
unfolding entry_from
entry_from-null zero i addr = refl
entry_from-null (suc n) i addr = entry_from-null n (i + 1) addr

child-fresh : (b : ℕ) → child b fresh ≡ null
child-fresh zero = refl
child-fresh (suc b) = refl

pub entry_from-make_child :
    (n i addr : ℕ) (t : Trie) → entry_from n i addr (make_child t) ≡ entry_from n i addr t
unfolding entry_from
entry_from-make_child zero i addr null = refl
entry_from-make_child (suc n) i addr null =
    ap (entry_from n (i + 1) addr) (child-fresh (bit addr i))
entry_from-make_child zero i addr (node e l r) = refl
entry_from-make_child (suc n) i addr (node e l r) = refl

make_child-IsNode : (t : Trie) → IsNode (make_child t)
make_child-IsNode null = refl
make_child-IsNode (node e l r) = refl

child-set_child_self : (b : ℕ) (t c : Trie) → IsNode t → child b (set_child b t c) ≡ c
child-set_child_self b null c h = absurd (cc)
child-set_child_self zero (node e l r) c h = refl
child-set_child_self (suc b) (node e l r) c h = refl

child-set_child_ne :
    (b d : ℕ) (t c : Trie) → b < 2 → d < 2 → b ≢ d → child d (set_child b t c) ≡ child d t
child-set_child_ne b d null c hb hd ne = refl
child-set_child_ne zero zero (node e l r) c hb hd ne = absurd (ne refl)
child-set_child_ne zero (suc d) (node e l r) c hb hd ne = refl
child-set_child_ne (suc b) zero (node e l r) c hb hd ne = refl
child-set_child_ne (suc b) (suc d) (node e l r) c hb hd ne = absurd (omega arith)

entry_of-set_child : (b : ℕ) (t c : Trie) → entry_of (set_child b t c) ≡ entry_of t
entry_of-set_child b null c = refl
entry_of-set_child zero (node e l r) c = refl
entry_of-set_child (suc b) (node e l r) c = refl

set_child-IsNode : (b : ℕ) (t c : Trie) → IsNode t → IsNode (set_child b t c)
set_child-IsNode b null c h = h
set_child-IsNode zero (node e l r) c h = refl
set_child-IsNode (suc b) (node e l r) c h = refl

child_of_entry :
    (b : ℕ) (e o : Option RouteEntry) (l r : Trie) → child b (node e l r) ≡ child b (node o l r)
child_of_entry zero e o l r = refl
child_of_entry (suc b) e o l r = refl

pub null_of_is_null : (t : Trie) → is_null t ≡ true → t ≡ null
null_of_is_null null h = refl
null_of_is_null (node e l r) h = absurd (cc)

-- An insertion changes the entry at the end of its own walk, and no other.
pub entry_from-insert_from :
    (m n i p a : ℕ) (e : RouteEntry) (t : Trie)
    → IsNode t
    → entry_from m i a (insert_from n i p e t).1
      ≡ (if m == n && agree_from n i p a then some e else entry_from m i a t)
unfolding entry_from insert_from agree_from
entry_from-insert_from zero zero i p a e null h = absurd (cc)
entry_from-insert_from zero zero i p a e (node o l r) h = refl
entry_from-insert_from (suc m) zero i p a e null h = absurd (cc)
entry_from-insert_from (suc m) zero i p a e (node o l r) h =
    ground (arith, child_of_entry (bit a i) (some e) o l r)
entry_from-insert_from zero (suc n) i p a e t h = ground (
  arith,
  entry_of-set_child (bit p i) t (insert_from n (i + 1) p e (make_child (child (bit p i) t))).1,
)
entry_from-insert_from (suc m) (suc n) i p a e t h =
    let b = bit p i in
    let c = (insert_from n (i + 1) p e (make_child (child b t))).1 in
    let ih =
      entry_from-insert_from m n (i + 1) p a e (make_child (child b t))
        (make_child-IsNode (child b t)) in
    elim (ℕ_discrete b (bit a i)) [
      | yes same ↦ ground (
        arith,
        ap (entry_from m (i + 1) a)
            (ap (λ d. child d (set_child b t c)) (sym same) ∙ child-set_child_self b t c h),
        ih,
        entry_from-make_child m (i + 1) a (child b t),
        ap (λ d. entry_from m (i + 1) a (child d t)) same,
      )
      | no other ↦ ground (
        arith,
        ap (entry_from m (i + 1) a)
            (child-set_child_ne b (bit a i) t c (bit-lt p i) (bit-lt a i) other),
      )
    ]

-- The same for a deletion.
pub entry_from-delete_from :
    (m n i p a : ℕ) (t : Trie)
    → IsNode t
    → entry_from m i a (delete_from n i p t).1
      ≡ (if m == n && agree_from n i p a then none else entry_from m i a t)
unfolding entry_from delete_from agree_from
entry_from-delete_from zero zero i p a null h = absurd (cc)
entry_from-delete_from zero zero i p a (node o l r) h = refl
entry_from-delete_from (suc m) zero i p a null h = absurd (cc)
entry_from-delete_from (suc m) zero i p a (node o l r) h =
    ground (arith, child_of_entry (bit a i) none o l r)
entry_from-delete_from zero (suc n) i p a t h =
    ground (arith, entry_of-set_child (bit p i) t (delete_from n (i + 1) p (child (bit p i) t)).1)
entry_from-delete_from (suc m) (suc n) i p a t h =
    let b = bit p i in
    let d = bit a i in
    let c = (delete_from n (i + 1) p (child b t)).1 in
    elim (Bool-cases (is_null (child b t))) [
      | inl gone ↦ rw gone (elim (ℕ_discrete b d) [
        | yes same ↦ ground (
          arith,
          ap (entry_from m (i + 1) a) (ap (λ x. child x t) (sym same) ∙ null_of_is_null _ gone),
          entry_from-null m (i + 1) a,
        )
        | no other ↦ ground arith
      ])
      | inr there ↦ rw there (elim (ℕ_discrete b d) [
        | yes same ↦ ground (
          arith,
          ap (entry_from m (i + 1) a)
              (ap (λ x. child x (set_child b t c)) (sym same) ∙ child-set_child_self b t c h),
          entry_from-delete_from m n (i + 1) p a (child b t) there,
          ap (λ x. entry_from m (i + 1) a (child x t)) same,
        )
        | no other ↦ ground (
          arith,
          ap (entry_from m (i + 1) a) (child-set_child_ne b d t c (bit-lt p i) (bit-lt a i) other),
        )
      ])
    ]

-- The reported Booleans: whether the walk's end held an entry.
pub insert_from-had :
    (n i p : ℕ) (e : RouteEntry) (t : Trie)
    → (insert_from n i p e t).0 ≡ has_value (entry_from n i p t)
unfolding entry_from insert_from
insert_from-had zero i p e t = refl
insert_from-had (suc n) i p e t =
    insert_from-had n (i + 1) p e (make_child (child (bit p i) t))
    ∙ ap has_value (entry_from-make_child n (i + 1) p (child (bit p i) t))

pub delete_from-found :
    (n i p : ℕ) (t : Trie) → (delete_from n i p t).0 ≡ has_value (entry_from n i p t)
unfolding entry_from delete_from
delete_from-found zero i p t = refl
delete_from-found (suc n) i p t = elim (Bool-cases (is_null (child (bit p i) t))) [
  | inl gone ↦ rw gone (
      sym (
        ap (λ c. has_value (entry_from n (i + 1) p c)) (null_of_is_null _ gone)
        ∙ ap has_value (entry_from-null n (i + 1) p)))
  | inr there ↦ rw there (delete_from-found n (i + 1) p (child (bit p i) t))
]

pub insert_from-IsNode :
    (n i p : ℕ) (e : RouteEntry) (t : Trie) → IsNode t → IsNode (insert_from n i p e t).1
unfolding insert_from
insert_from-IsNode zero i p e null h = h
insert_from-IsNode zero i p e (node o l r) h = refl
insert_from-IsNode (suc n) i p e t h = set_child-IsNode (bit p i) t _ h

pub delete_from-IsNode : (n i p : ℕ) (t : Trie) → IsNode t → IsNode (delete_from n i p t).1
unfolding delete_from
delete_from-IsNode zero i p null h = h
delete_from-IsNode zero i p (node o l r) h = refl
delete_from-IsNode (suc n) i p t h =
    ground (arith, set_child-IsNode (bit p i) t (delete_from n (i + 1) p (child (bit p i) t)).1 h)
