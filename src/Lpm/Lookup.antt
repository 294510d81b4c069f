-- ===== src/Lpm/Lookup.antt =====
-- `lookup` returns the deepest entry on the way down.
use aether_plane.Base.{
  ℕ, zero, suc, ◌+◌, ◌≡◌, refl, sym, ap, ap₂, ◌≤◌, ◌∙◌, Option, none, some, arith, inl, inr,
  Bool-cases,
}
use aether_plane.Lpm.{
  RouteEntry, Trie, LpmTrie, null, entry_of, is_null, child, bit, newer, lookup_from, lookup,
}
use aether_plane.Lpm.Walk.{entry_from, entry_from-null, null_of_is_null}

-- The value at the greatest length up to `n` that has one.
abbrev pub longest {ℓ} : {A : Type ℓ} → (ℕ → Option A) → ℕ → Option A
longest f zero = f 0
longest f (suc n) = newer (f (suc n)) (longest f n)

newer_assoc {ℓ} : {A : Type ℓ} (a b c : Option A) → newer (newer a b) c ≡ newer a (newer b c)
newer_assoc none b c = refl
newer_assoc (some a) b c = refl

newer-none {ℓ} : {A : Type ℓ} (a : Option A) → newer a none ≡ a
newer-none none = refl
newer-none (some a) = refl

longest_shift {ℓ} :
    {A : Type ℓ} (f : ℕ → Option A) (n : ℕ)
    → longest f (suc n) ≡ newer (longest (λ m. f (suc m)) n) (f 0)
longest_shift f zero = refl
longest_shift f (suc n) =
    ap (newer (f (suc (suc n)))) (longest_shift f n)
    ∙ sym (newer_assoc (f (suc (suc n))) (longest (λ m. f (suc m)) n) (f 0))

pub longest_cong {ℓ} :
    {A : Type ℓ} (f g : ℕ → Option A) (n : ℕ)
    → ((m : ℕ) → m ≤ n → f m ≡ g m)
    → longest f n ≡ longest g n
longest_cong f g zero h = h 0 (omega arith)
longest_cong f g (suc n) h =
    ap₂ newer (h (suc n) (omega arith)) (longest_cong f g n (λ m le. h m (omega arith)))

longest-none {ℓ} : {A : Type ℓ} (n : ℕ) → longest {A = A} (λ m. none) n ≡ none
longest-none zero = refl
longest-none (suc n) = longest-none n

lookup_from-longest :
    (n i a : ℕ) (t : Trie) (best : Option RouteEntry)
    → lookup_from n i a t (newer (entry_of t) best)
      ≡ newer (longest (λ m. entry_from m i a t) n) best
unfolding lookup_from entry_from
lookup_from-longest zero i a t best = refl
lookup_from-longest (suc n) i a t best =
    let c = child (bit a i) t in
    let below = longest (λ m. entry_from m (i + 1) a c) n in
    elim (Bool-cases (is_null c)) [
      | inl gone ↦ rw gone (
          sym (
            ap (λ o. newer o best)
              (longest_shift (λ m. entry_from m i a t) n
                ∙ ap (λ o. newer o (entry_of t)) (empty c (null_of_is_null c gone)))))
      | inr there ↦ rw there (
          lookup_from-longest n (i + 1) a c (newer (entry_of t) best)
          ∙ sym (newer_assoc below (entry_of t) best)
          ∙ ap (λ o. newer o best) (sym (longest_shift (λ m. entry_from m i a t) n)))
    ]
  where
    empty : (c : Trie) → c ≡ null → longest (λ m. entry_from m (i + 1) a c) n ≡ none
    empty c e =
        longest_cong (λ m. entry_from m (i + 1) a c) (λ m. none) n
          (λ m le. ap (entry_from m (i + 1) a) e ∙ entry_from-null m (i + 1) a)
        ∙ longest-none n

-- The trie's answer for an address: the entry of the longest prefix, of 32 bits down to none.
pub lookup-longest :
    (t : LpmTrie) (dest_ip : ℕ)
    → lookup t dest_ip ≡ longest (λ len. entry_from len 0 dest_ip t.root) 32
unfolding lookup
lookup-longest t dest_ip = lookup_from-longest 32 0 dest_ip t.root none ∙ newer-none _
