-- ===== src/Base/Sums.antt =====
-- Weighted sums over the first entries of an array.
use Prim.Native.Nat.{ℕ, zero, suc, ◌+◌, ◌≤◌, ◌<◌}
use mathlib.Core.Path.{◌≡◌, refl, subst}
use mathlib.Core.Logic.{inl, inr}
use native.Mathlib.Omega.{arith}
use aether_plane.Base.Tests.{ltb, Bool-cases}
use aether_plane.Base.Arrays.{update}

module _ {ℓ} {A : Type ℓ} (w : A → ℕ) where
  pub sum_over : ℕ → (ℕ → A) → ℕ
  sum_over zero f = 0
  sum_over (suc n) f = sum_over n f + w (f n)

  sum_over-update_above :
      (n : ℕ) (f : ℕ → A) (i : ℕ) (a : A) → n ≤ i → sum_over n (update f i a) ≡ sum_over n f
  unfolding sum_over
  sum_over-update_above zero f i a h = refl
  sum_over-update_above (suc n) f i a h = ground (arith, sum_over-update_above n f i a)

  -- What one write does to a sum.
  pub sum_over-update :
      (n : ℕ) (f : ℕ → A) (i : ℕ) (a : A)
      → i < n
      → sum_over n (update f i a) + w (f i) ≡ sum_over n f + w a
  unfolding sum_over
  sum_over-update zero f i a h = absurd (omega arith)
  sum_over-update (suc n) f i a h = elim (Bool-cases (ltb i n)) [
    | inl below ↦ ground (arith, sum_over-update n f i a)
    | inr last ↦ ground (arith, sum_over-update_above n f i a)
  ]

  pub sum_over_cong :
      (n : ℕ) (f g : ℕ → A) → ((i : ℕ) → w (f i) ≡ w (g i)) → sum_over n f ≡ sum_over n g
  unfolding sum_over
  sum_over_cong zero f g h = refl
  sum_over_cong (suc n) f g h = omega (arith, sum_over_cong n f g h, h n)

  pub sum_over_zero : (n : ℕ) (f : ℕ → A) → ((i : ℕ) → w (f i) ≡ 0) → sum_over n f ≡ 0
  unfolding sum_over
  sum_over_zero zero f h = refl
  sum_over_zero (suc n) f h = omega (arith, sum_over_zero n f h, h n)

  pub sum_over_entry : (n : ℕ) (f : ℕ → A) (i : ℕ) → i < n → w (f i) ≤ sum_over n f
  unfolding sum_over
  sum_over_entry zero f i h = absurd (omega arith)
  sum_over_entry (suc n) f i h = elim (Bool-cases (ltb i n)) [
    | inl below ↦ ground (arith, sum_over_entry n f i)
    | inr last ↦
        let same : n ≡ i = ground arith in
        subst (λ j. w (f j) ≤ sum_over n f + w (f n)) same (omega arith)
  ]

  pub sum_over_zero_below : (n : ℕ) (f : ℕ → A) → ((i : ℕ) → i < n → w (f i) ≡ 0) → sum_over n f ≡ 0
  unfolding sum_over
  sum_over_zero_below zero f h = refl
  sum_over_zero_below (suc n) f h =
      omega (arith, sum_over_zero_below n f (λ i lt. h i (omega arith)), h n (omega arith))
