-- ===== src/Base/Bits.antt =====
-- `x & (2 ^ k - 1)` is the remainder by `2 ^ k`, at every width.
use Prim.Native.Nat.{
  ℕ, zero, suc, ◌+◌, ◌-◌, ◌*◌, ◌/◌, ◌%◌, ◌^◌, ◌≤◌, ◌<◌, min, bit_and, digits, bit_and-bitwise,
}
use mathlib.Core.Path.{◌≡◌, refl, ap, ◌∙◌}
use native.Mathlib.Nat.{
  pow-suc, one-le-pow, mod-lt, mod-eq_of_lt, div-add-mod', mul-add-mod_self_right,
}
use native.Mathlib.Omega.{arith}

abbrev conj_digits : ℕ → ℕ → ℕ → ℕ
conj_digits fuel a b = digits (λ y. zero) min fuel a b

-- Fuel beyond the first number changes nothing.
conj_digits_fuel : (f g a b : ℕ) → a ≤ f → a ≤ g → conj_digits f a b ≡ conj_digits g a b
conj_digits_fuel zero zero a b p q = refl
conj_digits_fuel zero (suc g) zero b p q = refl
conj_digits_fuel zero (suc g) (suc a) b p q = absurd (omega arith)
conj_digits_fuel (suc f) zero zero b p q = refl
conj_digits_fuel (suc f) zero (suc a) b p q = absurd (omega arith)
conj_digits_fuel (suc f) (suc g) zero b p q = refl
conj_digits_fuel (suc f) (suc g) (suc a) b p q =
    omega (arith, conj_digits_fuel f g (suc a / 2) (b / 2) (omega arith) (omega arith))

zero-bit_and : (b : ℕ) → bit_and 0 b ≡ 0
zero-bit_and b = bit_and-bitwise 0 b

-- The lowest digit apart.
pub bit_and-halves : (a b : ℕ) → bit_and a b ≡ bit_and (a / 2) (b / 2) * 2 + min (a % 2) (b % 2)
bit_and-halves zero b = omega (arith, zero-bit_and b, zero-bit_and (b / 2))
bit_and-halves (suc a) b = omega (
  arith,
  bit_and-bitwise (suc a) b,
  bit_and-bitwise (suc a / 2) (b / 2),
  conj_digits_fuel a (suc a / 2) (suc a / 2) (b / 2) (omega arith) (omega arith),
)

bit_and-zero_below : (bound a : ℕ) → a ≤ bound → bit_and a 0 ≡ 0
bit_and-zero_below bound zero h = refl
bit_and-zero_below zero (suc a) h = absurd (omega arith)
bit_and-zero_below (suc bound) (suc a) h =
    omega (arith, bit_and-halves (suc a) 0, bit_and-zero_below bound (suc a / 2) (omega arith))

-- One more bit of the remainder.
mod-pow-suc : (k a : ℕ) → a % 2 ^ suc k ≡ a / 2 % 2 ^ k * 2 + a % 2
mod-pow-suc k a =
    let q = a / 2 / 2 ^ k in
    let r = a / 2 % 2 ^ k in
    let below : r < 2 ^ k = mod-lt (a / 2) (one-le-pow k 2 (omega arith)) in
    let split : a ≡ q * 2 ^ suc k + (r * 2 + a % 2) =
      omega (arith, div-add-mod' (a / 2) (2 ^ k), ap (λ (t : ℕ). q * t) (pow-suc 2 k)) in
    let fits : r * 2 + a % 2 < 2 ^ suc k = omega (arith, pow-suc 2 k, below) in
    ap (λ (t : ℕ). t % 2 ^ suc k) split
    ∙ mul-add-mod_self_right q (2 ^ suc k) (r * 2 + a % 2)
    ∙ mod-eq_of_lt fits

mask-halves : (k : ℕ) → ((2 ^ suc k - 1) / 2 ≡ 2 ^ k - 1) × ((2 ^ suc k - 1) % 2 ≡ 1)
mask-halves k = omega (arith, pow-suc 2 k, one-le-pow k 2 (omega arith))

pub bit_and-mask : (k a : ℕ) → bit_and a (2 ^ k - 1) ≡ a % 2 ^ k
bit_and-mask zero a = omega (arith, bit_and-zero_below a a (omega arith))
bit_and-mask (suc k) a = omega (
  arith,
  bit_and-halves a (2 ^ suc k - 1),
  ap (λ (m : ℕ). bit_and (a / 2) m) (mask-halves k).0,
  (mask-halves k).1,
  mod-pow-suc k a,
  bit_and-mask k (a / 2),
)
