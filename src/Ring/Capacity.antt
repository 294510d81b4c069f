-- ===== src/Ring/Capacity.antt =====
-- What the `static_assert` on `Capacity` gives: a power of two, so that a mask is a remainder.
use native.Mathlib.Nat.{pow-suc, one-le-pow, pow-le-pow_right, mod-mod_of_dvd}
use native.Mathlib.Nat.{dvd_refl, dvd-mul_right_of_dvd}
use native.Mathlib.Decide.{ℕ_discrete}
use Prim.Native.Nat.{◌∣◌}
use aether_plane.Base.{
  ℕ, zero, suc, ◌+◌, ◌-◌, ◌/◌, ◌%◌, ◌^◌, ◌≤◌, ◌<◌, ◌≡◌, ◌≢◌, refl, ap, subst, ◌∙◌, sym, true, arith,
  bit_and, ==_iff, sub64, u64,
}
use aether_plane.Base.Bits.{bit_and-halves, bit_and-mask}
use aether_plane.Ring.{capacity_ok, slot}

bit_and_self : (bound a : ℕ) → a ≤ bound → bit_and a a ≡ a
bit_and_self bound zero h = refl
bit_and_self zero (suc a) h = absurd (omega arith)
bit_and_self (suc bound) (suc a) h =
    omega (arith, bit_and-halves (suc a) (suc a), bit_and_self bound (suc a / 2) (omega arith))

-- A number whose lowest one is its only one.
single_bit : (bound n : ℕ) → n ≤ bound → 0 < n → bit_and n (n - 1) ≡ 0 → (k : ℕ) × (n ≡ 2 ^ k)
single_bit zero n h pos e = absurd (omega arith)
single_bit (suc bound) n h pos e = elim (ℕ_discrete (n % 2) 1) [
  | yes odd ↦ (
    0,
    omega (
      arith,
      bit_and-halves n (n - 1),
      ap (λ (m : ℕ). bit_and (n / 2) m) (half_of_odd odd),
      bit_and_self (n / 2) (n / 2) (omega arith),
    ),
  )
  | no even ↦
      let (k, is_pow) = single_bit bound (n / 2) (omega arith) (omega arith) (
        omega (
          arith,
          bit_and-halves n (n - 1),
          ap (λ (m : ℕ). bit_and (n / 2) m) (half_of_even even),
        )) in
      (suc k, omega (arith, pow-suc 2 k))
]
  where
    half_of_odd : n % 2 ≡ 1 → (n - 1) / 2 ≡ n / 2
    half_of_odd odd = omega arith

    half_of_even : n % 2 ≢ 1 → (n - 1) / 2 ≡ n / 2 - 1
    half_of_even even = omega arith

sub64-one : (n : ℕ) → 0 < n → n ≤ 2 ^ 63 → sub64 n 1 ≡ n - 1
sub64-one n pos small = omega arith

-- A capacity that compiles is a power of two, unless it is 0.
pub capacity_ok-pow :
    (capacity : ℕ)
    → 0 < capacity
    → capacity ≤ 2 ^ 63
    → capacity_ok capacity ≡ true
    → (k : ℕ) × (capacity ≡ 2 ^ k)
unfolding capacity_ok
capacity_ok-pow n pos small e =
    single_bit n n (omega arith) pos
      (ap (bit_and n) (sym (sub64-one n pos small)) ∙ (==_iff _ 0).0 e)

pub pow-le : (k : ℕ) → k ≤ 63 → (0 < 2 ^ k) × (2 ^ k ≤ 2 ^ 63)
pow-le k h = (one-le-pow k 2 (omega arith), pow-le-pow_right {n = 2} (omega arith) h)

-- The mask is the remainder by the capacity.
pub slot-mod : (k index : ℕ) → k ≤ 63 → slot (2 ^ k) index ≡ index % 2 ^ k
unfolding slot
slot-mod k index h =
    ap (bit_and index) (sub64-one (2 ^ k) (pow-le k h).0 (pow-le k h).1) ∙ bit_and-mask k index

pow-dvd-pow : (d k j : ℕ) → d + k ≡ j → 2 ^ k ∣ 2 ^ j
pow-dvd-pow zero k j e = subst (λ i. 2 ^ k ∣ 2 ^ i) (omega arith) (dvd_refl (2 ^ k))
pow-dvd-pow (suc d) k zero e = absurd (omega arith)
pow-dvd-pow (suc d) k (suc j) e =
    rw (pow-suc 2 j) (dvd-mul_right_of_dvd (2 ^ k) (pow-dvd-pow d k j (omega arith)) 2)

-- It does not see the wrap of an index at 2 ^ 64.
pub mod-u64 : (k index : ℕ) → k ≤ 63 → u64 index % 2 ^ k ≡ index % 2 ^ k
mod-u64 k index h = mod-mod_of_dvd (2 ^ k) index (pow-dvd-pow (64 - k) k 64 (omega arith))
