-- ===== src/Lpm/Prefix.antt =====
-- Addresses whose first `n` bits agree have the same `n`-bit prefix.
use native.Mathlib.Nat.{pow-suc, div-div-eq-div-mul, div-eq_of_lt, zero-add}
use aether_plane.Base.{
  ℕ, zero, suc, ◌+◌, ◌-◌, ◌*◌, ◌/◌, ◌^◌, ◌≤◌, ◌<◌, ◌≡◌, sym, ap, ◌∙◌, ◌&&◌, arith, ◌==◌, ◌>>>◌,
}
use aether_plane.Lpm.{bit}
use aether_plane.Lpm.Walk.{agree_from, bit-eq-mod}

-- The network part of an address: its first `n` bits.
abbrev pub network : ℕ → ℕ → ℕ
network n addr = addr >>> (32 - n)

agree_from_last :
    (n i p q : ℕ)
    → agree_from (suc n) i p q ≡ agree_from n i p q && (bit p (i + n) == bit q (i + n))
unfolding agree_from
agree_from_last zero i p q = ground (
  arith,
  ap (bit p) (let e : i + 0 ≡ i = omega arith in e),
  ap (bit q) (let e : i + 0 ≡ i = omega arith in e),
)
agree_from_last (suc n) i p q = ground (
  arith,
  agree_from_last n (i + 1) p q,
  ap (bit p) (let e : i + 1 + n ≡ i + suc n = omega arith in e),
  ap (bit q) (let e : i + 1 + n ≡ i + suc n = omega arith in e),
)

halve : (k a : ℕ) → a / 2 ^ suc k ≡ a / 2 ^ k / 2
halve k a = ap (λ m. a / m) (pow-suc 2 k) ∙ sym (div-div-eq-div-mul a (2 ^ k) 2)

network-suc : (n a : ℕ) → suc n ≤ 32 → network (suc n) a ≡ network n a * 2 + bit a n
network-suc n a h =
    let k = 31 - n in
    omega (
      arith,
      ap (λ m. a / 2 ^ m) (let e : 32 - suc n ≡ k = omega arith in e),
      ap (λ m. a / 2 ^ m) (let e : 32 - n ≡ suc k = omega arith in e),
      halve k a,
      bit-eq-mod a n,
    )

pub agree_from-network :
    (n p q : ℕ)
    → n ≤ 32
    → p < 2 ^ 32
    → q < 2 ^ 32
    → agree_from n 0 p q ≡ (network n p == network n q)
unfolding agree_from
agree_from-network zero p q h hp hq =
    let ep : network 0 p ≡ 0 = div-eq_of_lt hp in
    let eq : network 0 q ≡ 0 = div-eq_of_lt hq in ground arith
agree_from-network (suc n) p q h hp hq =
    agree_from_last n 0 p q
    ∙ ground (
      arith,
      agree_from-network n p q (omega arith) hp hq,
      network-suc n p h,
      network-suc n q h,
      bit-eq-mod p n,
      bit-eq-mod q n,
      ap (bit p) (zero-add n),
      ap (bit q) (zero-add n),
    )
