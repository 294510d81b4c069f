-- ===== src/Checksum/Fold.antt =====
-- Folding the carries: the one's complement sum of RFC 1071, as a remainder.
use aether_plane.Base.{
  ℕ, zero, suc, ◌+◌, ◌-◌, ◌/◌, ◌%◌, ◌^◌, ◌≤◌, ◌<◌, ◌≡◌, arith, ◌==◌, if◌then◌else◌, not32, u32,
}
use aether_plane.Base.Bits.{bit_and-mask}
use aether_plane.Checksum.{fold, fold32, finish, update_checksum_16}

-- The representative of a sum in one's complement arithmetic on 16 bits: 0 is the sum of nothing but
-- zeros, and every other multiple of 65535 is 65535.
abbrev pub ones_sum : ℕ → ℕ
ones_sum s = if s == 0 then 0 else suc ((s - 1) % 65535)

pub ones_sum-lt : (s : ℕ) → ones_sum s < 65536
ones_sum-lt s = ground arith

ones_sum_small : (s : ℕ) → s < 65536 → ones_sum s ≡ s
ones_sum_small s h = ground arith

ones_sum_carry : (s : ℕ) → 65536 ≤ s → ones_sum (s % 65536 + s / 65536) ≡ ones_sum s
ones_sum_carry s h = ground arith

-- The loop ends with no carry left, and its result is the representative.
pub fold_lem : (fuel s : ℕ) → s ≤ fuel → s < 2 ^ 64 → fold fuel s ≡ ones_sum s
unfolding fold
fold_lem zero s le lt = ground arith
fold_lem (suc fuel) s le lt = ground (
  arith,
  bit_and-mask 16 s,
  ones_sum_small s,
  ones_sum_carry s,
  fold_lem fuel (s % 65536 + s / 65536),
)

pub finish_lem : (s : ℕ) → s < 2 ^ 64 → finish s ≡ 65535 - ones_sum s
unfolding finish
finish_lem s lt = omega (arith, fold_lem s s (omega arith) lt, ones_sum-lt s)

fold32_lem : (fuel s : ℕ) → s ≤ fuel → s < 2 ^ 32 → fold32 fuel s ≡ ones_sum s
unfolding fold32
fold32_lem zero s le lt = ground arith
fold32_lem (suc fuel) s le lt = ground (
  arith,
  bit_and-mask 16 s,
  ones_sum_small s,
  ones_sum_carry s,
  fold32_lem fuel (s % 65536 + s / 65536),
)

-- HC' = ~(~HC + ~m + m'), in one's complement arithmetic.
pub update_checksum_16_sum :
    (csum old new : ℕ)
    → csum < 65536
    → old < 65536
    → new < 65536
    → update_checksum_16 csum old new ≡ 65535 - ones_sum ((65535 - csum) + (65535 - old) + new)
unfolding update_checksum_16
update_checksum_16_sum csum old new hc ho hn =
    let total = (65535 - csum) + (65535 - old) + new in
    rw
      (
        bit_and-mask 16 (not32 csum),
        bit_and-mask 16 (not32 old),
        (let e : u32 (not32 csum % 65536 + not32 old % 65536 + new) ≡ total = omega arith in e),
      )
      (omega (arith, fold32_lem total total (omega arith) (omega arith), ones_sum-lt total))
