-- ===== src/Checksum/Update.antt =====
-- Receiving and rewriting a message: the checksum field, `update_checksum_16` and
-- `update_checksum_32`.
use aether_plane.Base.{
  ℕ, ◌+◌, ◌-◌, ◌/◌, ◌%◌, ◌^◌, ◌<◌, ◌≡◌, ◌≢◌, sym, ap, ◌∙◌, List, ◌∷◌, arith, length, length-append,
  ◌>>>◌, u16,
}
use aether_plane.Base.Bits.{bit_and-mask}
use aether_plane.Checksum.{compute_checksum, update_checksum_16, update_checksum_32}
use aether_plane.Checksum.Fold.{ones_sum, ones_sum-lt, update_checksum_16_sum}
use aether_plane.Checksum.Sum.{sum_words}
use aether_plane.Checksum.Laws.{
  with_word, IsAround, compute_checksum-with_word, ones_sum_complement, ones_sum_update,
}

abbrev pub checksum_of : List ℕ → ℕ
checksum_of bytes = compute_checksum bytes (length bytes)

-- A message that carries, at an even offset, the checksum computed with 0 in that place is checked as
-- 0.
pub compute_checksum-verify :
    (before after : List ℕ)
    → IsAround before after
    → checksum_of (with_word before (checksum_of (with_word before 0 after)) after) ≡ 0
compute_checksum-verify before after a =
    let rest = sum_words before + sum_words after in
    let c = checksum_of (with_word before 0 after) in
    let field : c ≡ 65535 - ones_sum (rest + 0) =
      compute_checksum-with_word before 0 after a (omega arith) in
    compute_checksum-with_word before c after a (omega arith) ∙ ones_sum_complement rest c field

-- Replacing a word `old` at an even offset by `new`: the update of the old message's checksum is the
-- new message's, unless the new message is all zeros.
pub update_checksum_16-recompute :
    (before : List ℕ) (old new : ℕ) (after : List ℕ)
    → IsAround before after
    → old < 65536
    → new < 65536
    → sum_words before + sum_words after + new ≢ 0
    → update_checksum_16 (checksum_of (with_word before old after)) old new
      ≡ checksum_of (with_word before new after)
update_checksum_16-recompute before old new after a ho hn ne =
    let rest = sum_words before + sum_words after in
    let c = checksum_of (with_word before old after) in
    let field : c ≡ 65535 - ones_sum (rest + old) =
      compute_checksum-with_word before old after a ho in
    update_checksum_16_sum c old new (omega arith) ho hn
    ∙ ap (λ s. 65535 - ones_sum (s + (65535 - old) + new)) (omega (arith, ones_sum-lt (rest + old)))
    ∙ ap (λ s. 65535 - s) (ones_sum_update rest old new ho hn ne)
    ∙ sym (compute_checksum-with_word before new after a hn)

-- The update of a message whose words become all zeros gives 0, where a recomputation gives 65535.
pub update_checksum_16-zeros :
    (before : List ℕ) (old : ℕ) (after : List ℕ)
    → IsAround before after
    → 0 < old
    → old < 65536
    → sum_words before + sum_words after ≡ 0
    → (update_checksum_16 (checksum_of (with_word before old after)) old 0 ≡ 0)
      × (checksum_of (with_word before 0 after) ≡ 65535)
update_checksum_16-zeros before old after a pos ho zeros =
    let rest = sum_words before + sum_words after in
    let c = checksum_of (with_word before old after) in
    let field : c ≡ 65535 - ones_sum (rest + old) =
      compute_checksum-with_word before old after a ho in
    (
      update_checksum_16_sum c old 0 (omega arith) ho (omega arith) ∙ ground arith,
      compute_checksum-with_word before 0 after a (omega arith) ∙ ground arith,
    )

ones_sum_update_twice :
    (rest old_high old_low new_high new_low : ℕ)
    → old_high < 65536
    → old_low < 65536
    → new_high < 65536
    → new_low < 65536
    → rest + new_high + new_low ≢ 0
    → ones_sum (
        ones_sum (ones_sum (rest + old_high + old_low) + (65535 - old_high) + new_high)
        + (65535 - old_low)
        + new_low)
      ≡ ones_sum (rest + new_high + new_low)
ones_sum_update_twice rest oh ol nh nl h1 h2 h3 h4 ne = ground arith

update_checksum_32_sum :
    (csum old new : ℕ)
    → csum < 65536
    → old < 2 ^ 32
    → new < 2 ^ 32
    → update_checksum_32 csum old new
      ≡ 65535
        - ones_sum (
            ones_sum ((65535 - csum) + (65535 - old / 65536) + new / 65536)
            + (65535 - old % 65536)
            + new % 65536)
unfolding update_checksum_32
update_checksum_32_sum csum old new hc ho hn =
    let first = ones_sum ((65535 - csum) + (65535 - old / 65536) + new / 65536) in
    rw
      (
        (let e : u16 (old >>> 16) ≡ old / 65536 = omega arith in e),
        (let e : u16 (new >>> 16) ≡ new / 65536 = omega arith in e),
        bit_and-mask 16 old,
        bit_and-mask 16 new,
        (let e : u16 (old % 65536) ≡ old % 65536 = omega arith in e),
        (let e : u16 (new % 65536) ≡ new % 65536 = omega arith in e),
        update_checksum_16_sum csum (old / 65536) (new / 65536) hc (omega arith) (omega arith),
        update_checksum_16_sum (65535 - first) (old % 65536) (new % 65536) (omega arith)
            (omega arith) (omega arith),
      )
      (ap (λ s. 65535 - ones_sum (s + (65535 - old % 65536) + new % 65536))
        (omega (arith, ones_sum-lt ((65535 - csum) + (65535 - old / 65536) + new / 65536))))

-- A message with a 32-bit value at an even offset, its high word first.
abbrev pub with_dword : List ℕ → ℕ → List ℕ → List ℕ
with_dword before v after = with_word before (v / 65536) (v % 65536 % 256 ∷ v % 65536 / 256 ∷ after)

IsAround-low :
    (before : List ℕ) (w : ℕ) (after : List ℕ)
    → w < 65536
    → IsAround before (0 ∷ 0 ∷ after)
    → IsAround before (w % 256 ∷ w / 256 ∷ after)
IsAround-low before w after hw a = record {
  bytes_before = a.bytes_before;
  bytes_after = (omega arith, (omega arith, a.bytes_after.1.1));
  even = a.even;
  short = omega (
    arith,
    a.short,
    length-append before (0 ∷ 0 ∷ 0 ∷ 0 ∷ after),
    length-append before (0 ∷ 0 ∷ w % 256 ∷ w / 256 ∷ after),
  );
}

checksum_of-with_dword :
    (before : List ℕ) (v : ℕ) (after : List ℕ)
    → IsAround before (0 ∷ 0 ∷ after)
    → v < 2 ^ 32
    → checksum_of (with_dword before v after)
      ≡ 65535 - ones_sum (sum_words before + sum_words after + v / 65536 + v % 65536)
unfolding sum_words
checksum_of-with_dword before v after a hv =
    compute_checksum-with_word before (v / 65536) (v % 65536 % 256 ∷ v % 65536 / 256 ∷ after)
      (IsAround-low before (v % 65536) after (omega arith) a) (omega arith)
    ∙ ap (λ s. 65535 - ones_sum s) (omega arith)

-- Replacing a 32-bit value, written as its two words at an even offset, by another one: the update of the old
-- message's checksum is the new message's, unless the new message is all zeros.
pub update_checksum_32-recompute :
    (before : List ℕ) (old new : ℕ) (after : List ℕ)
    → IsAround before (0 ∷ 0 ∷ after)
    → old < 2 ^ 32
    → new < 2 ^ 32
    → sum_words before + sum_words after + new ≢ 0
    → update_checksum_32 (checksum_of (with_dword before old after)) old new
      ≡ checksum_of (with_dword before new after)
update_checksum_32-recompute before old new after a ho hn ne =
    let rest = sum_words before + sum_words after in
    let c = checksum_of (with_dword before old after) in
    let r = ones_sum (rest + old / 65536 + old % 65536) in
    let field : c ≡ 65535 - r = checksum_of-with_dword before old after a ho in
    let back : 65535 - c ≡ r = omega (arith, ones_sum-lt (rest + old / 65536 + old % 65536)) in
    update_checksum_32_sum c old new (omega arith) ho hn
    ∙ ap
        (λ s.
          65535
          - ones_sum (
              ones_sum (s + (65535 - old / 65536) + new / 65536)
              + (65535 - old % 65536)
              + new % 65536))
        back
    ∙ ap (λ s. 65535 - s)
        (ones_sum_update_twice rest (old / 65536) (old % 65536) (new / 65536) (new % 65536)
          (omega arith) (omega arith) (omega arith) (omega arith) (omega arith))
    ∙ sym (checksum_of-with_dword before new after a hn)
