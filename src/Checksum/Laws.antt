-- ===== src/Checksum/Laws.antt =====
-- What the checksums are: RFC 1071's one's complement sum, verified by a receiver as 0, and RFC
-- 1624's update, which agrees with a recomputation.
use aether_plane.Base.{
  ℕ, ◌+◌, ◌-◌, ◌*◌, ◌/◌, ◌%◌, ◌^◌, ◌≤◌, ◌<◌, ◌≡◌, ◌≢◌, ap, ◌∙◌, List, [], ◌∷◌, ◌++◌, arith, length,
  length-append,
}
use aether_plane.Checksum.{compute_checksum, finish}
use aether_plane.Checksum.Fold.{ones_sum, finish_lem}
use aether_plane.Checksum.Sum.{sum_words, AreBytes, loops-sum_words}

pub sum_words-lt : (bytes : List ℕ) → AreBytes bytes → sum_words bytes ≤ 65536 * length bytes
unfolding sum_words
sum_words-lt [] h = omega arith
sum_words-lt (b ∷ []) h = omega arith
sum_words-lt (lo ∷ hi ∷ rest) h = omega (arith, sum_words-lt rest h.1.1)

-- The checksum of a message of bytes, shorter than 2 ^ 40, is the complement of the one's complement
-- sum of its 16-bit words.
pub compute_checksum-rfc1071 :
    (bytes : List ℕ)
    → AreBytes bytes
    → length bytes < 2 ^ 40
    → compute_checksum bytes (length bytes) ≡ 65535 - ones_sum (sum_words bytes)
unfolding compute_checksum
compute_checksum-rfc1071 bytes h lt =
    ap finish (loops-sum_words bytes h lt)
    ∙ finish_lem (sum_words bytes) (omega (arith, sum_words-lt bytes h))

-- A message with one word singled out, at an even offset.
abbrev pub with_word : List ℕ → ℕ → List ℕ → List ℕ
with_word before w after = before ++ (w % 256 ∷ w / 256 ∷ after)

abbrev pub IsEven : List ℕ → Type 0
IsEven [] = Unit {0}
IsEven (b ∷ []) = ⊥
IsEven (a ∷ b ∷ rest) = IsEven rest

sum_words-with_word :
    (before : List ℕ) (w : ℕ) (after : List ℕ)
    → IsEven before
    → sum_words (with_word before w after) ≡ sum_words before + w + sum_words after
unfolding sum_words
sum_words-with_word [] w after h = omega arith
sum_words-with_word (b ∷ []) w after h = absurd h
sum_words-with_word (a ∷ b ∷ before) w after h = omega (arith, sum_words-with_word before w after h)

AreBytes-with_word :
    (before : List ℕ) (w : ℕ) (after : List ℕ)
    → AreBytes before
    → AreBytes after
    → w < 65536
    → AreBytes (with_word before w after)
AreBytes-with_word [] w after hb ha hw = (omega arith, (omega arith, ha))
AreBytes-with_word (b ∷ before) w after hb ha hw =
    (hb.0, AreBytes-with_word before w after hb.1 ha hw)

pub length-with_word :
    (before : List ℕ) (w v : ℕ) (after : List ℕ)
    → length (with_word before w after) ≡ length (with_word before v after)
length-with_word before w v after = omega (
  arith,
  length-append before (w % 256 ∷ w / 256 ∷ after),
  length-append before (v % 256 ∷ v / 256 ∷ after),
)

pub ones_sum_complement :
    (rest c : ℕ) → c ≡ 65535 - ones_sum (rest + 0) → 65535 - ones_sum (rest + c) ≡ 0
ones_sum_complement rest c e = ground arith

pub ones_sum_update :
    (rest old new : ℕ)
    → old < 65536
    → new < 65536
    → rest + new ≢ 0
    → ones_sum (ones_sum (rest + old) + (65535 - old) + new) ≡ ones_sum (rest + new)
ones_sum_update rest old new ho hn ne = ground arith

-- The parts of a message around a word at an even offset.
pub record IsAround (before after : List ℕ) : Type 0 where
  pub bytes_before : AreBytes before
  pub bytes_after : AreBytes after
  pub even : IsEven before
  pub short : length (with_word before 0 after) < 2 ^ 40

pub compute_checksum-with_word :
    (before : List ℕ) (w : ℕ) (after : List ℕ)
    → IsAround before after
    → w < 65536
    → compute_checksum (with_word before w after) (length (with_word before w after))
      ≡ 65535 - ones_sum (sum_words before + sum_words after + w)
compute_checksum-with_word before w after a hw =
    compute_checksum-rfc1071 (with_word before w after)
      (AreBytes-with_word before w after a.bytes_before a.bytes_after hw)
      (omega (arith, length-with_word before w 0 after, a.short))
    ∙ ap (λ s. 65535 - ones_sum s) (sum_words-with_word before w after a.even ∙ omega arith)
