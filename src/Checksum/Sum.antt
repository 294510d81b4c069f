-- ===== src/Checksum/Sum.antt =====
-- The summing loops of `ChecksumEngine` against the plain sum of the 16-bit words.
use aether_plane.Base.{
  ℕ, zero, suc, ◌+◌, ◌-◌, ◌*◌, ◌^◌, ◌≤◌, ◌<◌, ◌≡◌, refl, ap, ◌∙◌, List, [], ◌∷◌, arith, length,
  length-drop, drop, leb, add64, subst, sym, Bool-cases, inl, inr, leb→le,
}
use aether_plane.Checksum.{word, word_at, Scan, block_step, sum_blocks, sum_words_loop, sum_odd}

-- The words of a message, lowest byte first, an odd last byte by itself.
unfoldable pub sum_words : List ℕ → ℕ
sum_words [] = 0
sum_words (b ∷ []) = b
sum_words (lo ∷ hi ∷ rest) = lo + hi * 256 + sum_words rest

abbrev pub AreBytes : List ℕ → Type 0
AreBytes [] = Unit {0}
AreBytes (b ∷ bs) = (b < 256) × AreBytes bs

pub AreBytes-drop : (n : ℕ) (bs : List ℕ) → AreBytes bs → AreBytes (drop n bs)
AreBytes-drop zero bs h = h
AreBytes-drop (suc n) [] h = tt
AreBytes-drop (suc n) (b ∷ bs) h = AreBytes-drop n bs h.1

sum_words-drop :
    (j : ℕ) (bs : List ℕ)
    → j + 2 ≤ length bs
    → sum_words (drop j bs) ≡ word (drop j bs) + sum_words (drop (j + 2) bs)
unfolding sum_words word
sum_words-drop zero [] h = absurd (omega arith)
sum_words-drop zero (b ∷ []) h = absurd (omega arith)
sum_words-drop zero (lo ∷ hi ∷ rest) h = refl
sum_words-drop (suc j) [] h = absurd (omega arith)
sum_words-drop (suc j) (b ∷ bs) h =
    rw (let e : suc j + 2 ≡ suc (j + 2) = omega arith in e) (sum_words-drop j bs (omega arith))

word-lt : (bs : List ℕ) → AreBytes bs → word bs < 65536
unfolding word
word-lt [] h = omega arith
word-lt (b ∷ []) h = omega arith
word-lt (lo ∷ hi ∷ rest) h = omega arith

-- A scan that has its bytes before it, with room for their sum in 64 bits.
pub record IsFit (s : Scan) : Type 0 where
  pub exact : s.len ≡ length s.ptr
  pub bytes : AreBytes s.ptr
  pub room : s.sum + 65536 * s.len < 2 ^ 64

-- What the scan still comes to.
abbrev pub total : Scan → ℕ
total s = s.sum + sum_words s.ptr

-- Eight additions on 64 bits, none of which wraps.
eight_sums :
    (s w0 w1 w2 w3 w4 w5 w6 w7 : ℕ)
    → s + (w0 + w1 + w2 + w3 + w4 + w5 + w6 + w7) < 2 ^ 64
    → add64 (add64 (add64 (add64 (add64 (add64 (add64 (add64 s w0) w1) w2) w3) w4) w5) w6) w7
      ≡ s + (w0 + w1 + w2 + w3 + w4 + w5 + w6 + w7)
eight_sums s w0 w1 w2 w3 w4 w5 w6 w7 h = omega arith

abbrev block_sum : List ℕ → ℕ
block_sum p =
    word p
    + word (drop 2 p)
    + word (drop 4 p)
    + word (drop 6 p)
    + word (drop 8 p)
    + word (drop 10 p)
    + word (drop 12 p)
    + word (drop 14 p)

block_sum_lem : (p : List ℕ) → 16 ≤ length p → sum_words p ≡ block_sum p + sum_words (drop 16 p)
block_sum_lem p h = omega (
  arith,
  sum_words-drop 0 p (omega arith),
  sum_words-drop 2 p (omega arith),
  sum_words-drop 4 p (omega arith),
  sum_words-drop 6 p (omega arith),
  sum_words-drop 8 p (omega arith),
  sum_words-drop 10 p (omega arith),
  sum_words-drop 12 p (omega arith),
  sum_words-drop 14 p (omega arith),
)

block_sum-lt : (p : List ℕ) → AreBytes p → block_sum p < 65536 * 8
block_sum-lt p h = omega (
  arith,
  word-lt p h,
  word-lt (drop 2 p) (AreBytes-drop 2 p h),
  word-lt (drop 4 p) (AreBytes-drop 4 p h),
  word-lt (drop 6 p) (AreBytes-drop 6 p h),
  word-lt (drop 8 p) (AreBytes-drop 8 p h),
  word-lt (drop 10 p) (AreBytes-drop 10 p h),
  word-lt (drop 12 p) (AreBytes-drop 12 p h),
  word-lt (drop 14 p) (AreBytes-drop 14 p h),
)

block_step-sum : (s : Scan) → IsFit s → 16 ≤ s.len → (block_step s).sum ≡ s.sum + block_sum s.ptr
unfolding block_step word_at
block_step-sum s v h =
    eight_sums s.sum (word s.ptr) (word (drop 2 s.ptr)) (word (drop 4 s.ptr)) (word (drop 6 s.ptr))
      (word (drop 8 s.ptr)) (word (drop 10 s.ptr)) (word (drop 12 s.ptr)) (word (drop 14 s.ptr))
      (omega (arith, block_sum-lt s.ptr v.bytes))
    ∙ omega arith

block_step-ptr :
    (s : Scan) → ((block_step s).ptr ≡ drop 16 s.ptr) × ((block_step s).len ≡ s.len - 16)
unfolding block_step
block_step-ptr s = (refl, refl)

block_step-total :
    (s : Scan) → IsFit s → 16 ≤ s.len → IsFit (block_step s) × (total (block_step s) ≡ total s)
block_step-total s v h =
    let sum = block_step-sum s v h in
    let at = block_step-ptr s in
    let small = block_sum-lt s.ptr v.bytes in
    (
      record {
        exact = at.1 ∙ omega (arith, length-drop 16 s.ptr, ap (length {A = ℕ}) at.0);
        bytes = subst AreBytes (sym at.0) (AreBytes-drop 16 s.ptr v.bytes);
        room = omega arith;
      },
      omega (arith, ap sum_words at.0, block_sum_lem s.ptr (omega arith)),
    )

-- The unrolled loop leaves fewer than 16 bytes, and loses nothing.
sum_blocks-total :
    (fuel : ℕ) (s : Scan)
    → s.len ≤ fuel
    → IsFit s
    → IsFit (sum_blocks fuel s) × (total (sum_blocks fuel s) ≡ total s)
unfolding sum_blocks
sum_blocks-total zero s le v = (v, refl)
sum_blocks-total (suc fuel) s le v = elim (Bool-cases (leb 16 s.len)) [
  | inl more ↦
      let (v', same) = block_step-total s v (ground arith) in
      let rest =
        sum_blocks-total fuel (block_step s) (omega (arith, (block_step-ptr s).1, leb→le _ _ more))
          v' in
      rw more (rest.0, rest.1 ∙ same)
  | inr done ↦ rw done (v, refl)
]

sum_blocks-len : (fuel : ℕ) (s : Scan) → (sum_blocks fuel s).len ≤ s.len
unfolding sum_blocks
sum_blocks-len zero s = omega arith
sum_blocks-len (suc fuel) s =
    ground (arith, sum_blocks-len fuel (block_step s), (block_step-ptr s).1)

abbrev next_word : Scan → Scan
next_word s = record { ptr = drop 2 s.ptr; len = s.len - 2; sum = add64 s.sum (word s.ptr) }

next_word-total :
    (s : Scan) → IsFit s → 2 ≤ s.len → IsFit (next_word s) × (total (next_word s) ≡ total s)
next_word-total s v h =
    let small = word-lt s.ptr v.bytes in
    (
      record {
        exact = omega (arith, length-drop 2 s.ptr);
        bytes = AreBytes-drop 2 s.ptr v.bytes;
        room = omega arith;
      },
      omega (arith, sum_words-drop 0 s.ptr (omega arith)),
    )

sum_odd_last :
    (ptr : List ℕ) (len sum : ℕ)
    → IsFit (record { ptr = ptr; len = len; sum = sum })
    → len < 2
    → sum_odd (record { ptr = ptr; len = len; sum = sum }) ≡ sum + sum_words ptr
unfolding sum_odd sum_words
sum_odd_last [] len sum v h = ground arith
sum_odd_last (b ∷ []) len sum v h = ground arith
sum_odd_last (a ∷ b ∷ bs) len sum v h = absurd (omega arith)

-- The second loop leaves at most one byte, and `if (len == 1)` adds it.
pub sum_words_loop-total :
    (fuel : ℕ) (s : Scan) → s.len ≤ fuel → IsFit s → sum_odd (sum_words_loop fuel s) ≡ total s
unfolding sum_words_loop
sum_words_loop-total zero s le v = sum_odd_last s.ptr s.len s.sum v (omega arith)
sum_words_loop-total (suc fuel) s le v = elim (Bool-cases (leb 2 s.len)) [
  | inl more ↦
      let (v', same) = next_word-total s v (leb→le _ _ more) in
      rw more (sum_words_loop-total fuel (next_word s) (omega (arith, leb→le _ _ more)) v' ∙ same)
  | inr done ↦ rw done (sum_odd_last s.ptr s.len s.sum v (ground arith))
]

-- Both loops together add up the message's words, each once.
pub loops-sum_words :
    (bytes : List ℕ)
    → AreBytes bytes
    → length bytes < 2 ^ 40
    → let len = length bytes in
      sum_odd (sum_words_loop len (sum_blocks len (record { ptr = bytes; len = len; sum = 0 })))
      ≡ sum_words bytes
loops-sum_words bytes h lt =
    let start : Scan = record { ptr = bytes; len = length bytes; sum = 0 } in
    let fit : IsFit start = record { exact = refl; bytes = h; room = omega arith } in
    let (v, same) = sum_blocks-total (length bytes) start (omega arith) fit in
    sum_words_loop-total (length bytes) (sum_blocks (length bytes) start)
      (sum_blocks-len (length bytes) start) v
    ∙ same
    ∙ omega arith
