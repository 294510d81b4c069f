-- ===== src/Base/Text.antt =====
-- Text as lists of character codes: what `std::ostream` prints for an unsigned integer, and reading it back.
use Prim.Native.Nat.{ℕ, zero, suc, ◌+◌, ◌-◌, ◌*◌, ◌/◌, ◌%◌, ◌≤◌, ◌<◌}
use mathlib.Core.Path.{◌≡◌, refl, ap, ap₂, ◌∙◌}
use mathlib.Core.Logic.{inl, inr}
use mathlib.Core.Bool.{Bool, true, false, ◌&&◌, false≢true, and-eq-true_iff}
use mathlib.Core.List.{List, [], ◌∷◌, ◌++◌, append_assoc}
use native.Mathlib.Omega.{arith}
use aether_plane.Base.Tests.{Bool-cases, leb, ltb, ◌==◌, if◌then◌else◌}

-- The decimal digits of `n`, on fuel; `n` itself is enough of it, since each step divides `n` by 10.
abbrev digits_from : ℕ → ℕ → List ℕ
digits_from zero n = (48 + n % 10) ∷ []
digits_from (suc fuel) n =
    let front = digits_from fuel (n / 10) in
    if ltb n 10 then (48 + n) ∷ [] else front ++ ((48 + n % 10) ∷ [])

unfoldable pub decimal : ℕ → List ℕ
decimal n = digits_from n n

abbrev pub is_digit : ℕ → Bool
is_digit c = leb 48 c && leb c 57

-- Reads digits after those that made `n`.
abbrev pub scan : ℕ → List ℕ → ℕ × List ℕ
scan n [] = (n, [])
scan n (c ∷ cs) = let rest = scan (n * 10 + (c - 48)) cs in if is_digit c then rest else (n, c ∷ cs)

scan-digit : (n d : ℕ) (s : List ℕ) → d < 10 → scan n ((48 + d) ∷ s) ≡ scan (n * 10 + d) s
scan-digit n d s h =
    let e : n * 10 + (48 + d - 48) ≡ n * 10 + d = omega arith in
    let t : is_digit (48 + d) ≡ true = ground arith in rw t (ap (λ (k : ℕ). scan k s) e)

scan-digits_from :
    (fuel n : ℕ) (s : List ℕ) → n ≤ fuel → scan 0 (digits_from fuel n ++ s) ≡ scan n s
scan-digits_from zero n s h =
    scan-digit 0 (n % 10) s (omega arith) ∙ ap (λ (k : ℕ). scan k s) (omega arith)
scan-digits_from (suc fuel) n s h = elim (Bool-cases (ltb n 10)) [
  | inl small ↦ rw small (scan-digit 0 n s (ground arith) ∙ ap (λ (k : ℕ). scan k s) (omega arith))
  | inr large ↦
      let big : 10 ≤ n = ground arith in
      rw large (
        ap (scan 0) (append_assoc (digits_from fuel (n / 10)) ((48 + n % 10) ∷ []) s)
        ∙ scan-digits_from fuel (n / 10) ((48 + n % 10) ∷ s) (omega arith)
        ∙ scan-digit (n / 10) (n % 10) s (omega arith)
        ∙ ap (λ (k : ℕ). scan k s) (omega arith))
]

pub scan-decimal : (n : ℕ) (s : List ℕ) → scan 0 (decimal n ++ s) ≡ scan n s
unfolding decimal
scan-decimal n s = scan-digits_from n n s (omega arith)

digits_head :
    (fuel n : ℕ)
    → n ≤ fuel
    → (c : ℕ) × (cs : List ℕ) × (digits_from fuel n ≡ c ∷ cs) × (is_digit c ≡ true)
digits_head zero n h = (48 + n % 10, [], refl, ground arith)
digits_head (suc fuel) n h = elim (Bool-cases (ltb n 10)) [
  | inl small ↦ (48 + n, [], rw small refl, ground arith)
  | inr large ↦
      let (c, cs, e, d) = digits_head fuel (n / 10) (ground arith) in
      (c, cs ++ ((48 + n % 10) ∷ []), rw large (ap (λ r. r ++ ((48 + n % 10) ∷ [])) e), d)
]

-- What is printed starts with a digit.
pub decimal_head : (n : ℕ) → (c : ℕ) × (cs : List ℕ) × (decimal n ≡ c ∷ cs) × (is_digit c ≡ true)
unfolding decimal
decimal_head n = digits_head n n (omega arith)

-- A number printed before a separator that is no digit is read back, with what follows.
pub scan-separated :
    (n c : ℕ) (s : List ℕ) → is_digit c ≡ false → scan 0 (decimal n ++ (c ∷ s)) ≡ (n, c ∷ s)
scan-separated n c s h = scan-decimal n (c ∷ s) ∙ rw h refl

-- `==` on strings.
abbrev pub same_text : List ℕ → List ℕ → Bool
same_text [] [] = true
same_text [] (d ∷ t) = false
same_text (c ∷ s) [] = false
same_text (c ∷ s) (d ∷ t) = (c == d) && same_text s t

pub same_text_refl : (s : List ℕ) → same_text s s ≡ true
same_text_refl [] = refl
same_text_refl (c ∷ s) = ground (arith, same_text_refl s)

pub same_text-eq : (s t : List ℕ) → same_text s t ≡ true → s ≡ t
same_text-eq [] [] h = refl
same_text-eq [] (d ∷ t) h = absurd (false≢true h)
same_text-eq (c ∷ s) [] h = absurd (false≢true h)
same_text-eq (c ∷ s) (d ∷ t) h =
    let (e, k) = (and-eq-true_iff (c == d) (same_text s t)).0 h in
    let first : c ≡ d = ground arith in
    ap₂ (λ (x : ℕ) (y : List ℕ). x ∷ y) first (same_text-eq s t k)
