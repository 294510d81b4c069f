-- ===== src/Base/Windows.antt =====
-- The last `n` elements of a list, and a window that is kept by `push_back` and `pop_front`.
use Prim.Native.Nat.{ℕ, zero, suc, ◌+◌, ◌-◌, ◌≤◌}
use mathlib.Core.Path.{◌≡◌, refl, sym, ap, ◌∙◌}
use mathlib.Core.Logic.{inl, inr}
use mathlib.Core.List.{List, [], ◌∷◌, ◌++◌}
use native.Mathlib.Omega.{arith}
use aether_plane.Base.Tests.{ltb, if◌then◌else◌, Bool-cases}
use aether_plane.Base.Lists.{length, drop, length-append, length-drop}

module _ {ℓ} {A : Type ℓ} where
  -- The last `n` elements.
  abbrev pub recent : ℕ → List A → List A
  recent n xs = drop (length xs - n) xs

  -- `xs.push_back(x); if (xs.size() > n) xs.pop_front();`
  unfoldable pub push_window : ℕ → List A → A → List A
  push_window n xs x = let ys = xs ++ (x ∷ []) in if ltb n (length ys) then drop 1 ys else ys

module _ {ℓ} {A : Type ℓ} where
  drop-append : (n : ℕ) (xs ys : List A) → n ≤ length xs → drop n (xs ++ ys) ≡ drop n xs ++ ys
  drop-append zero xs ys h = refl
  drop-append (suc n) [] ys h = absurd (omega arith)
  drop-append (suc n) (x ∷ xs) ys h = drop-append n xs ys (omega arith)

  drop-drop : (n : ℕ) (xs : List A) → drop 1 (drop n xs) ≡ drop (suc n) xs
  drop-drop zero [] = refl
  drop-drop zero (x ∷ xs) = refl
  drop-drop (suc n) [] = refl
  drop-drop (suc n) (x ∷ xs) = drop-drop n xs

  pub push_window-recent :
      (n : ℕ) (xs : List A) (x : A) → push_window n (recent n xs) x ≡ recent n (xs ++ (x ∷ []))
  unfolding push_window
  push_window-recent n xs x =
      let k = length xs - n in
      let len : length (drop k xs ++ (x ∷ [])) ≡ length xs - k + 1 =
        length-append (drop k xs) (x ∷ []) ∙ omega (arith, length-drop k xs) in
      let moved : drop k xs ++ (x ∷ []) ≡ drop k (xs ++ (x ∷ [])) =
        sym (drop-append k xs (x ∷ []) (omega arith)) in
      elim (Bool-cases (ltb n (length (drop k xs ++ (x ∷ []))))) [
        | inl e ↦
            let more : length (xs ++ (x ∷ [])) - n ≡ suc k =
              ground (arith, length-append xs (x ∷ []), len) in
            rw e (
              ap (drop 1) moved
              ∙ drop-drop k (xs ++ (x ∷ []))
              ∙ ap (λ (i : ℕ). drop i (xs ++ (x ∷ []))) (sym more))
        | inr e ↦
            let same : length (xs ++ (x ∷ [])) - n ≡ k =
              ground (arith, length-append xs (x ∷ []), len) in
            rw e (moved ∙ ap (λ (i : ℕ). drop i (xs ++ (x ∷ []))) (sym same))
      ]
