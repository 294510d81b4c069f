-- ===== src/Base/Table.antt =====
-- `std::unordered_map` with string keys as a list of pairs: finding a key and writing its value.
use mathlib.Core.Path.{◌≡◌, refl, ap, subst, ◌∙◌}
use mathlib.Core.Logic.{inl, inr}
use mathlib.Core.Bool.{false}
use mathlib.Core.Option.{Option, none, some}
use mathlib.Core.List.{List, [], ◌∷◌}
use Prim.Native.Nat.{ℕ}
use native.Mathlib.Omega.{arith}
use aether_plane.Base.Tests.{if◌then◌else◌, Bool-cases}
use aether_plane.Base.Text.{same_text, same_text-eq}

module _ {ℓ} {A : Type ℓ} where
  abbrev pub find_key : List ℕ → List (List ℕ × A) → Option A
  find_key key [] = none
  find_key key ((k, v) ∷ t) = let rest = find_key key t in if same_text k key then some v else rest

  -- `table[key] = value`
  unfoldable pub put_key : List ℕ → A → List (List ℕ × A) → List (List ℕ × A)
  put_key key v [] = (key, v) ∷ []
  put_key key v ((k, w) ∷ t) =
      let rest = put_key key v t in if same_text k key then (k, v) ∷ t else (k, w) ∷ rest

module _ {ℓ} {A : Type ℓ} where
  pub find_key-put_key :
      (key k : List ℕ) (v : A) (t : List (List ℕ × A))
      → find_key k (put_key key v t) ≡ (if same_text key k then some v else find_key k t)
  unfolding put_key
  find_key-put_key key k v [] = refl
  find_key-put_key key k v ((k', w) ∷ t) = elim (Bool-cases (same_text k' key)) [
    | inl e ↦ rw e (
        subst
          (λ y.
            (if same_text k' k then some v else find_key k t)
            ≡ (if same_text y k then some v else if same_text k' k then some w else find_key k t))
          (same_text-eq k' key e) (ground arith))
    | inr ne ↦ rw ne (elim (Bool-cases (same_text key k)) [
      | inl e ↦
          let apart : same_text k' k ≡ false =
            subst (λ y. same_text k' y ≡ false) (same_text-eq key k e) ne in
          rw apart (find_key-put_key key k v t)
      | inr e ↦
          rw e (
            ap (λ r. if same_text k' k then some w else r) (find_key-put_key key k v t ∙ rw e refl))
    ])
  ]
