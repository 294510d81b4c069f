-- ===== src/Base/Parts.antt =====
-- Lists of which some items are left out.
use mathlib.Core.List.{List, [], ◌∷◌, ◌++◌}

-- `xs` is `ys` without the items that were left out.
pub data IsPart {ℓ} {A : Type ℓ} : List A → List A → Type ℓ where
  no_more : IsPart [] []
  kept : {x : A} {xs ys : List A} → IsPart xs ys → IsPart (x ∷ xs) (x ∷ ys)
  left_out : {y : A} {xs ys : List A} → IsPart xs ys → IsPart xs (y ∷ ys)

module _ {ℓ} {A : Type ℓ} where
  pub IsPart-refl : (xs : List A) → IsPart xs xs
  IsPart-refl [] = no_more
  IsPart-refl (x ∷ xs) = kept (IsPart-refl xs)

  pub IsPart-trans : {zs ys xs : List A} → IsPart xs ys → IsPart ys zs → IsPart xs zs
  IsPart-trans a no_more = a
  IsPart-trans (kept a) (kept b) = kept (IsPart-trans a b)
  IsPart-trans (left_out a) (kept b) = left_out (IsPart-trans a b)
  IsPart-trans a (left_out b) = left_out (IsPart-trans a b)

  pub IsPart-append :
      {xs ys zs ws : List A} → IsPart xs ys → IsPart zs ws → IsPart (xs ++ zs) (ys ++ ws)
  IsPart-append no_more b = b
  IsPart-append (kept a) b = kept (IsPart-append a b)
  IsPart-append (left_out a) b = left_out (IsPart-append a b)

  pub gone-IsPart : (gone xs : List A) → IsPart xs (gone ++ xs)
  gone-IsPart [] xs = IsPart-refl xs
  gone-IsPart (y ∷ gone) xs = left_out (gone-IsPart gone xs)
