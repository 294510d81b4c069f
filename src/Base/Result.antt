-- ===== src/Base/Result.antt =====
-- What C++ code that may throw comes to.
pub data Exception : Type 0 where
  invalid_argument out_of_range : Exception

pub data Result {ℓ} (A : Type ℓ) : Type ℓ where
  ok : A → Result A
  throws : Exception → Result A

infixl 5 ◌>>=◌
abbrev pub ◌>>=◌ {ℓ κ} : {A : Type ℓ} {B : Type κ} → Result A → (A → Result B) → Result B
ok a >>= k = k a
throws e >>= k = throws e
