-- ===== src/Base/Arrays.antt =====
-- A fixed-size array that is only indexed in range: a function from the index.
use Prim.Native.Nat.{ℕ}
use mathlib.Core.Path.{◌≡◌}
use mathlib.Core.Logic.{◌≢◌}
use native.Mathlib.Omega.{arith}
use aether_plane.Base.Tests.{◌==◌, if◌then◌else◌}

module _ {ℓ} {A : Type ℓ} where
  -- `a[i] = v`
  abbrev pub update : (ℕ → A) → ℕ → A → ℕ → A
  update a i v j = if j == i then v else a j

  pub update_self : (a : ℕ → A) (i : ℕ) (v : A) → update a i v i ≡ v
  update_self a i v = ground arith

  pub update_ne : (a : ℕ → A) (i j : ℕ) (v : A) → j ≢ i → update a i v j ≡ a j
  update_ne a i j v ne = ground arith
