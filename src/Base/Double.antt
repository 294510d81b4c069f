-- ===== src/Base/Double.antt =====
-- `double`, which the language has and this development does not compute: a type with the operations that
-- the program uses. `lit n d` is the literal n / d. No law is assumed here; a theorem that needs one
-- names it.
use Prim.Native.Nat.{ℕ, ◌+◌, ◌-◌, ◌*◌, ◌/◌}
use mathlib.Core.Bool.{Bool}
use aether_plane.Base.Tests.{ltb, leb}

pub record Double : Type 1 where
  pub F : Type 0
  pub of_nat : ℕ → F
  pub lit : ℕ → ℕ → F
  pub add : F → F → F
  pub sub : F → F → F
  pub mul : F → F → F
  pub div : F → F → F
  pub sqrt : F → F
  pub less : F → F → Bool
  pub less_eq : F → F → Bool
  -- `static_cast<uint64_t>(x)`
  pub truncate : F → ℕ

-- Whole numbers for doubles, at which the tests evaluate the model.
abbrev pub whole_numbers : Double
whole_numbers = record {
  F = ℕ;
  of_nat = λ n. n;
  lit = λ n d. n / d;
  add = λ a b. a + b;
  sub = λ a b. a - b;
  mul = λ a b. a * b;
  div = λ a b. a / b;
  sqrt = λ a. a;
  less = λ a b. ltb a b;
  less_eq = λ a b. leb a b;
  truncate = λ a. a;
}
