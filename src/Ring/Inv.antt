-- ===== src/Ring/Inv.antt =====
-- The representation invariant of a ring of `2 ^ k` slots. The free-running indices may have wrapped,
-- so the number of items is their difference modulo 2 ^ 64.
use native.Mathlib.Nat.{mod-lt}
use aether_plane.Base.{
  ℕ, ◌^◌, ◌≤◌, ◌<◌, ◌≡◌, ◌⊎◌, ◌↔◌, false, arith, length, length-set, length-replicate, sub64,
}
use aether_plane.Ring.{Ring, slot, init, push, pop, size}
use aether_plane.Ring.Capacity.{slot-mod, pow-le}

module _ {ℓ} {A : Type ℓ} where
  abbrev pub count : Ring A → ℕ
  count r = sub64 r.tail r.head

  pub record IsValid (k : ℕ) (r : Ring A) : Type 0 where
    pub head_word : r.head < 2 ^ 64
    pub tail_word : r.tail < 2 ^ 64
    pub within : count r ≤ 2 ^ k
    pub slots : length r.buffer ≡ 2 ^ k

-- A slot is always inside the array.
pub slot-lt : (k index : ℕ) → k ≤ 63 → slot (2 ^ k) index < 2 ^ k
slot-lt k index small = omega (arith, slot-mod k index small, mod-lt index (pow-le k small).0)

module _ {ℓ} {A : Type ℓ} (k : ℕ) (small : k ≤ 63) where
  pub init-IsValid : (blank : A) → IsValid k (init (2 ^ k) blank)
  unfolding init
  init-IsValid blank = ground (arith, length-replicate (2 ^ k) blank)

  pub push-IsValid : {r : Ring A} (item : A) → IsValid k r → IsValid k (push (2 ^ k) r item).1
  unfolding push
  push-IsValid {r} item v =
      ground (arith, length-set r.buffer (slot (2 ^ k) r.tail) item, pow-le k small)

  pub pop-IsValid : {r : Ring A} (item : A) → IsValid k r → IsValid k (pop (2 ^ k) r item).2
  unfolding pop
  pop-IsValid {r} item v = ground (arith, pow-le k small)

  -- `push` fails exactly on a full ring, and `pop` exactly on an empty one.
  pub push-false_iff :
      {r : Ring A} (item : A) → IsValid k r → ((push (2 ^ k) r item).0 ≡ false) ↔ (count r ≡ 2 ^ k)
  unfolding push
  push-false_iff item v = ground arith

  pub pop-false_iff :
      {r : Ring A} (item : A) → IsValid k r → ((pop (2 ^ k) r item).0 ≡ false) ↔ (count r ≡ 0)
  unfolding pop
  pop-false_iff item v = ground arith

  -- On a valid ring `size` is the number of items while the head is at most the tail; when the tail has
  -- wrapped before the head it reads 0 although the ring holds items.
  pub size-count :
      {r : Ring A}
      → IsValid k r
      → ((r.head ≤ r.tail) × (size r ≡ count r))
        ⊎ ((r.tail < r.head) × (size r ≡ 0) × (0 < count r))
  unfolding size
  size-count v = ground arith
