-- ===== src/Ring.antt =====
-- include/core/ring_buffer.hpp: `SPSCRingBuffer<T, Capacity>`, called by one thread at a time. The
-- indices run freely and wrap at 2 ^ 64; `& (Capacity - 1)` turns one into a slot.
pub mod Capacity
pub mod Window
pub mod Queue
pub mod Inv
pub mod Refine
pub mod Threads
pub mod Coherent
pub mod Interleave
mod Tests
use aether_plane.Base.{
  ℕ, ◌-◌, Bool, true, false, List, [], ◌∷◌, bit_and, leb, ◌==◌, if◌then◌else◌, add64, sub64, set,
  get_or, replicate,
}
use Queue.{Call, put, take, Reply, pushed, popped}

-- `head_`, `tail_` and `buffer_`
pub record Ring {ℓ} (A : Type ℓ) : Type ℓ where
  pub head : ℕ
  pub tail : ℕ
  pub buffer : List A

-- The condition of the class's `static_assert`.
unfoldable pub capacity_ok : ℕ → Bool
capacity_ok capacity = bit_and capacity (sub64 capacity 1) == 0

-- `index & (Capacity - 1)`
unfoldable pub slot : ℕ → ℕ → ℕ
slot capacity index = bit_and index (sub64 capacity 1)

module _ {ℓ} {A : Type ℓ} (capacity : ℕ) where
  -- The array holds default values at first.
  unfoldable pub init : A → Ring A
  init blank = record { head = 0; tail = 0; buffer = replicate capacity blank }

  unfoldable pub push : Ring A → A → Bool × Ring A
  push r item = if leb capacity (sub64 r.tail r.head) then (false, r) else (
    true,
    record r { buffer = set r.buffer (slot capacity r.tail) item; tail = add64 r.tail 1 },
  )

  -- `item` is the reference parameter: its old value goes in, its new value comes out.
  unfoldable pub pop : Ring A → A → Bool × A × Ring A
  pop r item =
      if r.head == r.tail
      then (false, item, r)
      else (true, get_or r.buffer (slot capacity r.head) item, record r { head = add64 r.head 1 })

module _ {ℓ} {A : Type ℓ} (capacity : ℕ) where
  -- A caller's calls in order, with what each returns.
  unfoldable pub run : Ring A → List (Call A) → List (Reply A)
  run r [] = []
  run r (put item ∷ calls) = let (done, r') = push capacity r item in pushed done ∷ run r' calls
  run r (take old ∷ calls) = let (done, x, r') = pop capacity r old in popped done x ∷ run r' calls

module _ {ℓ} {A : Type ℓ} where
  unfoldable pub size : Ring A → ℕ
  size r = if leb r.head r.tail then sub64 r.tail r.head else 0

  unfoldable pub is_empty : Ring A → Bool
  unfolding size
  is_empty r = size r == 0
