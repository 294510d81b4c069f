-- ===== src/Ring/Queue.antt =====
-- What a ring promises: a queue of at most `capacity` items, oldest first, and the replies that a
-- sequence of calls gets from it.
use aether_plane.Base.{ℕ, Bool, true, false, List, [], ◌∷◌, ◌++◌, leb, if◌then◌else◌, length}

-- A call of `push` or `pop`; `pop` overwrites the caller's old item.
pub data Call {ℓ} (A : Type ℓ) : Type ℓ where
  put : A → Call A
  take : A → Call A

pub data Reply {ℓ} (A : Type ℓ) : Type ℓ where
  pushed : Bool → Reply A
  popped : Bool → A → Reply A

module _ {ℓ} {A : Type ℓ} (capacity : ℕ) where
  unfoldable pub push : List A → A → Bool × List A
  push q item = if leb capacity (length q) then (false, q) else (true, q ++ (item ∷ []))

  unfoldable pub pop : List A → A → Bool × A × List A
  pop [] item = (false, item, [])
  pop (x ∷ q) item = (true, x, q)

  unfoldable pub run : List A → List (Call A) → List (Reply A)
  run q [] = []
  run q (put x ∷ calls) = let (done, q') = push q x in pushed done ∷ run q' calls
  run q (take old ∷ calls) = let (done, x, q') = pop q old in popped done x ∷ run q' calls
