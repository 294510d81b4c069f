-- ===== src/Ring/Threads.antt =====
-- `push` and `pop` of include/core/ring_buffer.hpp by two threads, one atomic access at a time. Each thread's
-- `acquire` load of the other's counter and the `release` store of its own make its accesses of the array
-- visible in program order, so a run is an interleaving of the two threads' accesses.
use aether_plane.Base.{ℕ, List, [], ◌∷◌, ◌++◌, leb, ◌==◌, if◌then◌else◌, add64, sub64, set, get_or}
use aether_plane.Ring.{Ring, slot, init}

-- Where the producer is in `push(item)`, with `item` and its local `current_tail`.
pub data Producer {ℓ} (A : Type ℓ) : Type ℓ where
  no_push : Producer A
  tail_loaded : A → ℕ → Producer A
  not_full : A → ℕ → Producer A
  item_written : A → ℕ → Producer A

-- Where the consumer is in `pop(item)`, with its local `current_head` and the item that it read.
pub data Consumer {ℓ} (A : Type ℓ) : Type ℓ where
  no_pop : Consumer A
  head_loaded : ℕ → Consumer A
  not_empty : ℕ → Consumer A
  item_read : ℕ → A → Consumer A

-- The memory, the two threads, and what an observer saw: the items of the calls that returned true.
pub record Shared {ℓ} (A : Type ℓ) : Type ℓ where
  pub ring : Ring A
  pub producer : Producer A
  pub consumer : Consumer A
  pub pushed : List A
  pub popped : List A

-- Which thread makes its next access; a producer that is in no call starts `push` of the item.
pub data Move {ℓ} (A : Type ℓ) : Type ℓ where
  produces : A → Move A
  consumes : Move A

module _ {ℓ} {A : Type ℓ} (capacity : ℕ) where
  unfoldable pub produce : A → Shared A → Producer A → Shared A
  produce next s no_push = record s { producer = tail_loaded next s.ring.tail }
  produce next s (tail_loaded item tail) =
      if leb capacity (sub64 tail s.ring.head)
      then record s { producer = no_push }
      else record s { producer = not_full item tail }
  produce next s (not_full item tail) = record s {
    ring = record (s.ring) { buffer = set s.ring.buffer (slot capacity tail) item };
    producer = item_written item tail;
  }
  produce next s (item_written item tail) = record s {
    ring = record (s.ring) { tail = add64 tail 1 };
    producer = no_push;
    pushed = s.pushed ++ (item ∷ []);
  }

  -- `blank` stands for what lies outside the array, which no access reaches.
  unfoldable pub consume : A → Shared A → Consumer A → Shared A
  consume blank s no_pop = record s { consumer = head_loaded s.ring.head }
  consume blank s (head_loaded head) =
      if head == s.ring.tail
      then record s { consumer = no_pop }
      else record s { consumer = not_empty head }
  consume blank s (not_empty head) = record s {
    consumer = item_read head (get_or s.ring.buffer (slot capacity head) blank);
  }
  consume blank s (item_read head item) = record s {
    ring = record (s.ring) { head = add64 head 1 };
    consumer = no_pop;
    popped = s.popped ++ (item ∷ []);
  }

  unfoldable pub move : A → Shared A → Move A → Shared A
  move blank s (produces item) = produce item s s.producer
  move blank s consumes = consume blank s s.consumer

  unfoldable pub interleave : A → Shared A → List (Move A) → Shared A
  interleave blank s [] = s
  interleave blank s (m ∷ ms) = interleave blank (move blank s m) ms

  unfoldable pub start : A → Shared A
  start blank = record {
    ring = init capacity blank;
    producer = no_push;
    consumer = no_pop;
    pushed = [];
    popped = [];
  }
