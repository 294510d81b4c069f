-- ===== src/Ring/Tests.antt =====
-- Runs of a ring of four slots, and the theorems at inputs.
use aether_plane.Base.{ℕ, ◌-◌, ◌^◌, ◌≡◌, refl, ◌⊎◌, ◌≤◌, ◌<◌, true, false, List, [], ◌∷◌, arith}
use aether_plane.Ring.Threads.{
  Move, produces, consumes, not_full, produce, consume, move, interleave, start,
}
use aether_plane.Ring.Coherent.{IsCoherent}
use aether_plane.Ring.Interleave.{interleave-start-IsCoherent}
use aether_plane.Ring.{init, Ring, capacity_ok, slot, push, pop, size, is_empty, run}
use aether_plane.Ring.Capacity.{capacity_ok-pow}
use aether_plane.Ring.Queue
use aether_plane.Ring.Queue.{Call, put, take, pushed, popped}
use aether_plane.Ring.Inv.{IsValid, count, size-count}
use aether_plane.Ring.Refine.{run_refines}

-- Two items, 8 then 9; the tail has wrapped at 2 ^ 64, the head has not.
abbrev wrapped : Ring ℕ
wrapped = record { head = 2 ^ 64 - 1; tail = 1; buffer = 9 ∷ 0 ∷ 0 ∷ 8 ∷ [] }

abbrev script : List (Call ℕ)
script = put 1 ∷ put 2 ∷ put 3 ∷ take 0 ∷ take 0 ∷ take 0 ∷ take 0 ∷ take 7 ∷ []

wrapped-IsValid : IsValid 2 wrapped
wrapped-IsValid = omega arith

capacities : (capacity_ok 1024 ≡ true) × (capacity_ok 1000 ≡ false) × (capacity_ok 0 ≡ true)
unfolding capacity_ok
capacities = (refl, refl, refl)

run-wrapped :
    run 4 wrapped script
    ≡ pushed true
      ∷ pushed true
      ∷ pushed false
      ∷ popped true 8
      ∷ popped true 9
      ∷ popped true 1
      ∷ popped true 2
      ∷ popped false 7
      ∷ []
unfolding run push pop slot
run-wrapped = refl

-- The size of the two items reads 0.
size-wrapped : (size wrapped ≡ 0) × (is_empty wrapped ≡ true)
unfolding size is_empty
size-wrapped = (refl, refl)

capacity_ok-pow_example : (k : ℕ) × (1024 ≡ 2 ^ k)
unfolding capacity_ok
capacity_ok-pow_example = capacity_ok-pow 1024 (omega arith) (omega arith) refl

run_refines_example : run 4 wrapped script ≡ Queue.run 4 (8 ∷ 9 ∷ []) script
run_refines_example = run_refines 0 2 (omega arith) script wrapped-IsValid

size-count_example :
    ((2 ^ 64 - 1 ≤ 1) × (size wrapped ≡ count wrapped))
    ⊎ ((1 < 2 ^ 64 - 1) × (size wrapped ≡ 0) × (0 < count wrapped))
size-count_example = size-count 2 (omega arith) wrapped-IsValid

-- The producer pushes 5, and the consumer pops it while the producer starts the next push.
abbrev moves : List (Move ℕ)
moves =
    produces 5
    ∷ produces 5
    ∷ produces 5
    ∷ consumes
    ∷ produces 5
    ∷ consumes
    ∷ produces 6
    ∷ consumes
    ∷ produces 6
    ∷ consumes
    ∷ []

moves_test :
    let s = interleave 4 0 (start 4 0) moves in
    (s.pushed ≡ 5 ∷ []) × (s.popped ≡ 5 ∷ []) × (s.producer ≡ not_full 6 1)
unfolding interleave start move produce consume init slot
moves_test = (refl, refl, refl)

interleave-start-IsCoherent_example :
    IsCoherent 0 2 (omega arith) (interleave 4 0 (start 4 0) moves)
interleave-start-IsCoherent_example = interleave-start-IsCoherent 0 2 (omega arith) moves
