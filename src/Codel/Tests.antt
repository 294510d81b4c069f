-- ===== src/Codel/Tests.antt =====
-- Two packets of one flow, and a queue above its target for a whole interval.
use aether_plane.Base.{ℕ, Bool, ◌≡◌, refl, ◌<◌, ◌^◌, suc, List, [], ◌∷◌, true, some, arith, length}
use mathlib.Core.Option
use aether_plane.Base.Double.{whole_numbers}
use aether_plane.Packet.{Packet, default_meta, size}
use aether_plane.Codel.{
  FqCodel, init, enqueue, codel_decision, codel_should_drop, hash_flow, add_byte, add_two_bytes,
  add_four_bytes,
}
use aether_plane.Codel.Sound.{IsSound, rounds_left}
use aether_plane.Codel.Dequeue.{
  Answer, process_flow_list, round, round_at, serve_candidate, after_check, leave_dropping, dequeue,
}
use aether_plane.Codel.Ends.{Dequeued, dequeue-returns}
use aether_plane.Codel.Arrive.{init-IsSound, enqueue-IsSound}
use aether_plane.Codel.Order.{Ordered, run-Ordered}
use aether_plane.Codel.Runs.{Call, arrives, departs, Run, run, Conserves, run-Conserves}
use aether_plane.Codel.Interval.{Sample, after}
use aether_plane.Codel.Enqueue
use aether_plane.Codel.Enqueue.{after-Holds}

abbrev at_time : ℕ → Packet
at_time t = record { buffer = []; meta = record default_meta { timestamp_ns = t } }

abbrev sample : ℕ → ℕ → Sample
sample arrived now = record { packet = at_time arrived; bytes = 3000; now_ns = now }

after-Holds_example :
    Enqueue.Holds whole_numbers
      (Enqueue.after whole_numbers (at_time 1 ∷ at_time 2 ∷ []))
      (at_time 1 ∷ at_time 2 ∷ [])
      7
after-Holds_example = after-Holds whole_numbers (at_time 1 ∷ at_time 2 ∷ []) 7

small_packet : (t : ℕ) → size (at_time t) < 2 ^ 30
unfolding size
small_packet t = omega arith

-- Two packets of one flow, and a call too many.
abbrev calls : List Call
calls = departs 30 ∷ departs 20 ∷ arrives (at_time 2) ∷ departs 10 ∷ arrives (at_time 1) ∷ []

run-Conserves_example :
    (r : Run whole_numbers) × (run whole_numbers (at_time 0) calls ≡ some r)
    × Conserves whole_numbers calls r
run-Conserves_example =
    run-Conserves whole_numbers (at_time 0) calls (small_packet 2, (small_packet 1, tt))

abbrev one_queued : FqCodel whole_numbers
one_queued = (enqueue whole_numbers (init whole_numbers) (at_time 1)).1

one_queued-IsSound : IsSound whole_numbers one_queued
one_queued-IsSound =
    enqueue-IsSound whole_numbers (init whole_numbers) (at_time 1) (init-IsSound whole_numbers)
      (small_packet 1)

-- A few rounds are enough for one packet.
one_dequeued :
    Option.map {B = Bool × Packet}
      (λ (a : Answer whole_numbers). (a.0, a.1))
      (dequeue whole_numbers 3 one_queued (at_time 0) 20)
    ≡ some (true, at_time 1)
unfolding dequeue process_flow_list round round_at serve_candidate after_check leave_dropping
    codel_should_drop codel_decision size enqueue init hash_flow add_byte add_two_bytes
    add_four_bytes
one_dequeued = refl

-- A flow that was served and is filled again stands in the list of new flows twice.
listed_twice :
    Option.map {B = ℕ}
      (λ (a : Answer whole_numbers). length (enqueue whole_numbers a.2 (at_time 2)).1.new_flows)
      (dequeue whole_numbers 3 one_queued (at_time 0) 20)
    ≡ some 2
unfolding dequeue process_flow_list round round_at serve_candidate after_check leave_dropping
    codel_should_drop codel_decision size enqueue init hash_flow add_byte add_two_bytes
    add_four_bytes
listed_twice = refl

dequeue-returns_example :
    (a : Answer whole_numbers) × (dequeue whole_numbers
        (suc (rounds_left whole_numbers one_queued))
        one_queued
        (at_time 0)
        20
      ≡ some a)
    × Dequeued whole_numbers one_queued (at_time 0) a
dequeue-returns_example =
    dequeue-returns whole_numbers (suc (rounds_left whole_numbers one_queued)) one_queued
      (at_time 0) 20 one_queued-IsSound (omega arith)

run-Ordered_example :
    (r : Run whole_numbers) × (run whole_numbers (at_time 0) calls ≡ some r)
    × ((i : ℕ) → Ordered whole_numbers calls r i)
run-Ordered_example =
    run-Ordered whole_numbers (at_time 0) calls (small_packet 2, (small_packet 1, tt))
