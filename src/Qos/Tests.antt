-- ===== src/Qos/Tests.antt =====
-- The scheduler evaluated on small packets.
use aether_plane.Base.{
  ◌≡◌, ◌<◌, refl, ℕ, Bool, List, [], ◌∷◌, true, false, arith, length, replicate,
}
use aether_plane.Base.Double.{whole_numbers}
use aether_plane.Packet.{Packet, size, default_meta, voice_control, best_effort, TrafficClass}
use aether_plane.Qos.{
  Scheduler, init, enqueue, dequeue, dequeue_from, take_front, round_robin, serve,
  update_congestion_state, refresh_delays,
}
use aether_plane.Qos.Inv.{IsValid}
use aether_plane.Qos.Stock.{held}
use aether_plane.Qos.Work.{work}
use aether_plane.Qos.Drain.{drain, drain-empties}
use aether_plane.Qos.Order.{Dequeues, dequeue-first}
use aether_plane.Qos.Runs.{
  Call, enqueue_call, dequeue_call, set_rate_call, run, OfFrames, run-IsValid, Enqueues,
  enqueue_cases,
}

abbrev packet : TrafficClass → ℕ → Packet
packet c n = record { buffer = replicate n 0; meta = record default_meta { traffic_class = c } }

abbrev calls : List (Call whole_numbers)
calls =
    enqueue_call (packet best_effort 60)
    ∷ enqueue_call (packet voice_control 64)
    ∷ dequeue_call (packet best_effort 0)
    ∷ set_rate_call 10
    ∷ []

calls-OfFrames : OfFrames whole_numbers calls
unfolding size
calls-OfFrames = (omega arith, omega arith)

run-IsValid_example : IsValid whole_numbers (run whole_numbers (init whole_numbers) calls)
run-IsValid_example = run-IsValid whole_numbers calls calls-OfFrames

abbrev two_queued : Scheduler whole_numbers
two_queued =
    (enqueue whole_numbers (enqueue whole_numbers (init whole_numbers) (packet best_effort 60)).1
      (packet voice_control 64)).1

dequeue-first_example :
    Dequeues whole_numbers two_queued
      (dequeue whole_numbers two_queued (packet best_effort 0))
      (packet best_effort 0)
dequeue-first_example = dequeue-first whole_numbers two_queued (packet best_effort 0)

enqueue_cases_example :
    Enqueues whole_numbers two_queued
      (packet best_effort 80)
      (enqueue whole_numbers two_queued (packet best_effort 80))
enqueue_cases_example = enqueue_cases whole_numbers two_queued (packet best_effort 80)

-- The voice packet goes first, though it came second.
priority_test :
    (dequeue whole_numbers two_queued (packet best_effort 0)).1 ≡ packet voice_control 64
unfolding dequeue dequeue_from enqueue init update_congestion_state refresh_delays take_front
    round_robin serve
priority_test = refl

-- A lone best-effort packet of 60 bytes needs three turns of its queue: false, false, then sent.
abbrev lone : Scheduler whole_numbers
lone = (enqueue whole_numbers (init whole_numbers) (packet best_effort 60)).1

abbrev turn : Scheduler whole_numbers → Bool × Packet × Scheduler whole_numbers
turn s = dequeue whole_numbers s (packet best_effort 0)

turns_test :
    ((turn lone).0 ≡ false)
    × ((turn (turn lone).2).0 ≡ false)
    × ((turn (turn (turn lone).2).2).0 ≡ true)
unfolding dequeue dequeue_from enqueue init update_congestion_state refresh_delays take_front
    round_robin serve size
turns_test = (refl, refl, refl)

run_calls-IsValid :
    IsValid whole_numbers
      (run whole_numbers (init whole_numbers) (enqueue_call (packet best_effort 60) ∷ []))
unfolding size
run_calls-IsValid =
    run-IsValid whole_numbers (enqueue_call (packet best_effort 60) ∷ []) (omega arith)

drain-empties_example :
    let s = run whole_numbers (init whole_numbers) (enqueue_call (packet best_effort 60) ∷ []) in
    let out = packet best_effort 0 in
    let n = work whole_numbers s in
    ((j : ℕ) → j < 5 → (drain whole_numbers n out s []).1.queues j ≡ [])
    × (length (drain whole_numbers n out s []).0 ≡ held whole_numbers s)
drain-empties_example =
    let s = run whole_numbers (init whole_numbers) (enqueue_call (packet best_effort 60) ∷ []) in
    drain-empties whole_numbers (work whole_numbers s) (packet best_effort 0) s run_calls-IsValid
      (omega arith)
