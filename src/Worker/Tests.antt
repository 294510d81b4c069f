-- ===== src/Worker/Tests.antt =====
-- Two workers and a few packets, and what a second `start` does.
use aether_plane.Base.{zero, suc, ◌<◌, ◌≤◌, arith, false, ℕ, ◌≡◌, refl, List, [], ◌∷◌, ◌++◌}
use aether_plane.Netdev.{no_packet}
use aether_plane.Ring.{slot}
use aether_plane.Worker.{WorkerPool, init, no_metrics, start, threads_from, thread, worker_loop}
use aether_plane.Worker.Threads.{
  Step, starts, stops, joins, dispatches, works, launch, run, step, starting, stopped,
}
use aether_plane.Worker.Staff.{Accounts}
use aether_plane.Worker.Account.{run-Accounts}
use aether_plane.Worker.Observed.{run-once}
use aether_plane.Worker.Countdown.{turns}

-- The accesses of one `push`.
abbrev push_calls : List Step
push_calls =
    dispatches no_packet ∷ dispatches no_packet ∷ dispatches no_packet ∷ dispatches no_packet ∷ []

-- The packet is pushed while worker 0 polls its ring, and `stop` is called inside a round of its loop.
abbrev after_start : List Step
after_start =
    works 1
    ∷ works 0
    ∷ works 0
    ∷ (push_calls
        ++ (works 0
            ∷ works 0
            ∷ works 0
            ∷ stops
            ∷ joins
            ∷ works 0
            ∷ works 0
            ∷ works 0
            ∷ works 0
            ∷ works 1
            ∷ works 1
            ∷ works 1
            ∷ works 1
            ∷ joins
            ∷ []))

two_threads-once : (run (launch 2) (starts ∷ after_start)).restarted ≡ false
unfolding run step starting
two_threads-once = run-once after_start (step (launch 2) starts) refl refl

-- Seven accesses of each of the two threads.
abbrev seven_each : List Step
seven_each =
    works 0
    ∷ works 1
    ∷ works 0
    ∷ works 1
    ∷ works 0
    ∷ works 1
    ∷ works 0
    ∷ works 1
    ∷ works 0
    ∷ works 1
    ∷ works 0
    ∷ works 1
    ∷ works 0
    ∷ works 1
    ∷ []

seven : (k : ℕ) → k < 2 → 7 ≤ turns k seven_each
seven zero lt = omega arith
seven (suc zero) lt = omega arith
seven (suc (suc k)) lt = absurd (omega arith)

two_threads-turns : (k : ℕ) → k < (launch 2).pool.num_workers → 7 ≤ turns k seven_each
unfolding init
two_threads-turns k lt = seven k lt

run-Accounts_example :
    Accounts (run (launch 2) (starts ∷ after_start))
    × ((step (run (step (run (launch 2) (starts ∷ after_start)) stops) seven_each) joins).phase
        ≡ stopped)
run-Accounts_example =
    run-Accounts 2 (starts ∷ after_start) seven_each two_threads-once refl two_threads-turns

-- One core, whose ring holds one packet.
abbrev loaded : WorkerPool
loaded = record (init 1) {
  num_workers = 1;
  worker_rings = λ i. record { head = 0; tail = 1; buffer = no_packet ∷ [] };
  metrics = λ i. no_metrics;
  worker_threads = [];
}

abbrev works_in : WorkerPool → List ℕ → WorkerPool
works_in p [] = p
works_in p (k ∷ ks) = let w = thread p k in works_in (worker_loop p k w w.point) ks

-- The one thread of the core processes the packet, goes on to poll, and counts it once.
start_once :
    ((works_in (start loaded) (0 ∷ 0 ∷ 0 ∷ 0 ∷ 0 ∷ 0 ∷ 0 ∷ 0 ∷ 0 ∷ 0 ∷ 0 ∷ [])).metrics
      0).processed_packets
    ≡ 1
unfolding start threads_from worker_loop slot init
start_once = refl

-- With two threads on the ring, after two calls of `start`, the one packet is processed twice.
start_twice :
    ((works_in (start (start loaded)) (0 ∷ 1 ∷ 0 ∷ 1 ∷ 0 ∷ 1 ∷ 0 ∷ 1 ∷ 0 ∷ 1 ∷ 0 ∷ 1 ∷ [])).metrics
      0).processed_packets
    ≡ 2
unfolding start threads_from worker_loop slot init
start_twice = refl
