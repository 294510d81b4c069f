-- ===== src/Worker/Account.antt =====
-- What the workers of include/core/worker_pool.hpp have processed, over any interleaving of the threads' accesses.
use aether_plane.Base.{
  ◌<◌, ◌≤◌, ℕ, ◌≡◌, refl, ◌∙◌, false, List, [], ◌∷◌, arith, inl, inr, Bool-cases, ltb,
}
use aether_plane.Packet.{Packet}
use aether_plane.Rss.{dispatch_core}
use aether_plane.Ring.{Ring}
use aether_plane.Ring.Threads.{Producer, no_push, tail_loaded, not_full, item_written}
use aether_plane.Worker.{WorkerPool}
use aether_plane.Worker.Threads.{
  calls_start, Phase, stopped, started, stopping, System, launch, Step, starts, stops, joins,
  dispatches, works, push_access, dispatch, step, run,
}
use aether_plane.Worker.Moves.{AllHold}
use aether_plane.Worker.Arrivals.{dispatch-AllHold}
use aether_plane.Worker.Staff.{
  Staffed, Accounts, launch-Accounts, starting-Accounts, stop_called-Accounts, joining-Accounts,
}
use aether_plane.Worker.Countdown.{turns}
use aether_plane.Worker.Shutdown.{IsHalting, joins-stopped, stops-IsHalting, length-Staffed}
use aether_plane.Worker.Loop.{works-Accounts}
use aether_plane.Worker.Observed.{
  run-restarted, run-once, stop_called-restarted, stop_called-workers, run-workers,
}

-- The dispatcher changes the rings alone.
rings-Staffed :
    (phase : Phase) (p : WorkerPool) (rings : ℕ → Ring Packet)
    → Staffed phase p
    → Staffed phase (record p { worker_rings = rings })
rings-Staffed stopped p rings h = h
rings-Staffed started p rings h = h
rings-Staffed stopping p rings h = h

push_access-Accounts :
    (s : System) (i : ℕ) (pkt : Packet) (p : Producer Packet)
    → Accounts s
    → AllHold (push_access s i pkt p)
    → Accounts (push_access s i pkt p)
push_access-Accounts s i pkt p a all = record {
  cores = a.cores;
  some_worker = a.some_worker;
  staffed = rings-Staffed s.phase s.pool (push_access s i pkt p).pool.worker_rings a.staffed;
  working = a.working;
  own = a.own;
  all = all;
}

dispatch-Accounts :
    (s : System) (pkt : Packet) (p : Producer Packet)
    → s.producer ≡ p
    → Accounts s
    → Accounts (dispatch s pkt p)
unfolding dispatch
dispatch-Accounts s pkt no_push e a =
    let i = dispatch_core s.pool.rss_dispatcher pkt in
    let all : AllHold (dispatch s pkt no_push) = dispatch-AllHold s pkt no_push e a.all in
    elim (Bool-cases (ltb i s.pool.num_workers)) [
      | inl b ↦ rw b (push_access-Accounts s i pkt no_push a (rw b at all))
      | inr b ↦ rw b a
    ]
dispatch-Accounts s pkt (tail_loaded item tail) e a =
    push_access-Accounts s s.target_core pkt (tail_loaded item tail) a
      (dispatch-AllHold s pkt (tail_loaded item tail) e a.all)
dispatch-Accounts s pkt (not_full item tail) e a =
    push_access-Accounts s s.target_core pkt (not_full item tail) a
      (dispatch-AllHold s pkt (not_full item tail) e a.all)
dispatch-Accounts s pkt (item_written item tail) e a =
    push_access-Accounts s s.target_core pkt (item_written item tail) a
      (dispatch-AllHold s pkt (item_written item tail) e a.all)

step-Accounts :
    (s : System) (c : Step) → (step s c).restarted ≡ false → Accounts s → Accounts (step s c)
unfolding step
step-Accounts s starts once a = starting-Accounts s s.phase refl once a
step-Accounts s stops once a = stop_called-Accounts s s.phase refl a
step-Accounts s joins once a = joining-Accounts s s.phase refl a
step-Accounts s (dispatches pkt) once a = dispatch-Accounts s pkt s.producer refl a
step-Accounts s (works k) once a = works-Accounts s k a

run-keeps :
    (cs : List Step) (s : System) → (run s cs).restarted ≡ false → Accounts s → Accounts (run s cs)
unfolding run
run-keeps [] s once a = a
run-keeps (c ∷ cs) s once a =
    run-keeps cs (step s c) once (step-Accounts s c (run-restarted cs (step s c) once) a)

stop-returns :
    (s : System) (more : List Step)
    → s.restarted ≡ false
    → calls_start more ≡ false
    → ((k : ℕ) → k < s.pool.num_workers → 7 ≤ turns k more)
    → Accounts s
    → (step (run (step s stops) more) joins).phase ≡ stopped
stop-returns s more once none enough a =
    let t = step s stops in
    let kept : t.restarted ≡ false = unfold step in (stop_called-restarted s s.phase ∙ once) in
    let halting : IsHalting t = unfold step in stops-IsHalting s s.phase refl a.staffed in
    let workers : t.pool.num_workers ≡ s.pool.num_workers =
      unfold step in stop_called-workers s s.phase in
    let late = run-keeps more t (run-once more t none kept) (step-Accounts s stops kept a) in
    joins-stopped t more halting none (λ k lt. enough k (omega (arith, lt, workers)))
      (length-Staffed (run t more).phase (run t more).pool late.staffed)

-- In any interleaving of the accesses of the workers, of one dispatching thread and of one thread that calls `start` and
-- `stop`, on a new pool of any number of workers, zero included, as long as `start` is not called on a started pool:
-- every core has popped from its ring, in order and once each, what was pushed for it except the items that the ring
-- still holds, at most 1024; its counters are the number and the total size of the packets popped, less a
-- packet that its thread has popped and not yet counted, modulo 2 ^ 64; the k-th thread serves core k; the
-- pool has a thread for each core and its flag is set between `start` and `stop`, no thread is past its loop then, and
-- no thread is left once `stop` has returned; there is at least one worker, and one core of the dispatcher for each.
-- And when `stop` is called then, and any further steps without `start` follow in which the thread of every core
-- makes at least seven accesses, the joins return.
pub run-Accounts :
    (n : ℕ) (cs more : List Step)
    → (run (launch n) cs).restarted ≡ false
    → calls_start more ≡ false
    → ((k : ℕ) → k < (launch n).pool.num_workers → 7 ≤ turns k more)
    → Accounts (run (launch n) cs)
      × ((step (run (step (run (launch n) cs) stops) more) joins).phase ≡ stopped)
run-Accounts n cs more once none enough =
    let s = run (launch n) cs in
    let a = run-keeps cs (launch n) once (launch-Accounts n) in
    (
      a,
      stop-returns s more once none
          (λ k lt. enough k (omega (arith, lt, run-workers cs (launch n)))) a,
    )
