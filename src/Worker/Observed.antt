-- ===== src/Worker/Observed.antt =====
-- What no step of the threads of include/core/worker_pool.hpp changes or forgets.
use aether_plane.Base.{◌≡◌, refl, sym, ◌∙◌, false, List, [], ◌∷◌, arith, inl, inr, Bool-cases, ltb}
use aether_plane.Packet.{Packet}
use aether_plane.Rss.{dispatch_core}
use aether_plane.Ring.Threads.{Producer, no_push, tail_loaded, not_full, item_written}
use aether_plane.Worker.{thread, stop, start, join, all_ended}
use aether_plane.Worker.Threads.{
  calls_start, Phase, stopped, started, stopping, System, Step, starts, stops, joins, dispatches,
  works, dispatch, starting, stop_called, joining, step, run,
}
use aether_plane.Worker.Loop.{worker_loop-Keeps}

-- What an observer has seen of a second `start` is not forgotten.
starting-restarted :
    (s : System) (phase : Phase) → (starting s phase).restarted ≡ false → s.restarted ≡ false
unfolding starting
starting-restarted s stopped e = e
starting-restarted s started e = absurd cc
starting-restarted s stopping e = e

pub stop_called-restarted :
    (s : System) (phase : Phase) → (stop_called s phase).restarted ≡ s.restarted
unfolding stop_called
stop_called-restarted s stopped = refl
stop_called-restarted s started = refl
stop_called-restarted s stopping = refl

pub stop_called-workers :
    (s : System) (phase : Phase) → (stop_called s phase).pool.num_workers ≡ s.pool.num_workers
unfolding stop_called stop
stop_called-workers s stopped = refl
stop_called-workers s started = refl
stop_called-workers s stopping = refl

joining-restarted : (s : System) (phase : Phase) → (joining s phase).restarted ≡ s.restarted
unfolding joining
joining-restarted s stopped = refl
joining-restarted s started = refl
joining-restarted s stopping = ground arith

dispatch-restarted :
    (s : System) (pkt : Packet) (p : Producer Packet) → (dispatch s pkt p).restarted ≡ s.restarted
unfolding dispatch
dispatch-restarted s pkt no_push =
    elim (Bool-cases (ltb (dispatch_core s.pool.rss_dispatcher pkt) s.pool.num_workers)) [
      | inl b ↦ rw b refl
      | inr b ↦ rw b refl
    ]
dispatch-restarted s pkt (tail_loaded item tail) = refl
dispatch-restarted s pkt (not_full item tail) = refl
dispatch-restarted s pkt (item_written item tail) = refl

step-restarted : (s : System) (c : Step) → (step s c).restarted ≡ false → s.restarted ≡ false
unfolding step
step-restarted s starts e = starting-restarted s s.phase e
step-restarted s stops e = sym (stop_called-restarted s s.phase) ∙ e
step-restarted s joins e = sym (joining-restarted s s.phase) ∙ e
step-restarted s (dispatches pkt) e = sym (dispatch-restarted s pkt s.producer) ∙ e
step-restarted s (works k) e = e

pub run-restarted :
    (cs : List Step) (s : System) → (run s cs).restarted ≡ false → s.restarted ≡ false
unfolding run
run-restarted [] s e = e
run-restarted (c ∷ cs) s e = step-restarted s c (run-restarted cs (step s c) e)

-- Without a call of `start` the observer sees no second one.
pub run-once :
    (cs : List Step) (s : System)
    → calls_start cs ≡ false
    → s.restarted ≡ false
    → (run s cs).restarted ≡ false
unfolding run step
run-once [] s none e = e
run-once (starts ∷ cs) s none e = absurd cc
run-once (stops ∷ cs) s none e =
    run-once cs (step s stops) none (stop_called-restarted s s.phase ∙ e)
run-once (joins ∷ cs) s none e = run-once cs (step s joins) none (joining-restarted s s.phase ∙ e)
run-once (dispatches pkt ∷ cs) s none e =
    run-once cs (step s (dispatches pkt)) none (dispatch-restarted s pkt s.producer ∙ e)
run-once (works k ∷ cs) s none e = run-once cs (step s (works k)) none e

starting-workers :
    (s : System) (phase : Phase) → (starting s phase).pool.num_workers ≡ s.pool.num_workers
unfolding starting start
starting-workers s stopped = refl
starting-workers s started = refl
starting-workers s stopping = refl

joining-workers :
    (s : System) (phase : Phase) → (joining s phase).pool.num_workers ≡ s.pool.num_workers
unfolding joining join
joining-workers s stopped = refl
joining-workers s started = refl
joining-workers s stopping = elim (Bool-cases (all_ended s.pool.worker_threads)) [
  | inl done ↦ rw done refl
  | inr waits ↦ rw waits refl
]

dispatch-workers :
    (s : System) (pkt : Packet) (p : Producer Packet)
    → (dispatch s pkt p).pool.num_workers ≡ s.pool.num_workers
unfolding dispatch
dispatch-workers s pkt no_push =
    elim (Bool-cases (ltb (dispatch_core s.pool.rss_dispatcher pkt) s.pool.num_workers)) [
      | inl b ↦ rw b refl
      | inr b ↦ rw b refl
    ]
dispatch-workers s pkt (tail_loaded item tail) = refl
dispatch-workers s pkt (not_full item tail) = refl
dispatch-workers s pkt (item_written item tail) = refl

step-workers : (s : System) (c : Step) → (step s c).pool.num_workers ≡ s.pool.num_workers
unfolding step
step-workers s starts = starting-workers s s.phase
step-workers s stops = stop_called-workers s s.phase
step-workers s joins = joining-workers s s.phase
step-workers s (dispatches pkt) = dispatch-workers s pkt s.producer
step-workers s (works k) = (worker_loop-Keeps s.pool k (thread s.pool k).point).workers

-- The number of workers never changes.
pub run-workers : (cs : List Step) (s : System) → (run s cs).pool.num_workers ≡ s.pool.num_workers
unfolding run
run-workers [] s = refl
run-workers (c ∷ cs) s = run-workers cs (step s c) ∙ step-workers s c
