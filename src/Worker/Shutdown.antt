-- ===== src/Worker/Shutdown.antt =====
-- `stop` of src/core/worker_pool.cpp comes to its end: once the flag is down, seven accesses bring a thread out of
-- `worker_loop`.
use native.Mathlib.Decide.{ℕ_discrete}
use aether_plane.Base.{
  ℕ, ◌-◌, ◌≤◌, ◌<◌, ◌≡◌, ◌≢◌, refl, sym, ap, ◌∙◌, true, false, List, [], ◌∷◌, arith, length, inl,
  inr, Bool-cases, subst, ltb,
}
use aether_plane.Packet.{Packet}
use aether_plane.Rss.{dispatch_core}
use aether_plane.Ring.Threads.{Producer, no_push, tail_loaded, not_full, item_written}
use aether_plane.Worker.{WorkerPool, stop, join, all_ended, worker_loop, thread}
use aether_plane.Worker.Threads.{
  Phase, stopped, started, stopping, System, Step, starts, stops, joins, dispatches, works,
  dispatch, work, stop_called, joining, step, run, push_access, calls_start,
}
use aether_plane.Worker.Arrivals.{eq_self, eq_other}
use aether_plane.Worker.Loop.{worker_loop-Keeps}
use aether_plane.Worker.Countdown.{
  turns-cons, left-all_ended, left, left-le, turns, worker_loop-left, worker_loop-others,
}
use aether_plane.Worker.Staff.{Staffed}

pub record IsHalting (s : System) : Type 0 where
  pub off : s.pool.running ≡ false
  pub closed : s.phase ≢ started

-- What one step does while `stop` is under way or has returned.
record Halts (s : System) (c : Step) (t : System) : Type 0 where
  halting : IsHalting t
  same_workers : t.pool.num_workers ≡ s.pool.num_workers
  nearer : (k : ℕ) → left (thread t.pool k).point ≤ left (thread s.pool k).point - turns k (c ∷ [])

idle_step : (s : System) (c : Step) → ((k : ℕ) → turns k (c ∷ []) ≡ 0) → IsHalting s → Halts s c s
idle_step s c none h = record {
  halting = h;
  same_workers = refl;
  nearer = λ k. omega (arith, none k);
}

stop_called-Halts :
    (s : System) (phase : Phase)
    → s.phase ≡ phase
    → IsHalting s
    → Halts s stops (stop_called s phase)
unfolding stop_called stop
stop_called-Halts s stopping e h = idle_step s stops (λ k. refl) h
stop_called-Halts s started e h = absurd (h.closed e)
stop_called-Halts s stopped e h = record {
  halting = record { off = refl; closed = λ q. cc };
  same_workers = refl;
  nearer = λ k. omega arith;
}

joining-Halts : (s : System) (phase : Phase) → IsHalting s → Halts s joins (joining s phase)
unfolding joining join
joining-Halts s stopped h = idle_step s joins (λ k. refl) h
joining-Halts s started h = idle_step s joins (λ k. refl) h
joining-Halts s stopping h = elim (Bool-cases (all_ended s.pool.worker_threads)) [
  | inl done ↦ rw done (record {
    halting = record { off = h.off; closed = λ q. cc };
    same_workers = refl;
    nearer = λ k. omega arith;
  })
  | inr waits ↦ rw waits (idle_step s joins (λ k. refl) h)
]

push_access-Halts :
    (s : System) (i : ℕ) (pkt : Packet) (p : Producer Packet)
    → IsHalting s
    → Halts s (dispatches pkt) (push_access s i pkt p)
push_access-Halts s i pkt p h = record {
  halting = record { off = h.off; closed = h.closed };
  same_workers = refl;
  nearer = λ k. omega arith;
}

dispatch-Halts :
    (s : System) (pkt : Packet) (p : Producer Packet)
    → IsHalting s
    → Halts s (dispatches pkt) (dispatch s pkt p)
unfolding dispatch
dispatch-Halts s pkt no_push h =
    let i = dispatch_core s.pool.rss_dispatcher pkt in
    elim (Bool-cases (ltb i s.pool.num_workers)) [
      | inl b ↦ rw b (push_access-Halts s i pkt no_push h)
      | inr b ↦ rw b (idle_step s (dispatches pkt) (λ k. refl) h)
    ]
dispatch-Halts s pkt (tail_loaded item tail) h =
    push_access-Halts s s.target_core pkt (tail_loaded item tail) h
dispatch-Halts s pkt (not_full item tail) h =
    push_access-Halts s s.target_core pkt (not_full item tail) h
dispatch-Halts s pkt (item_written item tail) h =
    push_access-Halts s s.target_core pkt (item_written item tail) h

works-Halts : (s : System) (j : ℕ) → IsHalting s → Halts s (works j) (work s j (thread s.pool j))
works-Halts s j h =
    let w = thread s.pool j in
    let keeps = worker_loop-Keeps s.pool j w.point in
    record {
      halting = record { off = keeps.flag ∙ h.off; closed = h.closed };
      same_workers = keeps.workers;
      nearer = λ k. elim (ℕ_discrete k j) [
        | yes e ↦
            subst
              (λ i.
                left (thread (worker_loop s.pool j w w.point) i).point
                ≤ left (thread s.pool i).point - turns i (works j ∷ []))
              (sym e) (rw (eq_self j) (worker_loop-left s.pool j w.point h.off refl))
        | no ne ↦
            rw (eq_other k j ne)
              (omega (arith, ap (λ x. left x.point) (worker_loop-others s.pool j k w.point ne)))
      ];
    }

step-Halts :
    (s : System) (c : Step) → calls_start (c ∷ []) ≡ false → IsHalting s → Halts s c (step s c)
unfolding step
step-Halts s starts none h = absurd cc
step-Halts s stops none h = stop_called-Halts s s.phase refl h
step-Halts s joins none h = joining-Halts s s.phase h
step-Halts s (dispatches pkt) none h = dispatch-Halts s pkt s.producer h
step-Halts s (works j) none h = works-Halts s j h

calls_start-cons :
    (c : Step) (cs : List Step)
    → calls_start (c ∷ cs) ≡ false
    → (calls_start (c ∷ []) ≡ false) × (calls_start cs ≡ false)
calls_start-cons starts cs e = absurd cc
calls_start-cons stops cs e = (refl, e)
calls_start-cons joins cs e = (refl, e)
calls_start-cons (dispatches pkt) cs e = (refl, e)
calls_start-cons (works j) cs e = (refl, e)

run-IsHalting :
    (cs : List Step) (s : System)
    → calls_start cs ≡ false
    → IsHalting s
    → IsHalting (run s cs)
      × ((run s cs).pool.num_workers ≡ s.pool.num_workers)
      × ((k : ℕ)
          → left (thread (run s cs).pool k).point ≤ left (thread s.pool k).point - turns k cs)
unfolding run
run-IsHalting [] s none h = (h, refl, λ k. omega arith)
run-IsHalting (c ∷ cs) s none h =
    let (first, others) = calls_start-cons c cs none in
    let one = step-Halts s c first h in
    let (halting, workers, nearer) = run-IsHalting cs (step s c) others one.halting in
    (
      halting,
      workers ∙ one.same_workers,
      λ k. omega (arith, nearer k, one.nearer k, turns-cons k c cs),
    )

joining-stopped :
    (s : System) (phase : Phase)
    → s.phase ≡ phase
    → IsHalting s
    → all_ended s.pool.worker_threads ≡ true
    → (joining s phase).phase ≡ stopped
unfolding joining join
joining-stopped s stopped e h done = e
joining-stopped s started e h done = absurd (h.closed e)
joining-stopped s stopping e h done = rw done refl

-- After seven accesses of every thread the joins return.
pub joins-stopped :
    (s : System) (cs : List Step)
    → IsHalting s
    → calls_start cs ≡ false
    → ((k : ℕ) → k < s.pool.num_workers → 7 ≤ turns k cs)
    → length (run s cs).pool.worker_threads ≤ (run s cs).pool.num_workers
    → (step (run s cs) joins).phase ≡ stopped
unfolding step
joins-stopped s cs h none enough few =
    let (halting, workers, nearer) = run-IsHalting cs s none h in
    joining-stopped (run s cs) (run s cs).phase refl halting (
      left-all_ended (run s cs).pool.worker_threads (λ k lt. omega (
        arith,
        nearer k,
        left-le (thread s.pool k).point,
        enough k (omega (arith, lt, few, workers)),
      )))

-- The flag is down once `stop` is called.
pub stops-IsHalting :
    (s : System) (phase : Phase)
    → s.phase ≡ phase
    → Staffed phase s.pool
    → IsHalting (stop_called s phase)
unfolding stop_called stop
stops-IsHalting s stopped e h = record { off = refl; closed = λ q. cc }
stops-IsHalting s started e h = record { off = refl; closed = λ q. cc }
stops-IsHalting s stopping e h = record { off = h.0; closed = λ q. cc }

pub length-Staffed :
    (phase : Phase) (p : WorkerPool) → Staffed phase p → length p.worker_threads ≤ p.num_workers
length-Staffed stopped p h = omega (arith, ap length h.1)
length-Staffed started p h = omega (arith, h.1)
length-Staffed stopping p h = h.1
