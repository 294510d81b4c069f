-- ===== src/Worker/Staff.antt =====
-- What holds between any two accesses of the threads of include/core/worker_pool.hpp, and that `start`, `stop` and the
-- joins keep it.
use aether_plane.Base.{
  Bool, ◌==◌, ℕ, ◌<◌, ◌≤◌, ◌≡◌, refl, ap, true, false, List, [], ◌++◌, arith, length, get_or, inl,
  inr, Bool-cases, subst,
}
use aether_plane.Ring.{Ring}
use aether_plane.Ring
use aether_plane.Ring.Inv.{init-IsValid}
use aether_plane.Netdev.{no_packet}
use aether_plane.Rss
use aether_plane.Worker.{
  WorkerPool, Worker, threads_from, init, start, stop, join, has_ended, all_ended, nobody, thread,
}
use aether_plane.Worker.Threads.{
  Phase, stopped, started, stopping, System, launch, lane, starting, stop_called, joining,
}
use aether_plane.Worker.Lane.{IsIdle, idle-Holds, few}
use aether_plane.Worker.Crew.{
  ended-IsIdle, length-threads_from, threads_from-working, threads_from-IsIdle,
  core_of-threads_from, all_ended-IsIdle,
}
use aether_plane.Worker.Moves.{AllHold}

-- The flag and the threads in each phase of the caller of `start` and `stop`.
abbrev pub Staffed : Phase → WorkerPool → Type 0
Staffed stopped p = (p.running ≡ false) × (p.worker_threads ≡ [])
Staffed started p = (p.running ≡ true) × (length p.worker_threads ≡ p.num_workers)
Staffed stopping p = (p.running ≡ false) × (length p.worker_threads ≤ p.num_workers)

pub record Accounts (s : System) : Type 0 where
  pub cores : s.pool.rss_dispatcher.num_cores ≡ s.pool.num_workers
  pub some_worker : 0 < s.pool.num_workers
  pub staffed : Staffed s.phase s.pool
  -- No thread leaves its loop before `stop` is called.
  pub working :
      s.phase ≡ started
      → (k : ℕ) → k < length s.pool.worker_threads
      → has_ended (thread s.pool k).point ≡ false
  pub own : (k : ℕ) → k < length s.pool.worker_threads → (thread s.pool k).core_id ≡ k
  pub all : AllHold s

pub launch-Accounts : (n : ℕ) → Accounts (launch n)
unfolding init Rss.init Ring.init
launch-Accounts n = record {
  cores = ground arith;
  some_worker = ground arith;
  staffed = (refl, refl);
  working = λ e k lt. elim lt [ ];
  own = λ k lt. elim lt [ ];
  all = λ j. record {
    coherent = record {
      valid = init-IsValid 10 few no_packet;
      delivered = refl;
      producing = elim (Bool-cases (j == 0)) [ inl e ↦ rw e tt | inr e ↦ rw e tt ];
      consuming = tt;
    };
    packets = refl;
    bytes = refl;
  };
}

-- Threads with nothing to count give way to others with nothing to count.
crew-AllHold :
    (s : System) (ws : List Worker) (running : Bool)
    → ((j : ℕ) → IsIdle (thread s.pool j).point)
    → ((j : ℕ) → IsIdle (get_or ws j nobody).point)
    → AllHold s
    → AllHold (record s { pool = record (s.pool) { running = running; worker_threads = ws } })
crew-AllHold s ws running before after all j =
    idle-Holds (lane s j) (thread s.pool j).point (get_or ws j nobody).point (s.pool.metrics j)
      (before j) (after j) (all j)

pub starting-Accounts :
    (s : System) (phase : Phase)
    → s.phase ≡ phase
    → (starting s phase).restarted ≡ false
    → Accounts s
    → Accounts (starting s phase)
unfolding starting start
starting-Accounts s stopped e once a =
    let n = s.pool.num_workers in
    let ws = threads_from n 0 in
    let (off, none) = subst (λ x. Staffed x s.pool) e a.staffed in
    let joined : s.pool.worker_threads ++ ws ≡ ws = ap (λ x. x ++ ws) none in
    rw joined (record {
      cores = a.cores;
      some_worker = a.some_worker;
      staffed = (refl, length-threads_from n 0);
      working = λ e k lt. threads_from-working n 0 k (omega (arith, length-threads_from n 0));
      own = λ k lt.
          omega (arith, core_of-threads_from n 0 k (omega (arith, length-threads_from n 0)));
      all = crew-AllHold s ws true (λ j. rw none ended-IsIdle) (threads_from-IsIdle n 0) a.all;
    })
starting-Accounts s started e once a = absurd cc
starting-Accounts s stopping e once a = a

pub stop_called-Accounts :
    (s : System) (phase : Phase) → s.phase ≡ phase → Accounts s → Accounts (stop_called s phase)
unfolding stop_called stop
stop_called-Accounts s stopped e a =
    let (off, none) = subst (λ x. Staffed x s.pool) e a.staffed in
    record {
      cores = a.cores;
      some_worker = a.some_worker;
      staffed = (refl, omega (arith, ap length none));
      working = λ e k lt. absurd cc;
      own = a.own;
      all = a.all;
    }
stop_called-Accounts s started e a =
    let (on, full) = subst (λ x. Staffed x s.pool) e a.staffed in
    record {
      cores = a.cores;
      some_worker = a.some_worker;
      staffed = (refl, omega (arith, full));
      working = λ e k lt. absurd cc;
      own = a.own;
      all = a.all;
    }
stop_called-Accounts s stopping e a = a

pub joining-Accounts :
    (s : System) (phase : Phase) → s.phase ≡ phase → Accounts s → Accounts (joining s phase)
unfolding joining join
joining-Accounts s stopped e a = a
joining-Accounts s started e a = a
joining-Accounts s stopping e a =
    let (off, some_left) = subst (λ x. Staffed x s.pool) e a.staffed in
    elim (Bool-cases (all_ended s.pool.worker_threads)) [
      | inl done ↦ rw done (record {
        cores = a.cores;
        some_worker = a.some_worker;
        staffed = (off, refl);
        working = λ e k lt. elim lt [ ];
        own = λ k lt. elim lt [ ];
        all =
            crew-AllHold s [] s.pool.running (λ j. all_ended-IsIdle s.pool.worker_threads j done)
              (λ j. ended-IsIdle) a.all;
      })
      | inr waits ↦ rw waits a
    ]
