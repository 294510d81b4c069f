-- ===== src/Worker/Loop.antt =====
-- One access of `worker_loop` of src/core/worker_pool.cpp keeps what holds of the pool.
use native.Mathlib.Decide.{dec_lt}
use aether_plane.Base.{
  add64, update, ◌==◌, ℕ, ◌≡◌, refl, sym, ap, ◌∙◌, true, false, List, [], ◌∷◌, arith, length,
  length-set, get_or, set, if◌then◌else◌, subst,
}
use aether_plane.Packet.{Packet}
use aether_plane.Ring.{Ring, slot}
use aether_plane.Ring.Threads.{no_pop, head_loaded, not_empty, item_read}
use aether_plane.Netdev.{no_packet}
use aether_plane.Worker.{
  CoreMetrics, count_packet, count_bytes, WorkerPool, Point, testing, popping, popped, counted,
  ended, Worker, has_ended, worker_loop, thread,
}
use aether_plane.Worker.Threads.{Phase, stopped, started, stopping, System, work}
use aether_plane.Worker.Crew.{get_or-past}
use aether_plane.Worker.Moves.{AllHold, work-AllHold}
use aether_plane.Worker.Crew.{core_of-set, working-set}
use aether_plane.Worker.Staff.{Staffed, Accounts}

-- What an access of a worker leaves as it is.
pub record Keeps (p q : WorkerPool) : Type 0 where
  pub workers : q.num_workers ≡ p.num_workers
  pub flag : q.running ≡ p.running
  pub dispatcher : q.rss_dispatcher ≡ p.rss_dispatcher
  pub places : length q.worker_threads ≡ length p.worker_threads
  pub own : (j : ℕ) → (thread q j).core_id ≡ (thread p j).core_id
  pub working :
      (j : ℕ)
      → p.running ≡ true
      → has_ended (thread p j).point ≡ false
      → has_ended (thread q j).point ≡ false

goto-Keeps :
    (p : WorkerPool) (rings : ℕ → Ring Packet) (metrics : ℕ → CoreMetrics) (k : ℕ) (point : Point)
    → (p.running ≡ true → has_ended point ≡ false)
    → Keeps p (record p {
      worker_rings = rings;
      metrics = metrics;
      worker_threads = set p.worker_threads k (record (thread p k) { point = point });
    })
goto-Keeps p rings metrics k point h = record {
  workers = refl;
  flag = refl;
  dispatcher = refl;
  places = length-set p.worker_threads k (record (thread p k) { point = point });
  own = λ j. core_of-set p.worker_threads k j point;
  working =
      λ j on e. working-set p.worker_threads k j (record (thread p k) { point = point }) (h on) e;
}

pub worker_loop-Keeps :
    (p : WorkerPool) (k : ℕ) (point : Point) → Keeps p (worker_loop p k (thread p k) point)
unfolding worker_loop
worker_loop-Keeps p k testing =
    goto-Keeps p p.worker_rings p.metrics k (if p.running then popping no_pop else ended)
      (λ on. rw on refl)
worker_loop-Keeps p k (popping no_pop) =
    goto-Keeps p p.worker_rings p.metrics k
      (popping (head_loaded (p.worker_rings (thread p k).core_id).head)) (λ on. refl)
worker_loop-Keeps p k (popping (head_loaded head)) =
    let r = p.worker_rings (thread p k).core_id in
    goto-Keeps p p.worker_rings p.metrics k
      (if head == r.tail then testing else popping (not_empty head)) (λ on. ground arith)
worker_loop-Keeps p k (popping (not_empty head)) =
    let r = p.worker_rings (thread p k).core_id in
    goto-Keeps p p.worker_rings p.metrics k
      (popping (item_read head (get_or r.buffer (slot 1024 head) no_packet))) (λ on. refl)
worker_loop-Keeps p k (popping (item_read head pkt)) =
    let i = (thread p k).core_id in
    goto-Keeps p (update p.worker_rings i (record (p.worker_rings i) { head = add64 head 1 }))
      p.metrics k (popped pkt) (λ on. refl)
worker_loop-Keeps p k (popped pkt) =
    let i = (thread p k).core_id in
    goto-Keeps p p.worker_rings (update p.metrics i (count_packet (p.metrics i))) k (counted pkt)
      (λ on. refl)
worker_loop-Keeps p k (counted pkt) =
    let i = (thread p k).core_id in
    goto-Keeps p p.worker_rings (update p.metrics i (count_bytes (p.metrics i) pkt)) k testing
      (λ on. refl)
worker_loop-Keeps p k ended = record {
  workers = refl;
  flag = refl;
  dispatcher = refl;
  places = refl;
  own = λ j. refl;
  working = λ j on e. e;
}

no_thread : (ws : List Worker) → length ws ≡ 0 → ws ≡ []
no_thread [] e = refl
no_thread (w ∷ ws) e = absurd (omega (arith, e))

running_when_started :
    (phase : Phase) (p : WorkerPool) → phase ≡ started → Staffed phase p → p.running ≡ true
running_when_started stopped p e h = absurd cc
running_when_started started p e h = h.0
running_when_started stopping p e h = absurd cc

Keeps-Staffed : (phase : Phase) (p q : WorkerPool) → Keeps p q → Staffed phase p → Staffed phase q
Keeps-Staffed stopped p q k (off, none) =
    (k.flag ∙ off, no_thread q.worker_threads (k.places ∙ ap length none))
Keeps-Staffed started p q k (on, full) = (k.flag ∙ on, omega (arith, k.places, k.workers, full))
Keeps-Staffed stopping p q k (off, le) = (k.flag ∙ off, omega (arith, k.places, k.workers, le))

works-AllHold : (s : System) (k : ℕ) → Accounts s → AllHold (work s k (thread s.pool k))
unfolding worker_loop
works-AllHold s k a = elim (dec_lt k (length s.pool.worker_threads)) [
  | yes lt ↦ work-AllHold s k (a.own k) lt a.all
  | no past ↦
      subst (λ w. AllHold (work s k w)) (sym (get_or-past s.pool.worker_threads k (omega arith)))
        a.all
]

pub works-Accounts : (s : System) (k : ℕ) → Accounts s → Accounts (work s k (thread s.pool k))
works-Accounts s k a =
    let q = worker_loop s.pool k (thread s.pool k) (thread s.pool k).point in
    let keeps : Keeps s.pool q = worker_loop-Keeps s.pool k (thread s.pool k).point in
    record {
      cores = ap (λ d. d.num_cores) keeps.dispatcher ∙ a.cores ∙ sym keeps.workers;
      some_worker = omega (arith, a.some_worker, keeps.workers);
      staffed = Keeps-Staffed s.phase s.pool q keeps a.staffed;
      working = λ e j lt.
          keeps.working j (running_when_started s.phase s.pool e a.staffed)
            (a.working e j (omega (arith, lt, keeps.places)));
      own = λ j lt. keeps.own j ∙ a.own j (omega (arith, lt, keeps.places));
      all = works-AllHold s k a;
    }
