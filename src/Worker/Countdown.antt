-- ===== src/Worker/Countdown.antt =====
-- How many accesses a thread of `worker_loop` of src/core/worker_pool.cpp has left once the flag is down.
use aether_plane.Base.{
  ◌+◌, ◌<◌, true, length, ℕ, zero, suc, ◌-◌, ◌≤◌, ◌≡◌, ◌≢◌, refl, sym, false, List, [], ◌∷◌, arith,
  get_or-set_ne, get_or, set, if◌then◌else◌, ◌==◌,
}
use aether_plane.Ring.Threads.{no_pop, head_loaded, not_empty, item_read}
use aether_plane.Worker.{
  has_ended, all_ended, WorkerPool, Point, testing, popping, popped, counted, ended, Worker,
  worker_loop, nobody, thread,
}
use aether_plane.Worker.Threads.{Step, works, starts, stops, joins, dispatches}

-- An upper bound of the accesses that a thread has left once the flag is down.
abbrev pub left : Point → ℕ
left testing = 1
left (popping no_pop) = 7
left (popping (head_loaded head)) = 6
left (popping (not_empty head)) = 5
left (popping (item_read head pkt)) = 4
left (popped pkt) = 3
left (counted pkt) = 2
left ended = 0

pub left-le : (p : Point) → left p ≤ 7
left-le testing = omega arith
left-le (popping no_pop) = omega arith
left-le (popping (head_loaded head)) = omega arith
left-le (popping (not_empty head)) = omega arith
left-le (popping (item_read head pkt)) = omega arith
left-le (popped pkt) = omega arith
left-le (counted pkt) = omega arith
left-le ended = omega arith

-- How often the thread in place `k` moves.
abbrev pub turns : ℕ → List Step → ℕ
turns k [] = 0
turns k (works j ∷ cs) = let rest = turns k cs in if k == j then suc rest else rest
turns k (_ ∷ cs) = turns k cs

left-set :
    (ws : List Worker) (k : ℕ) (w : Worker)
    → left w.point ≤ left (get_or ws k nobody).point - 1
    → left (get_or (set ws k w) k nobody).point ≤ left (get_or ws k nobody).point - 1
left-set [] k w le = omega arith
left-set (x ∷ ws) zero w le = le
left-set (x ∷ ws) (suc k) w le = left-set ws k w le

-- With the flag down an access of the thread in place `k` takes one from what it has left.
pub worker_loop-left :
    (p : WorkerPool) (k : ℕ) (point : Point)
    → p.running ≡ false
    → (thread p k).point ≡ point
    → left (thread (worker_loop p k (thread p k) point) k).point ≤ left (thread p k).point - 1
unfolding worker_loop
worker_loop-left p k testing off e = left-set p.worker_threads k _ (rw (off, e) (omega arith))
worker_loop-left p k (popping no_pop) off e = left-set p.worker_threads k _ (rw e (omega arith))
worker_loop-left p k (popping (head_loaded head)) off e =
    left-set p.worker_threads k _ (rw e (ground arith))
worker_loop-left p k (popping (not_empty head)) off e =
    left-set p.worker_threads k _ (rw e (omega arith))
worker_loop-left p k (popping (item_read head pkt)) off e =
    left-set p.worker_threads k _ (rw e (omega arith))
worker_loop-left p k (popped pkt) off e = left-set p.worker_threads k _ (rw e (omega arith))
worker_loop-left p k (counted pkt) off e = left-set p.worker_threads k _ (rw e (omega arith))
worker_loop-left p k ended off e = rw e (omega arith)

other :
    (p : WorkerPool) (k j : ℕ) (w : Worker)
    → j ≢ k
    → get_or (set p.worker_threads k w) j nobody ≡ thread p j
other p k j w ne = get_or-set_ne p.worker_threads k j w nobody (λ e. ne (sym e))

pub worker_loop-others :
    (p : WorkerPool) (k j : ℕ) (point : Point)
    → j ≢ k
    → thread (worker_loop p k (thread p k) point) j ≡ thread p j
unfolding worker_loop
worker_loop-others p k j testing ne = other p k j _ ne
worker_loop-others p k j (popping no_pop) ne = other p k j _ ne
worker_loop-others p k j (popping (head_loaded head)) ne = other p k j _ ne
worker_loop-others p k j (popping (not_empty head)) ne = other p k j _ ne
worker_loop-others p k j (popping (item_read head pkt)) ne = other p k j _ ne
worker_loop-others p k j (popped pkt) ne = other p k j _ ne
worker_loop-others p k j (counted pkt) ne = other p k j _ ne
worker_loop-others p k j ended ne = refl

pub turns-cons :
    (k : ℕ) (c : Step) (cs : List Step) → turns k (c ∷ cs) ≡ turns k (c ∷ []) + turns k cs
turns-cons k (works j) cs = ground arith
turns-cons k starts cs = omega arith
turns-cons k stops cs = omega arith
turns-cons k joins cs = omega arith
turns-cons k (dispatches pkt) cs = omega arith

left-has_ended : (p : Point) → left p ≤ 0 → has_ended p ≡ true
left-has_ended testing le = absurd (omega arith)
left-has_ended (popping no_pop) le = absurd (omega arith)
left-has_ended (popping (head_loaded head)) le = absurd (omega arith)
left-has_ended (popping (not_empty head)) le = absurd (omega arith)
left-has_ended (popping (item_read head pkt)) le = absurd (omega arith)
left-has_ended (popped pkt) le = absurd (omega arith)
left-has_ended (counted pkt) le = absurd (omega arith)
left-has_ended ended le = refl

pub left-all_ended :
    (ws : List Worker)
    → ((k : ℕ) → k < length ws → left (get_or ws k nobody).point ≤ 0)
    → all_ended ws ≡ true
left-all_ended [] none = refl
left-all_ended (w ∷ ws) none =
    rw (left-has_ended w.point (none 0 (omega arith)))
      (left-all_ended ws (λ k lt. none (suc k) (omega arith)))
