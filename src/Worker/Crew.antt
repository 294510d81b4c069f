-- ===== src/Worker/Crew.antt =====
-- The list of threads of include/core/worker_pool.hpp: which thread stands in which place.
use aether_plane.Base.{
  ℕ, zero, suc, ◌+◌, ◌≤◌, ◌<◌, ◌≡◌, refl, ap, List, [], ◌∷◌, true, false, arith, length, get_or,
  set,
}
use aether_plane.Worker.{
  Point, testing, popping, popped, counted, ended, Worker, threads_from, nobody, has_ended,
  all_ended,
}
use aether_plane.Worker.Lane.{IsIdle}

pub testing-IsIdle : IsIdle testing
testing-IsIdle = record { outside = refl; packets = refl; bytes = refl }

pub ended-IsIdle : IsIdle ended
ended-IsIdle = record { outside = refl; packets = refl; bytes = refl }

pub length-threads_from : (n i : ℕ) → length (threads_from n i) ≡ n
unfolding threads_from
length-threads_from zero i = refl
length-threads_from (suc n) i = ap suc (length-threads_from n (i + 1))

pub threads_from-IsIdle : (n i k : ℕ) → IsIdle (get_or (threads_from n i) k nobody).point
unfolding threads_from
threads_from-IsIdle zero i k = ended-IsIdle
threads_from-IsIdle (suc n) i zero = testing-IsIdle
threads_from-IsIdle (suc n) i (suc k) = threads_from-IsIdle n (i + 1) k

pub core_of-threads_from :
    (n i k : ℕ) → k < n → (get_or (threads_from n i) k nobody).core_id ≡ i + k
unfolding threads_from
core_of-threads_from zero i k lt = elim lt [ ]
core_of-threads_from (suc n) i zero lt = omega arith
core_of-threads_from (suc n) i (suc k) lt =
    omega (arith, core_of-threads_from n (i + 1) k (omega arith))

pub threads_from-working :
    (n i k : ℕ) → k < n → has_ended (get_or (threads_from n i) k nobody).point ≡ false
unfolding threads_from
threads_from-working zero i k lt = elim lt [ ]
threads_from-working (suc n) i zero lt = refl
threads_from-working (suc n) i (suc k) lt = threads_from-working n (i + 1) k (omega arith)

has_ended-IsIdle : (p : Point) → has_ended p ≡ true → IsIdle p
has_ended-IsIdle ended e = ended-IsIdle
has_ended-IsIdle testing e = absurd cc
has_ended-IsIdle (popping c) e = absurd cc
has_ended-IsIdle (popped pkt) e = absurd cc
has_ended-IsIdle (counted pkt) e = absurd cc

pub all_ended-IsIdle :
    (ws : List Worker) (k : ℕ) → all_ended ws ≡ true → IsIdle (get_or ws k nobody).point
all_ended-IsIdle [] k e = ended-IsIdle
all_ended-IsIdle (w ∷ ws) zero e = has_ended-IsIdle w.point (ground arith)
all_ended-IsIdle (w ∷ ws) (suc k) e = all_ended-IsIdle ws k (ground arith)

pub get_or-past : (ws : List Worker) (k : ℕ) → length ws ≤ k → get_or ws k nobody ≡ nobody
get_or-past [] k le = refl
get_or-past (w ∷ ws) zero le = absurd (omega arith)
get_or-past (w ∷ ws) (suc k) le = get_or-past ws k (omega arith)

-- A thread that moves on keeps its place and its core.
pub core_of-set :
    (ws : List Worker) (k j : ℕ) (point : Point)
    → (get_or (set ws k (record (get_or ws k nobody) { point = point })) j nobody).core_id
      ≡ (get_or ws j nobody).core_id
core_of-set [] k j point = refl
core_of-set (w ∷ ws) zero zero point = refl
core_of-set (w ∷ ws) zero (suc j) point = refl
core_of-set (w ∷ ws) (suc k) zero point = refl
core_of-set (w ∷ ws) (suc k) (suc j) point = core_of-set ws k j point

pub working-set :
    (ws : List Worker) (k j : ℕ) (w : Worker)
    → has_ended w.point ≡ false
    → has_ended (get_or ws j nobody).point ≡ false
    → has_ended (get_or (set ws k w) j nobody).point ≡ false
working-set [] k j w h e = e
working-set (x ∷ ws) zero zero w h e = h
working-set (x ∷ ws) zero (suc j) w h e = e
working-set (x ∷ ws) (suc k) zero w h e = e
working-set (x ∷ ws) (suc k) (suc j) w h e = working-set ws k j w h e
