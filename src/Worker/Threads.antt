-- ===== src/Worker/Threads.antt =====
-- The threads of include/core/worker_pool.hpp at work: the workers, the one thread that dispatches packets and the one
-- that calls `start` and `stop`, in any interleaving of their accesses.
use aether_plane.Base.{ℕ, Bool, true, false, List, [], ◌∷◌, ◌++◌, if◌then◌else◌, ltb, ◌==◌, update}
use aether_plane.Packet.{Packet}
use aether_plane.Ring.Threads.{Producer, no_push, Consumer, no_pop, item_read, Shared, produce}
use aether_plane.Rss.{dispatch_core}
use aether_plane.Worker.{
  WorkerPool, Point, popping, Worker, init, start, stop, join, worker_loop, thread,
}

-- Where the caller of `start` and `stop` stands: no thread was started, the threads were started, or
-- `stop` waits for them.
pub data Phase : Type 0 where
  stopped started stopping : Phase

-- The pool; the dispatching thread, with its core while it is inside `push`; the caller's phase; and what an observer saw:
-- the packets pushed into and popped from the ring of each core, and whether `start` was called on a started pool.
pub record System : Type 0 where
  pub pool : WorkerPool
  pub target_core : ℕ
  pub producer : Producer Packet
  pub phase : Phase
  pub pushed : ℕ → List Packet
  pub taken : ℕ → List Packet
  pub restarted : Bool

abbrev pub launch : ℕ → System
launch n = record {
  pool = init n;
  target_core = 0;
  producer = no_push;
  phase = stopped;
  pushed = λ i. [];
  taken = λ i. [];
  restarted = false;
}

pub data Step : Type 0 where
  starts stops joins : Step
  dispatches : Packet → Step
  works : ℕ → Step

abbrev pub consumer_at : Point → Consumer Packet
consumer_at (popping c) = c
consumer_at _ = no_pop

-- The ring of a core as its producer and the thread in the place of its number see it.
abbrev pub lane : System → ℕ → Shared Packet
lane s i = record {
  ring = s.pool.worker_rings i;
  producer = if i == s.target_core then s.producer else no_push;
  consumer = consumer_at (thread s.pool i).point;
  pushed = s.pushed i;
  popped = s.taken i;
}

-- The next access of `push(pkt)` on the ring of core `i`.
abbrev pub push_access : System → ℕ → Packet → Producer Packet → System
push_access s i pkt p =
    let l = produce 1024 pkt (lane s i) p in
    record s {
      pool = record (s.pool) { worker_rings = update s.pool.worker_rings i l.ring };
      target_core = i;
      producer = l.producer;
      pushed = update s.pushed i l.pushed;
    }

-- The next access of `dispatch_packet`: of a new call with `pkt`, whose core the dispatcher chooses, or of the call
-- under way.
unfoldable pub dispatch : System → Packet → Producer Packet → System
dispatch s pkt no_push =
    let i = dispatch_core s.pool.rss_dispatcher pkt in
    if ltb i s.pool.num_workers then push_access s i pkt no_push else s
dispatch s pkt p = push_access s s.target_core pkt p

-- A thread that moves the head of a ring takes the item that it has read.
abbrev pub observe : (ℕ → List Packet) → Worker → Point → ℕ → List Packet
observe taken w (popping (item_read head pkt)) =
    update taken w.core_id (taken w.core_id ++ (pkt ∷ []))
observe taken w _ = taken

abbrev pub work : System → ℕ → Worker → System
work s k w = record s { pool = worker_loop s.pool k w w.point; taken = observe s.taken w w.point }

-- A call of `start` or `stop` cannot begin while `stop` waits.
unfoldable pub starting : System → Phase → System
starting s stopped = record s { pool = start s.pool; phase = started }
starting s started = record s { pool = start s.pool; restarted = true }
starting s stopping = s

unfoldable pub stop_called : System → Phase → System
stop_called s stopping = s
stop_called s _ = record s { pool = stop s.pool; phase = stopping }

unfoldable pub joining : System → Phase → System
joining s stopping =
    let (done, pool) = join s.pool in if done then record s { pool = pool; phase = stopped } else s
joining s _ = s

unfoldable pub step : System → Step → System
step s starts = starting s s.phase
step s stops = stop_called s s.phase
step s joins = joining s s.phase
step s (dispatches pkt) = dispatch s pkt s.producer
step s (works k) = work s k (thread s.pool k)

unfoldable pub run : System → List Step → System
run s [] = s
run s (c ∷ cs) = run (step s c) cs

-- Whether `start` is among the steps.
abbrev pub calls_start : List Step → Bool
calls_start [] = false
calls_start (starts ∷ cs) = true
calls_start (_ ∷ cs) = calls_start cs
