-- ===== src/Worker.antt =====
-- include/core/worker_pool.hpp and src/core/worker_pool.cpp: `WorkerPool`. A thread of `worker_loop` makes one
-- access of the shared memory at a time; its creation and its pinning belong to the system.
pub mod Threads
pub mod Lane
pub mod Crew
pub mod Moves
pub mod Arrivals
pub mod Staff
pub mod Loop
pub mod Countdown
pub mod Shutdown
pub mod Observed
pub mod Account
pub mod Refusal
mod Tests
use aether_plane.Base.{
  ℕ, zero, suc, ◌+◌, Bool, true, false, List, [], ◌∷◌, ◌++◌, if◌then◌else◌, ltb, ◌==◌, update,
  add64, get_or, set,
}
use aether_plane.Packet.{Packet, size}
use aether_plane.Ring.{Ring, slot}
use aether_plane.Ring
use aether_plane.Ring.Threads.{Consumer, no_pop, head_loaded, not_empty, item_read}
use aether_plane.Rss.{RssDispatcher, dispatch_core}
use aether_plane.Rss
use aether_plane.Netdev.{no_packet}

pub record CoreMetrics : Type 0 where
  pub processed_packets : ℕ
  pub dropped_packets : ℕ
  pub total_bytes : ℕ
  pub core_cycles : ℕ

abbrev pub no_metrics : CoreMetrics
no_metrics = record { processed_packets = 0; dropped_packets = 0; total_bytes = 0; core_cycles = 0 }

-- Where a thread is in `worker_loop`, with the local variables that are live there: at the test of `running_`,
-- inside `ring.pop(pkt)`, before each of the two `fetch_add`, or past the loop.
pub data Point : Type 0 where
  testing : Point
  popping : Consumer Packet → Point
  popped : Packet → Point
  counted : Packet → Point
  ended : Point

pub record Worker : Type 0 where
  pub core_id : ℕ
  pub point : Point

pub record WorkerPool : Type 0 where
  pub num_workers : ℕ
  pub running : Bool
  pub rss_dispatcher : RssDispatcher
  pub worker_threads : List Worker
  pub worker_rings : ℕ → Ring Packet
  pub metrics : ℕ → CoreMetrics

unfoldable pub init : ℕ → WorkerPool
init num_workers =
    let n = if ltb 0 num_workers then num_workers else 1 in
    record {
      num_workers = n;
      running = false;
      rss_dispatcher = Rss.init n;
      worker_threads = [];
      worker_rings = λ i. Ring.init 1024 no_packet;
      metrics = λ i. no_metrics;
    }

-- `n` threads at the head of their loops, for the cores from `i` on.
unfoldable pub threads_from : ℕ → ℕ → List Worker
threads_from zero i = []
threads_from (suc n) i = record { core_id = i; point = testing } ∷ threads_from n (i + 1)

-- One more thread for each core, which runs `worker_loop` on its ring. A thread that the loop creates late is one that
-- has made no access yet.
unfoldable pub start : WorkerPool → WorkerPool
start p = record p {
  running = true;
  worker_threads = p.worker_threads ++ threads_from p.num_workers 0;
}

-- `stop` up to its first `join`.
unfoldable pub stop : WorkerPool → WorkerPool
stop p = record p { running = false }

abbrev pub has_ended : Point → Bool
has_ended ended = true
has_ended _ = false

abbrev pub all_ended : List Worker → Bool
all_ended [] = true
all_ended (w ∷ ws) = if has_ended w.point then all_ended ws else false

-- The rest of `stop`: once every thread has ended, the joins return and the list is cleared. Until then `stop`
-- is blocked.
unfoldable pub join : WorkerPool → Bool × WorkerPool
join p = if all_ended p.worker_threads then (true, record p { worker_threads = [] }) else (false, p)

unfoldable pub dispatch_packet : WorkerPool → Packet → Bool × WorkerPool
dispatch_packet p pkt =
    let target_core = dispatch_core p.rss_dispatcher pkt in
    let (done, ring) = Ring.push 1024 (p.worker_rings target_core) pkt in
    if ltb target_core p.num_workers
    then (done, record p { worker_rings = update p.worker_rings target_core ring })
    else (false, p)

-- `fetch_add` on the counters of a core
abbrev pub count_packet : CoreMetrics → CoreMetrics
count_packet m = record m { processed_packets = add64 m.processed_packets 1 }

abbrev pub count_bytes : CoreMetrics → Packet → CoreMetrics
count_bytes m pkt = record m { total_bytes = add64 m.total_bytes (size pkt) }

-- The thread in place `k` of the list goes on to a point.
abbrev pub goto : WorkerPool → ℕ → Worker → Point → WorkerPool
goto p k w point = record p { worker_threads = set p.worker_threads k (record w { point = point }) }

-- The next access of `worker_loop` by the thread in place `k`, which is at `point`: the flag, then those of `pop`
-- (the head, the tail, the slot, and the new head), then the two counters.
unfoldable pub worker_loop : WorkerPool → ℕ → Worker → Point → WorkerPool
worker_loop p k w testing = goto p k w (if p.running then popping no_pop else ended)
worker_loop p k w (popping no_pop) =
    goto p k w (popping (head_loaded (p.worker_rings w.core_id).head))
worker_loop p k w (popping (head_loaded head)) =
    goto p k w
      (if head == (p.worker_rings w.core_id).tail then testing else popping (not_empty head))
worker_loop p k w (popping (not_empty head)) =
    let pkt = get_or (p.worker_rings w.core_id).buffer (slot 1024 head) no_packet in
    goto p k w (popping (item_read head pkt))
worker_loop p k w (popping (item_read head pkt)) =
    let ring = record (p.worker_rings w.core_id) { head = add64 head 1 } in
    goto (record p { worker_rings = update p.worker_rings w.core_id ring }) k w (popped pkt)
worker_loop p k w (popped pkt) =
    let m = count_packet (p.metrics w.core_id) in
    goto (record p { metrics = update p.metrics w.core_id m }) k w (counted pkt)
worker_loop p k w (counted pkt) =
    let m = count_bytes (p.metrics w.core_id) pkt in
    goto (record p { metrics = update p.metrics w.core_id m }) k w testing
worker_loop p k w ended = p

-- Stands for what lies outside the list of threads.
abbrev pub nobody : Worker
nobody = record { core_id = 0; point = ended }

abbrev pub thread : WorkerPool → ℕ → Worker
thread p k = get_or p.worker_threads k nobody
