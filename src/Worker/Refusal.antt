-- ===== src/Worker/Refusal.antt =====
-- When `dispatch_packet` of src/core/worker_pool.cpp refuses a packet.
use aether_plane.Base.{ℕ, ◌<◌, ◌≡◌, true, false, arith, ltb, lt→ltb, ◌↔◌}
use aether_plane.Packet.{Packet}
use aether_plane.Ring.Inv.{IsValid, count, push-false_iff}
use aether_plane.Rss.{dispatch_core}
use aether_plane.Rss.Symmetry.{dispatch_core-lt}
use aether_plane.Worker.{WorkerPool, dispatch_packet}

-- On a pool with a worker for each core of its dispatcher, at least one, and valid rings, `dispatch_packet` refuses a
-- packet exactly when the ring of its core holds 1024 packets: the core is always one of the workers.
pub dispatch_packet-false_iff :
    (p : WorkerPool) (pkt : Packet)
    → p.rss_dispatcher.num_cores ≡ p.num_workers
    → 0 < p.num_workers
    → ((i : ℕ) → IsValid 10 (p.worker_rings i))
    → ((dispatch_packet p pkt).0 ≡ false)
      ↔ (count (p.worker_rings (dispatch_core p.rss_dispatcher pkt)) ≡ 1024)
unfolding dispatch_packet
dispatch_packet-false_iff p pkt cores some_worker valid =
    let i = dispatch_core p.rss_dispatcher pkt in
    let in_range : ltb i p.num_workers ≡ true =
      lt→ltb i p.num_workers
        (omega (arith, cores, dispatch_core-lt p.rss_dispatcher pkt (omega arith))) in
    rw in_range (push-false_iff 10 (omega arith) pkt (valid i))
