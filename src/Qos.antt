-- ===== src/Qos.antt =====
-- include/qos/smart_scheduler.hpp and src/qos/smart_scheduler.cpp: `SmartQoSScheduler`, five queues with
-- strict priority for the first and deficit round robin over the others.
pub mod Congestion
pub mod Inv
pub mod Turn
pub mod Order
pub mod Runs
pub mod Stock
pub mod Work
pub mod Drain
pub mod Tests
use aether_plane.Base.{
  ℕ, zero, suc, ◌+◌, ◌-◌, ◌*◌, Bool, true, false, List, [], ◌∷◌, ◌++◌, leb, ◌==◌, if◌then◌else◌,
  length, update, u32, add32, sub32, sleb32, add64,
}
use aether_plane.Base.Double.{Double}
use aether_plane.Packet.{Packet, size, class_index, best_effort}

abbrev pub num_qos_queues : ℕ
num_qos_queues = 5

abbrev pub qos_queue_depth : ℕ
qos_queue_depth = 256

module _ (D : Double) where
  open D use {F}

  pub record QueueStats : Type 0 where
    pub enqueued_packets : ℕ
    pub dequeued_packets : ℕ
    pub dropped_packets : ℕ
    pub current_occupancy : ℕ
    pub current_delay_ms : F

  pub record Scheduler : Type 0 where
    pub queues : ℕ → List Packet
    pub weights : ℕ → ℕ
    pub deficits : ℕ → ℕ
    pub stats : ℕ → QueueStats
    pub link_rate_mbps : F
    pub bufferbloat_detected : Bool
    pub total_latency_ms : F

-- `weights_ = {100, 60, 40, 20, 5}`
abbrev pub initial_weights : ℕ → ℕ
initial_weights i =
    if i == 0 then 100 else if i == 1 then 60 else if i == 2 then 40 else if i == 3 then 20 else 5

module _ (D : Double) where
  open D use {F, of_nat, lit, mul, div, less}

  abbrev pub no_stats : QueueStats D
  no_stats = record {
    enqueued_packets = 0;
    dequeued_packets = 0;
    dropped_packets = 0;
    current_occupancy = 0;
    current_delay_ms = lit 0 1;
  }

  unfoldable pub init : Scheduler D
  init = record {
    queues = λ i. [];
    weights = initial_weights;
    deficits = λ i. 0;
    stats = λ i. no_stats;
    link_rate_mbps = lit 100 1;
    bufferbloat_detected = false;
    total_latency_ms = lit 0 1;
  }

  -- `std::max(1.0, mbps)`
  unfoldable pub set_wireless_link_rate_mbps : Scheduler D → F → Scheduler D
  set_wireless_link_rate_mbps s mbps = record s {
    link_rate_mbps = if less (lit 1 1) mbps then mbps else lit 1 1;
  }

  -- The bytes of a queue, summed in `size_t`.
  unfoldable pub queue_bytes : ℕ → List Packet → ℕ
  queue_bytes sum [] = sum
  queue_bytes sum (p ∷ q) = queue_bytes (add64 sum (size p)) q

  -- The outer loop: `n` queues to go, from queue `i` on.
  unfoldable pub total_bytes : ℕ → ℕ → (ℕ → List Packet) → ℕ → ℕ
  total_bytes zero i queues sum = sum
  total_bytes (suc n) i queues sum = total_bytes n (i + 1) queues (queue_bytes sum (queues i))

  -- `(bytes * 8.0) / (link_rate_mbps_ * 1000000.0)`
  abbrev pub delay_sec : F → ℕ → F
  delay_sec rate bytes = div (mul (of_nat bytes) (lit 8 1)) (mul rate (lit 1000000 1))

  -- The last loop of `update_congestion_state`.
  unfoldable pub refresh_delays : ℕ → ℕ → Scheduler D → Scheduler D
  refresh_delays zero i s = s
  refresh_delays (suc n) i s =
      let st = s.stats i in
      refresh_delays n (i + 1) (record s {
        stats = update s.stats i (record st {
          current_delay_ms =
              mul (delay_sec s.link_rate_mbps (queue_bytes 0 (s.queues i))) (lit 1000 1);
        });
      })

  unfoldable pub update_congestion_state : Scheduler D → Scheduler D
  update_congestion_state s =
      let latency =
        mul (delay_sec s.link_rate_mbps (total_bytes num_qos_queues 0 s.queues 0)) (lit 1000 1) in
      refresh_delays num_qos_queues 0
        (record s { total_latency_ms = latency; bufferbloat_detected = less (lit 25 1) latency })

  -- `static_cast<size_t>(pkt.meta().traffic_class)`, with the fallback for a value out of range
  abbrev pub queue_index : Packet → ℕ
  queue_index pkt =
      let q_idx = class_index pkt.meta.traffic_class in
      if leb num_qos_queues q_idx then class_index best_effort else q_idx

  unfoldable pub enqueue : Scheduler D → Packet → Bool × Scheduler D
  enqueue s pkt =
      let i = queue_index pkt in
      let q = s.queues i in
      let st = s.stats i in
      if leb qos_queue_depth (length q)
      then (
        false,
        record s {
          stats = update s.stats i (record st { dropped_packets = add64 st.dropped_packets 1 });
        },
      )
      else (let q' = q ++ (pkt ∷ []) in
          (
            true,
            update_congestion_state (record s {
              queues = update s.queues i q';
              stats = update s.stats i (record st {
                enqueued_packets = add64 st.enqueued_packets 1;
                current_occupancy = length q';
              });
            }),
          ))

  -- Taking the front packet of queue `i`, whose rest is `rest`.
  unfoldable pub take_front : Scheduler D → ℕ → List Packet → Scheduler D
  take_front s i rest =
      let st = s.stats i in
      record s {
        queues = update s.queues i rest;
        stats = update s.stats i (record st {
          dequeued_packets = add64 st.dequeued_packets 1;
          current_occupancy = length rest;
        });
      }

  -- One turn of the loop at queue `i`, which holds `q`: its deficit is raised, and its front packet sent if
  -- the deficit covers it. The `while` returns in its first round.
  unfoldable pub serve : Scheduler D → ℕ → List Packet → Packet → Bool × Packet × Scheduler D
  serve s i [] out = (false, out, record s { deficits = update s.deficits i 0 })
  serve s i (p ∷ rest) out =
      let deficit = add32 (s.deficits i) (s.weights i) in
      let bytes = u32 (size p) in
      if sleb32 bytes deficit
      then (
        true,
        p,
        take_front (record s { deficits = update s.deficits i (sub32 deficit bytes) }) i rest,
      )
      else (false, out, record s { deficits = update s.deficits i deficit })

  -- `for (size_t i = 1; i < NUM_QOS_QUEUES; ++i)`: `n` queues to go, from queue `i` on.
  unfoldable pub round_robin : ℕ → ℕ → Scheduler D → Packet → Bool × Packet × Scheduler D
  round_robin zero i s out = (false, out, s)
  round_robin (suc n) i s out =
      let (sent, p, s') = serve s i (s.queues i) out in
      let rest = round_robin n (i + 1) s' out in if sent then (true, p, s') else rest

  -- By the first queue: strict priority. `out` is the reference parameter.
  unfoldable pub dequeue_from : Scheduler D → List Packet → Packet → Bool × Packet × Scheduler D
  dequeue_from s [] out = round_robin 4 1 s out
  dequeue_from s (p ∷ rest) out = (true, p, take_front s 0 rest)

  unfoldable pub dequeue : Scheduler D → Packet → Bool × Packet × Scheduler D
  dequeue s out = dequeue_from s (s.queues 0) out
