-- ===== src/Codel.antt =====
-- include/qos/fq_codel.hpp and src/qos/fq_codel.cpp: `FQCoDelScheduler`: the flow of a packet, its queue and the
-- drop decision.
pub mod Interval
pub mod Enqueue
pub mod Dequeue
pub mod Sound
pub mod Deficit
pub mod Round
pub mod Candidate
pub mod Ends
pub mod Arrive
pub mod Runs
pub mod Order
mod Tests
use aether_plane.Base.{
  ℕ, ◌+◌, ◌-◌, ◌*◌, ◌%◌, ◌<<<◌, ◌>>>◌, Bool, true, false, ◌||◌, List, [], ◌∷◌, ◌++◌, bit_and,
  bit_xor, ltb, leb, ◌==◌, if◌then◌else◌, length, update, u32, add64,
}
use aether_plane.Base.Double.{Double}
use aether_plane.Packet.{Packet, PacketMeta, size}

abbrev pub num_flows : ℕ
num_flows = 1024

abbrev pub quantum : ℕ
quantum = 1514

abbrev pub target_ns : ℕ
target_ns = 5000000

abbrev pub interval_ns : ℕ
interval_ns = 100000000

pub record CodelState : Type 0 where
  pub first_above_time_ns : ℕ
  pub drop_next_ns : ℕ
  pub count : ℕ
  pub dropping : Bool

-- `deficit` is the bit pattern of an `int32_t`.
pub record FlowQueue : Type 0 where
  pub flow_id : ℕ
  pub deficit : ℕ
  pub packets : List Packet
  pub codel : CodelState
  pub total_bytes : ℕ
  pub drops : ℕ
  pub is_sparse : Bool

-- The constructor's flow `i`.
abbrev pub new_flow : ℕ → FlowQueue
new_flow i = record {
  flow_id = i;
  deficit = quantum;
  packets = [];
  codel = record { first_above_time_ns = 0; drop_next_ns = 0; count = 0; dropping = false };
  total_bytes = 0;
  drops = 0;
  is_sparse = true;
}

module _ (D : Double) where
  open D use {F}

  pub record FqCodel : Type 0 where
    pub flows : ℕ → FlowQueue
    pub new_flows : List ℕ
    pub old_flows : List ℕ
    pub link_rate_mbps : F
    pub bufferbloat_active : Bool
    pub current_delay_ms : F
    pub total_drops : ℕ

-- `h += byte; h += (h << 10); h ^= (h >> 6);`
unfoldable pub add_byte : ℕ → ℕ → ℕ
add_byte h byte =
    let h1 = u32 (h + byte) in let h2 = u32 (h1 + u32 (h1 <<< 10)) in bit_xor h2 (h2 >>> 6)

-- `(x >> (i * 8)) & 0xFF`
abbrev pub byte_of : ℕ → ℕ → ℕ
byte_of x i = bit_and (x >>> (i * 8)) 0xFF

unfoldable pub add_four_bytes : ℕ → ℕ → ℕ
add_four_bytes h x =
    add_byte (add_byte (add_byte (add_byte h (byte_of x 0)) (byte_of x 1)) (byte_of x 2))
      (byte_of x 3)

unfoldable pub add_two_bytes : ℕ → ℕ → ℕ
add_two_bytes h x = add_byte (add_byte h (byte_of x 0)) (byte_of x 1)

unfoldable pub hash_flow : PacketMeta → ℕ
hash_flow m =
    let h = add_four_bytes (add_four_bytes 0 m.src_ip) m.dest_ip in
    let h' = add_byte (add_two_bytes (add_two_bytes h m.src_port) m.dest_port) m.l3_proto in
    let h1 = u32 (h' + u32 (h' <<< 3)) in
    let h2 = bit_xor h1 (h1 >>> 11) in let h3 = u32 (h2 + u32 (h2 <<< 15)) in h3 % num_flows

-- `now_ns - timestamp_ns`, or 0
abbrev pub sojourn : Packet → ℕ → ℕ
sojourn pkt now_ns = if ltb pkt.meta.timestamp_ns now_ns then now_ns - pkt.meta.timestamp_ns else 0

-- Setting `flow.codel.first_above_time_ns`.
abbrev pub above_since : FlowQueue → ℕ → FlowQueue
above_since flow t = record flow { codel = record (flow.codel) { first_above_time_ns = t } }

-- The decision and the flow afterwards; `codel_should_drop` sets the delay too.
unfoldable pub codel_decision : FlowQueue → Packet → ℕ → Bool × FlowQueue
codel_decision flow pkt now_ns =
    if ltb (sojourn pkt now_ns) target_ns || ltb flow.total_bytes quantum
    then (false, above_since flow 0)
    else if flow.codel.first_above_time_ns == 0
    then (false, above_since flow (add64 now_ns interval_ns))
    else if leb flow.codel.first_above_time_ns now_ns
    then (true, flow)
    else (false, flow)

module _ (D : Double) where
  open D use {F, of_nat, lit, div, sqrt, less, truncate}

  unfoldable pub init : FqCodel D
  init = record {
    flows = new_flow;
    new_flows = [];
    old_flows = [];
    link_rate_mbps = lit 100 1;
    bufferbloat_active = false;
    current_delay_ms = lit 0 1;
    total_drops = 0;
  }

  unfoldable pub set_link_rate_mbps : FqCodel D → F → FqCodel D
  set_link_rate_mbps s mbps = record s {
    link_rate_mbps = if less (lit 1 1) mbps then mbps else lit 1 1;
  }

  unfoldable pub control_law : ℕ → ℕ → ℕ
  control_law t count =
      if count == 0
      then add64 t interval_ns
      else add64 t (truncate (div (of_nat interval_ns) (sqrt (of_nat count))))

  -- On flow `i`.
  unfoldable pub codel_should_drop : FqCodel D → ℕ → Packet → ℕ → Bool × FqCodel D
  codel_should_drop s i pkt now_ns =
      let (decision, flow) = codel_decision (s.flows i) pkt now_ns in
      (
        decision,
        record s {
          flows = update s.flows i flow;
          current_delay_ms = div (of_nat (sojourn pkt now_ns)) (lit 1000000 1);
        },
      )

  -- The flow gets its quantum and its place among the new flows when it was empty.
  unfoldable pub enqueue : FqCodel D → Packet → Bool × FqCodel D
  enqueue s pkt =
      let i = hash_flow pkt.meta in
      let flow = s.flows i in
      let fresh = length flow.packets == 0 in
      let packets = flow.packets ++ (pkt ∷ []) in
      (
        true,
        record s {
          new_flows = if fresh then s.new_flows ++ (i ∷ []) else s.new_flows;
          flows = update s.flows i (record flow {
            deficit = if fresh then quantum else flow.deficit;
            packets = packets;
            total_bytes = add64 flow.total_bytes (size pkt);
            is_sparse = leb (length packets) 4;
          });
        },
      )
