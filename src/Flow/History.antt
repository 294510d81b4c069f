-- ===== src/Flow/History.antt =====
-- The flow table over a history of packets, newest first, against the history itself.
use aether_plane.Base.{ℕ, List, [], ◌∷◌, ◌++◌, Option, none, some, length, u16, u64, add64}
use aether_plane.Base.Double.{Double}
use aether_plane.Base.Windows.{recent, push_window}
use aether_plane.Packet.{Packet, PacketMeta, size}
use aether_plane.Packet.Flows.{sum_sizes}
use aether_plane.Flow.{FlowStats, FlowClassifier, gap_us, track_and_classify}

-- What the statistics count, without the features and the prediction.
pub record Counts : Type 0 where
  pub src_ip : ℕ
  pub dest_ip : ℕ
  pub src_port : ℕ
  pub dest_port : ℕ
  pub protocol : ℕ
  pub start_time_ns : ℕ
  pub last_seen_ns : ℕ
  pub packet_count : ℕ
  pub byte_count : ℕ
  pub inter_arrival_times_us : List ℕ
  pub packet_sizes : List ℕ

-- The packet sizes of a flow, the oldest first.
abbrev pub sizes_of : List Packet → List ℕ
sizes_of [] = []
sizes_of (p ∷ q) = sizes_of q ++ (u16 (size p) ∷ [])

-- The gaps between the packets of a flow, the oldest first.
abbrev pub gaps_from : Packet → List Packet → List ℕ
gaps_from p [] = []
gaps_from p (q ∷ r) = gaps_from q r ++ (gap_us p.meta.timestamp_ns q.meta.timestamp_ns ∷ [])

abbrev pub oldest : Packet → List Packet → PacketMeta
oldest p [] = p.meta
oldest p (q ∷ r) = oldest q r

-- What should be counted for a flow of these packets: the sums modulo 2 ^ 64, and windows of the last 50.
abbrev pub expected : List Packet → Option Counts
expected [] = none
expected (p ∷ q) =
    let o = oldest p q in
    some (record {
      src_ip = o.src_ip;
      dest_ip = o.dest_ip;
      src_port = o.src_port;
      dest_port = o.dest_port;
      protocol = o.l3_proto;
      start_time_ns = o.timestamp_ns;
      last_seen_ns = p.meta.timestamp_ns;
      packet_count = u64 (length (p ∷ q));
      byte_count = u64 (sum_sizes (p ∷ q));
      inter_arrival_times_us = recent 50 (gaps_from p q);
      packet_sizes = recent 50 (sizes_of (p ∷ q));
    })

abbrev step_counts : Counts → Packet → Counts
step_counts c pkt = record c {
  last_seen_ns = pkt.meta.timestamp_ns;
  packet_count = add64 c.packet_count 1;
  byte_count = add64 c.byte_count (size pkt);
  inter_arrival_times_us =
      push_window 50 c.inter_arrival_times_us (gap_us pkt.meta.timestamp_ns c.last_seen_ns);
  packet_sizes = push_window 50 c.packet_sizes (u16 (size pkt));
}

abbrev or_counts : Option Counts → Counts → Counts
or_counts none c = c
or_counts (some d) c = d

module _ (D : Double) where
  -- `track_and_classify` on each packet of the history, the oldest first.
  unfoldable pub after : FlowClassifier D → List Packet → FlowClassifier D
  after c [] = c
  after c (p ∷ earlier) = (track_and_classify D (after c earlier) p).1

  abbrev pub counts : FlowStats D → Counts
  counts st = record {
    src_ip = st.src_ip;
    dest_ip = st.dest_ip;
    src_port = st.src_port;
    dest_port = st.dest_port;
    protocol = st.protocol;
    start_time_ns = st.start_time_ns;
    last_seen_ns = st.last_seen_ns;
    packet_count = st.packet_count;
    byte_count = st.byte_count;
    inter_arrival_times_us = st.inter_arrival_times_us;
    packet_sizes = st.packet_sizes;
  }

  abbrev pub counts? : Option (FlowStats D) → Option Counts
  counts? none = none
  counts? (some st) = some (counts st)
