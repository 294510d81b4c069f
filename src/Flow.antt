-- ===== src/Flow.antt =====
-- include/qos/flow_classifier.hpp and src/qos/flow_classifier.cpp: `FlowClassifier`, which tracks the packets
-- of each flow and decides its traffic class.
pub mod Key
pub mod History
pub mod Decide
mod Tests
use aether_plane.Base.{
  ℕ, ◌+◌, ◌-◌, ◌/◌, Bool, true, false, ◌&&◌, ◌||◌, List, [], ◌∷◌, ◌++◌, Option, none, some, ltb,
  ◌==◌, if◌then◌else◌, length, u16, u64, add32, add64,
}
use aether_plane.Base.Double.{Double}
use aether_plane.Base.Text.{decimal}
use aether_plane.Base.Table.{find_key, put_key}
use aether_plane.Base.Windows.{push_window}
use aether_plane.Packet.{
  Packet, PacketMeta, TrafficClass, size, voice_control, gaming_low_lat, streaming_video,
  best_effort, bulk_background, ipproto_icmp, ipproto_tcp, ipproto_udp,
}

module _ (D : Double) where
  open D use {F}

  pub record FlowStats : Type 0 where
    pub flow_id : ℕ
    pub src_ip : ℕ
    pub dest_ip : ℕ
    pub src_port : ℕ
    pub dest_port : ℕ
    pub protocol : ℕ
    pub start_time_ns : ℕ
    pub last_seen_ns : ℕ
    pub packet_count : ℕ
    pub byte_count : ℕ
    pub inter_arrival_times_us : List ℕ
    pub packet_sizes : List ℕ
    pub mean_iat_us : F
    pub stddev_iat_us : F
    pub mean_packet_size : F
    pub stddev_packet_size : F
    pub burstiness_ratio : F
    pub predicted_class : TrafficClass
    pub confidence : F

  pub record FlowClassifier : Type 0 where
    pub flow_table : List (List ℕ × FlowStats)
    pub next_flow_id : ℕ

-- `src_ip:src_port<->dest_ip:dest_port:l3_proto`
unfoldable pub make_flow_key : PacketMeta → List ℕ
make_flow_key m =
    decimal m.src_ip
    ++ (58 ∷ decimal m.src_port
        ++ (60 ∷ 45 ∷ 62 ∷ decimal m.dest_ip
            ++ (58 ∷ decimal m.dest_port ++ (58 ∷ decimal m.l3_proto))))

-- The gap to the packet before, in microseconds, and 1 when the clock did not advance.
abbrev pub gap_us : ℕ → ℕ → ℕ
gap_us now last_seen = if ltb last_seen now then (now - last_seen) / 1000 else 1

module _ (D : Double) where
  open D use {F, of_nat, lit, add, sub, mul, div, sqrt, less, less_eq}

  abbrev pub init : FlowClassifier D
  init = record { flow_table = []; next_flow_id = 1 }

  -- `for (auto x : xs) sum += x;`
  unfoldable pub sum_of : F → List ℕ → F
  sum_of sum [] = sum
  sum_of sum (x ∷ xs) = sum_of (add sum (of_nat x)) xs

  -- `for (auto x : xs) var += (x - mean) * (x - mean);`
  unfoldable pub squares_of : F → F → List ℕ → F
  squares_of mean var [] = var
  squares_of mean var (x ∷ xs) =
      squares_of mean (add var (mul (sub (of_nat x) mean) (sub (of_nat x) mean))) xs

  abbrev pub mean_of : List ℕ → F
  mean_of xs = div (sum_of (lit 0 1) xs) (of_nat (length xs))

  abbrev pub stddev_of : List ℕ → F
  stddev_of xs = sqrt (div (squares_of (mean_of xs) (lit 0 1) xs) (of_nat (length xs)))

  unfoldable pub iat_features : FlowStats D → FlowStats D
  iat_features st =
      let xs = st.inter_arrival_times_us in
      if ltb 1 (length xs)
      then record st { mean_iat_us = mean_of xs; stddev_iat_us = stddev_of xs }
      else st

  unfoldable pub size_features : FlowStats D → FlowStats D
  size_features st =
      let xs = st.packet_sizes in
      if length xs == 0
      then st
      else record st { mean_packet_size = mean_of xs; stddev_packet_size = stddev_of xs }

  unfoldable pub burst_feature : FlowStats D → FlowStats D
  burst_feature st =
      if less (lit 0 1) st.mean_iat_us
      then record st { burstiness_ratio = div st.stddev_iat_us st.mean_iat_us }
      else st

  unfoldable pub compute_statistical_features : FlowStats D → FlowStats D
  compute_statistical_features st = burst_feature (size_features (iat_features st))

  -- The branch of `track_and_update` for a new flow.
  unfoldable pub new_flow : ℕ → Packet → FlowStats D
  new_flow id pkt = record {
    flow_id = id;
    src_ip = pkt.meta.src_ip;
    dest_ip = pkt.meta.dest_ip;
    src_port = pkt.meta.src_port;
    dest_port = pkt.meta.dest_port;
    protocol = pkt.meta.l3_proto;
    start_time_ns = pkt.meta.timestamp_ns;
    last_seen_ns = pkt.meta.timestamp_ns;
    packet_count = 1;
    byte_count = u64 (size pkt);
    inter_arrival_times_us = [];
    packet_sizes = u16 (size pkt) ∷ [];
    mean_iat_us = lit 0 1;
    stddev_iat_us = lit 0 1;
    mean_packet_size = lit 0 1;
    stddev_packet_size = lit 0 1;
    burstiness_ratio = lit 0 1;
    predicted_class = best_effort;
    confidence = lit 0 1;
  }

  -- The branch for a known flow, up to the statistics.
  unfoldable pub count_packet : FlowStats D → Packet → FlowStats D
  count_packet st pkt = record st {
    last_seen_ns = pkt.meta.timestamp_ns;
    packet_count = add64 st.packet_count 1;
    byte_count = add64 st.byte_count (size pkt);
    inter_arrival_times_us =
        push_window 50 st.inter_arrival_times_us (gap_us pkt.meta.timestamp_ns st.last_seen_ns);
    packet_sizes = push_window 50 st.packet_sizes (u16 (size pkt));
  }

  -- The statistics of the flow, and the next flow id.
  unfoldable pub updated_flow : Option (FlowStats D) → ℕ → Packet → FlowStats D × ℕ
  updated_flow none id pkt = (new_flow id pkt, add32 id 1)
  updated_flow (some st) id pkt = (compute_statistical_features (count_packet st pkt), id)

  -- The reference that the code returns is the entry under the packet's key.
  unfoldable pub track_and_update : FlowClassifier D → Packet → FlowStats D × FlowClassifier D
  track_and_update c pkt =
      let key = make_flow_key pkt.meta in
      let (st, id) = updated_flow (find_key key c.flow_table) c.next_flow_id pkt in
      (st, record { flow_table = put_key key st c.flow_table; next_flow_id = id })

  abbrev pub predict : FlowStats D → TrafficClass → F → TrafficClass × FlowStats D
  predict st class confidence =
      (class, record st { predicted_class = class; confidence = confidence })

  unfoldable pub classify_flow : FlowStats D → TrafficClass × FlowStats D
  classify_flow st =
      if (st.src_port == 53)
        || (st.dest_port == 53)
        || (st.src_port == 5060)
        || (st.dest_port == 5060)
        || (st.protocol == 0xFD)
        || (st.protocol == ipproto_icmp)
      then predict st voice_control (lit 99 100)
      else if (st.protocol == ipproto_udp)
          && less st.mean_packet_size (lit 300 1)
          && less st.burstiness_ratio (lit 12 10)
      then predict st gaming_low_lat (lit 94 100)
      else if less (lit 1000 1) st.mean_packet_size
          && less st.burstiness_ratio (lit 8 10)
          && ltb 10 st.packet_count
      then predict st streaming_video (lit 91 100)
      else if (st.protocol == ipproto_tcp)
          && less_eq (lit 1400 1) st.mean_packet_size
          && less_eq (lit 15 10) st.burstiness_ratio
      then predict st bulk_background (lit 88 100)
      else predict st best_effort (lit 85 100)

  -- `classify_flow` on the reference that `track_and_update` returned: the entry in the table changes with it.
  unfoldable pub track_and_classify : FlowClassifier D → Packet → TrafficClass × FlowClassifier D
  track_and_classify c pkt =
      let (st, c') = track_and_update c pkt in
      let (class, st') = classify_flow st in
      (class, record c' { flow_table = put_key (make_flow_key pkt.meta) st' c'.flow_table })

  unfoldable pub total_flows : FlowClassifier D → ℕ
  total_flows c = length c.flow_table
