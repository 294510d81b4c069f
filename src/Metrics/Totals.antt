-- ===== src/Metrics/Totals.antt =====
-- The counters over any sequence of calls, and what a snapshot shows.
use aether_plane.Base.{
  ℕ, suc, ◌+◌, ◌^◌, ◌<◌, ◌≡◌, refl, List, [], ◌∷◌, arith, ◌==◌, if◌then◌else◌, u64,
}
use aether_plane.Metrics.{MetricsCollector, record_rx, record_tx, record_drop, record_class_packet}

pub data Call : Type 0 where
  rx : ℕ → ℕ → Call
  tx : ℕ → Call
  dropped : Call
  class_packet : ℕ → Call

unfoldable pub step : MetricsCollector → Call → MetricsCollector
step m (rx bytes latency_ns) = record_rx m bytes latency_ns
step m (tx bytes) = record_tx m bytes
step m dropped = record_drop m
step m (class_packet i) = record_class_packet m i

unfoldable pub run : MetricsCollector → List Call → MetricsCollector
run m [] = m
run m (c ∷ cs) = run (step m c) cs

-- What the calls come to.
abbrev pub rx_calls : List Call → ℕ
rx_calls [] = 0
rx_calls (rx bytes latency_ns ∷ cs) = suc (rx_calls cs)
rx_calls (tx bytes ∷ cs) = rx_calls cs
rx_calls (dropped ∷ cs) = rx_calls cs
rx_calls (class_packet i ∷ cs) = rx_calls cs

abbrev pub rx_bytes : List Call → ℕ
rx_bytes [] = 0
rx_bytes (rx bytes latency_ns ∷ cs) = bytes + rx_bytes cs
rx_bytes (tx bytes ∷ cs) = rx_bytes cs
rx_bytes (dropped ∷ cs) = rx_bytes cs
rx_bytes (class_packet i ∷ cs) = rx_bytes cs

abbrev pub tx_calls : List Call → ℕ
tx_calls [] = 0
tx_calls (rx bytes latency_ns ∷ cs) = tx_calls cs
tx_calls (tx bytes ∷ cs) = suc (tx_calls cs)
tx_calls (dropped ∷ cs) = tx_calls cs
tx_calls (class_packet i ∷ cs) = tx_calls cs

abbrev pub drop_calls : List Call → ℕ
drop_calls [] = 0
drop_calls (rx bytes latency_ns ∷ cs) = drop_calls cs
drop_calls (tx bytes ∷ cs) = drop_calls cs
drop_calls (dropped ∷ cs) = suc (drop_calls cs)
drop_calls (class_packet i ∷ cs) = drop_calls cs

abbrev pub class_calls : ℕ → List Call → ℕ
class_calls k [] = 0
class_calls k (rx bytes latency_ns ∷ cs) = class_calls k cs
class_calls k (tx bytes ∷ cs) = class_calls k cs
class_calls k (dropped ∷ cs) = class_calls k cs
class_calls k (class_packet i ∷ cs) =
    let rest = class_calls k cs in if i == k then suc rest else rest

pub record Advances (m n : MetricsCollector) (cs : List Call) : Type 0 where
  pub rx_packets : n.rx_packets ≡ u64 (m.rx_packets + rx_calls cs)
  pub total_bytes : n.total_bytes ≡ u64 (m.total_bytes + rx_bytes cs)
  pub tx_packets : n.tx_packets ≡ u64 (m.tx_packets + tx_calls cs)
  pub drop_packets : n.drop_packets ≡ u64 (m.drop_packets + drop_calls cs)
  pub classes : (k : ℕ) → k < 5 → n.class_counts k ≡ u64 (m.class_counts k + class_calls k cs)
  pub last_rx : n.last_rx_packets ≡ m.last_rx_packets
  pub last_bytes : n.last_bytes ≡ m.last_bytes

-- The counters are words.
pub record AreWords (m : MetricsCollector) : Type 0 where
  pub rx_word : m.rx_packets < 2 ^ 64
  pub bytes_word : m.total_bytes < 2 ^ 64
  pub tx_word : m.tx_packets < 2 ^ 64
  pub drop_word : m.drop_packets < 2 ^ 64
  pub class_words : (k : ℕ) → k < 5 → m.class_counts k < 2 ^ 64

step-AreWords : (m : MetricsCollector) (c : Call) → AreWords m → AreWords (step m c)
unfolding step record_rx record_tx record_drop record_class_packet
step-AreWords m (rx bytes latency_ns) w = record {
  rx_word = omega arith;
  bytes_word = omega arith;
  tx_word = w.tx_word;
  drop_word = w.drop_word;
  class_words = w.class_words;
}
step-AreWords m (tx bytes) w = record {
  rx_word = w.rx_word;
  bytes_word = w.bytes_word;
  tx_word = omega arith;
  drop_word = w.drop_word;
  class_words = w.class_words;
}
step-AreWords m dropped w = record {
  rx_word = w.rx_word;
  bytes_word = w.bytes_word;
  tx_word = w.tx_word;
  drop_word = omega arith;
  class_words = w.class_words;
}
step-AreWords m (class_packet i) w = record {
  rx_word = ground (arith, w.rx_word);
  bytes_word = ground (arith, w.bytes_word);
  tx_word = ground (arith, w.tx_word);
  drop_word = ground (arith, w.drop_word);
  class_words = λ k h. ground (arith, w.class_words k h);
}

-- One more call before the others.
step-Advances :
    (m n : MetricsCollector) (c : Call) (cs : List Call)
    → AreWords m
    → Advances (step m c) n cs
    → Advances m n (c ∷ cs)
unfolding step record_rx record_tx record_drop record_class_packet
step-Advances m n (rx bytes latency_ns) cs w a = record {
  rx_packets = ground (arith, a.rx_packets);
  total_bytes = ground (arith, a.total_bytes);
  tx_packets = ground (arith, a.tx_packets);
  drop_packets = ground (arith, a.drop_packets);
  classes = λ k h. ground (arith, a.classes k h);
  last_rx = a.last_rx;
  last_bytes = a.last_bytes;
}
step-Advances m n (tx bytes) cs w a = record {
  rx_packets = ground (arith, a.rx_packets);
  total_bytes = ground (arith, a.total_bytes);
  tx_packets = ground (arith, a.tx_packets);
  drop_packets = ground (arith, a.drop_packets);
  classes = λ k h. ground (arith, a.classes k h);
  last_rx = a.last_rx;
  last_bytes = a.last_bytes;
}
step-Advances m n dropped cs w a = record {
  rx_packets = ground (arith, a.rx_packets);
  total_bytes = ground (arith, a.total_bytes);
  tx_packets = ground (arith, a.tx_packets);
  drop_packets = ground (arith, a.drop_packets);
  classes = λ k h. ground (arith, a.classes k h);
  last_rx = a.last_rx;
  last_bytes = a.last_bytes;
}
step-Advances m n (class_packet i) cs w a = record {
  rx_packets = ground (arith, a.rx_packets);
  total_bytes = ground (arith, a.total_bytes);
  tx_packets = ground (arith, a.tx_packets);
  drop_packets = ground (arith, a.drop_packets);
  classes = λ k h. ground (arith, a.classes k h);
  last_rx = ground (arith, a.last_rx);
  last_bytes = ground (arith, a.last_bytes);
}

-- Over any calls, from counters that are words: the counters of received, sent and dropped packets advance by the
-- number of their calls, the bytes by the sum of the received bytes and the counter of each of the five classes by its packets, all modulo
-- 2 ^ 64.
pub run-Advances : (cs : List Call) (m : MetricsCollector) → AreWords m → Advances m (run m cs) cs
unfolding run
run-Advances [] m w = record {
  rx_packets = ground (arith, w.rx_word);
  total_bytes = ground (arith, w.bytes_word);
  tx_packets = ground (arith, w.tx_word);
  drop_packets = ground (arith, w.drop_word);
  classes = λ k h. ground (arith, w.class_words k h);
  last_rx = refl;
  last_bytes = refl;
}
run-Advances (c ∷ cs) m w =
    step-Advances m (run (step m c) cs) c cs w (run-Advances cs (step m c) (step-AreWords m c w))
