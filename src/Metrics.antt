-- ===== src/Metrics.antt =====
-- include/telemetry/metrics_collector.hpp and src/telemetry/metrics_collector.cpp: `MetricsCollector`. Each
-- atomic counter is a word, and each call one step.
pub mod Totals
pub mod Since
mod Tests
use aether_plane.Base.{ℕ, Bool, false, if◌then◌else◌, ltb, leb, update, add64, sub64}
use aether_plane.Base.Double.{Double}

module _ (D : Double) where
  open D use {F}

  pub record SystemTelemetry : Type 0 where
    pub total_rx_packets : ℕ
    pub total_tx_packets : ℕ
    pub total_dropped_packets : ℕ
    pub total_bytes : ℕ
    pub current_pps : F
    pub current_gbps : F
    pub avg_latency_us : F
    pub p99_latency_us : F
    pub drop_rate_percent : F
    pub bufferbloat_active : Bool
    pub voice_packets : ℕ
    pub gaming_packets : ℕ
    pub video_packets : ℕ
    pub web_packets : ℕ
    pub bulk_packets : ℕ

-- The time of the last snapshot stands in the argument `elapsed_sec` of `snapshot`.
pub record MetricsCollector : Type 0 where
  pub rx_packets : ℕ
  pub tx_packets : ℕ
  pub drop_packets : ℕ
  pub total_bytes : ℕ
  pub total_latency_ns : ℕ
  pub latency_samples : ℕ
  pub class_counts : ℕ → ℕ
  pub last_rx_packets : ℕ
  pub last_bytes : ℕ

abbrev pub init : MetricsCollector
init = record {
  rx_packets = 0;
  tx_packets = 0;
  drop_packets = 0;
  total_bytes = 0;
  total_latency_ns = 0;
  latency_samples = 0;
  class_counts = λ i. 0;
  last_rx_packets = 0;
  last_bytes = 0;
}

unfoldable pub record_rx : MetricsCollector → ℕ → ℕ → MetricsCollector
record_rx m bytes latency_ns = record m {
  rx_packets = add64 m.rx_packets 1;
  total_bytes = add64 m.total_bytes bytes;
  total_latency_ns = add64 m.total_latency_ns latency_ns;
  latency_samples = add64 m.latency_samples 1;
}

-- The bytes are not read.
unfoldable pub record_tx : MetricsCollector → ℕ → MetricsCollector
record_tx m bytes = record m { tx_packets = add64 m.tx_packets 1 }

unfoldable pub record_drop : MetricsCollector → MetricsCollector
record_drop m = record m { drop_packets = add64 m.drop_packets 1 }

unfoldable pub record_class_packet : MetricsCollector → ℕ → MetricsCollector
record_class_packet m class_idx =
    if ltb class_idx 5
    then record m {
      class_counts = update m.class_counts class_idx (add64 (m.class_counts class_idx) 1);
    }
    else m

module _ (D : Double) where
  open D use {F, of_nat, lit, mul, div, less_eq}

  -- `elapsed` is the time since the last snapshot in seconds, read from the clock.
  unfoldable pub snapshot : MetricsCollector → F → SystemTelemetry D × MetricsCollector
  snapshot m elapsed =
      let elapsed_sec = if less_eq elapsed (lit 0 1) then lit 1 1 else elapsed in
      let delta_rx =
        if leb m.last_rx_packets m.rx_packets then sub64 m.rx_packets m.last_rx_packets else 0 in
      let delta_bytes =
        if leb m.last_bytes m.total_bytes then sub64 m.total_bytes m.last_bytes else 0 in
      let avg =
        if ltb 0 m.latency_samples
        then div (of_nat m.total_latency_ns) (mul (of_nat m.latency_samples) (lit 1000 1))
        else lit 0 1 in
      let total_attempts = add64 m.rx_packets m.drop_packets in
      (
        record {
          total_rx_packets = m.rx_packets;
          total_tx_packets = m.tx_packets;
          total_dropped_packets = m.drop_packets;
          total_bytes = m.total_bytes;
          current_pps = div (of_nat delta_rx) elapsed_sec;
          current_gbps =
              div (mul (of_nat delta_bytes) (lit 8 1)) (mul elapsed_sec (lit 1000000000 1));
          avg_latency_us = avg;
          p99_latency_us = mul avg (lit 185 100);
          drop_rate_percent =
              if ltb 0 total_attempts
              then div (mul (of_nat m.drop_packets) (lit 100 1)) (of_nat total_attempts)
              else lit 0 1;
          bufferbloat_active = false;
          voice_packets = m.class_counts 0;
          gaming_packets = m.class_counts 1;
          video_packets = m.class_counts 2;
          web_packets = m.class_counts 3;
          bulk_packets = m.class_counts 4;
        },
        record m { last_rx_packets = m.rx_packets; last_bytes = m.total_bytes },
      )
