-- ===== src/Metrics/Since.antt =====
-- What a snapshot shows of the calls since the last one.
use aether_plane.Base.{◌+◌, ◌^◌, ◌<◌, ◌≡◌, ap, List, arith, if◌then◌else◌, leb, sub64}
use aether_plane.Base.Double.{Double}
use aether_plane.Metrics.{MetricsCollector, snapshot}
use aether_plane.Metrics.Totals.{Call, run, rx_calls, rx_bytes, AreWords, run-Advances}

module _ (D : Double) where
  -- Between two snapshots, from counters that are words and without one that wraps around: the second snapshot
  -- shows the packets received since the first over the elapsed time, and the packets and bytes received in
  -- total, whatever calls came in between.
  pub snapshot-since :
      (m : MetricsCollector) (cs : List Call) (e1 e2 : D.F)
      → AreWords m
      → m.rx_packets + rx_calls cs < 2 ^ 64
      → m.total_bytes + rx_bytes cs < 2 ^ 64
      → let t = (snapshot D (run (snapshot D m e1).1 cs) e2).0 in
        let seconds = if D.less_eq e2 (D.lit 0 1) then D.lit 1 1 else e2 in
        (t.current_pps ≡ D.div (D.of_nat (rx_calls cs)) seconds)
        × (t.current_gbps
            ≡ D.div
                (D.mul (D.of_nat (rx_bytes cs)) (D.lit 8 1))
                (D.mul seconds (D.lit 1000000000 1)))
        × (t.total_rx_packets ≡ m.rx_packets + rx_calls cs)
        × (t.total_bytes ≡ m.total_bytes + rx_bytes cs)
  unfolding snapshot
  snapshot-since m cs e1 e2 w fits fits_bytes =
      let m1 = (snapshot D m e1).1 in
      let w1 : AreWords m1 = record {
        rx_word = w.rx_word;
        bytes_word = w.bytes_word;
        tx_word = w.tx_word;
        drop_word = w.drop_word;
        class_words = w.class_words;
      } in
      let a = run-Advances cs m1 w1 in
      let m2 = run m1 cs in
      let seconds = if D.less_eq e2 (D.lit 0 1) then D.lit 1 1 else e2 in
      let pps : (if leb m2.last_rx_packets m2.rx_packets
            then sub64 m2.rx_packets m2.last_rx_packets
            else 0)
          ≡ rx_calls cs =
        ground (arith, a.rx_packets, a.last_rx) in
      let bytes : (if leb m2.last_bytes m2.total_bytes
            then sub64 m2.total_bytes m2.last_bytes
            else 0)
          ≡ rx_bytes cs =
        ground (arith, a.total_bytes, a.last_bytes) in
      (
        ap (λ n. D.div (D.of_nat n) seconds) pps,
        ap (λ n. D.div (D.mul (D.of_nat n) (D.lit 8 1)) (D.mul seconds (D.lit 1000000000 1))) bytes,
        ground (arith, a.rx_packets),
        ground (arith, a.total_bytes),
      )
