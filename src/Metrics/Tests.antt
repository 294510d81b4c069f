-- ===== src/Metrics/Tests.antt =====
-- A few calls on new counters, with whole numbers for doubles.
use aether_plane.Base.{◌+◌, ◌≡◌, refl, List, [], ◌∷◌, arith, if◌then◌else◌}
use aether_plane.Base.Double.{whole_numbers}
use aether_plane.Metrics.{init, snapshot, record_rx, record_tx, record_drop, record_class_packet}
use aether_plane.Metrics.Totals.{
  Call, rx, tx, dropped, class_packet, step, run, rx_calls, rx_bytes, AreWords,
}
use aether_plane.Metrics.Since.{snapshot-since}

abbrev calls : List Call
calls = rx 128 450 ∷ class_packet 3 ∷ tx 128 ∷ dropped ∷ class_packet 9 ∷ rx 64 450 ∷ []

init-AreWords : AreWords init
init-AreWords = record {
  rx_word = omega arith;
  bytes_word = omega arith;
  tx_word = omega arith;
  drop_word = omega arith;
  class_words = λ k h. omega arith;
}

totals_test : ((run init calls).total_bytes ≡ 192) × ((run init calls).class_counts 3 ≡ 1)
unfolding run step record_rx record_tx record_drop record_class_packet
totals_test = (refl, refl)

snapshot-since_example :
    let D = whole_numbers in
    let t = (snapshot D (run (snapshot D init 1).1 calls) 2).0 in
    let seconds = if D.less_eq 2 (D.lit 0 1) then D.lit 1 1 else 2 in
    (t.current_pps ≡ D.div (D.of_nat (rx_calls calls)) seconds)
    × (t.current_gbps
        ≡ D.div
            (D.mul (D.of_nat (rx_bytes calls)) (D.lit 8 1))
            (D.mul seconds (D.lit 1000000000 1)))
    × (t.total_rx_packets ≡ init.rx_packets + rx_calls calls)
    × (t.total_bytes ≡ init.total_bytes + rx_bytes calls)
snapshot-since_example =
    snapshot-since whole_numbers init calls 1 2 init-AreWords (omega arith) (omega arith)
