-- ===== src/Pipeline/Ledger.antt =====
-- Where the frames are, from stage to stage of the data path.
use aether_plane.Base.{ℕ, ◌+◌, ◌<◌, ◌≡◌, Bool, true, false, arith, add64, u64}
use aether_plane.Base.Double.{Double}
use aether_plane.Base.Sums.{sum_over, sum_over-update}
use aether_plane.Packet.{Packet, TrafficClass, class_index}
use aether_plane.Filter.{FilterVerdict, accept, drop, reject, qos_queue}
use aether_plane.Xdp.{XdpAction, xdp_drop, xdp_pass, xdp_aborted, xdp_tx, xdp_redirect}
use aether_plane.Metrics.{MetricsCollector, record_rx, record_tx, record_class_packet}
use aether_plane.Netdev.{no_packet}
use aether_plane.Netdev.Counters.{Balances, enqueue_tx-Balances}
use aether_plane.Flow.{track_and_classify}
use aether_plane.Qos
use aether_plane.Qos.Stock.{held, refused, Takes, enqueue-stock, dequeue-Takes}
use aether_plane.Filter
use aether_plane.Xdp
use aether_plane.Pipeline.{DataPath, transmit, schedule, classify, chosen_class, transmit_found}

abbrev pub same_count : ℕ → ℕ
same_count n = n

-- The packets counted in a class.
unfoldable pub class_total : MetricsCollector → ℕ
class_total m = sum_over same_count 5 m.class_counts

class_index-lt : (c : TrafficClass) → class_index c < 5
class_index-lt c = ground arith

record_class_packet-total :
    (m : MetricsCollector) (i : ℕ)
    → i < 5
    → u64 (class_total (record_class_packet m i)) ≡ u64 (class_total m + 1)
unfolding class_total record_class_packet
record_class_packet-total m i h =
    ground (arith, sum_over-update same_count 5 m.class_counts i (add64 (m.class_counts i) 1) h)

pub record_class_packet-others :
    (m : MetricsCollector) (i : ℕ)
    → let m' = record_class_packet m i in
      (m'.rx_packets ≡ m.rx_packets)
      × (m'.tx_packets ≡ m.tx_packets)
      × (m'.drop_packets ≡ m.drop_packets)
unfolding record_class_packet
record_class_packet-others m i = ground arith

module _ (D : Double) where
  -- The accounts of `n` frames. A frame under way may be classified already (`c`), and received (`k`).
  pub record Ledger (n c k : ℕ) (s : DataPath D) : Type 0 where
    -- Each frame was dropped before the scheduler, or received.
    pub made : u64 (s.metrics.rx_packets + s.metrics.drop_packets) ≡ u64 n
    -- Each received frame went through the classifier, and into the scheduler.
    pub classified : u64 (class_total s.metrics) ≡ u64 (s.metrics.rx_packets + c)
    pub scheduled :
        u64 (s.metrics.tx_packets + held D s.qos_scheduler + refused D s.qos_scheduler)
        ≡ u64 s.metrics.rx_packets
    -- Each frame counted as sent is in the transmit ring, or was dropped there.
    pub transmitted :
        Balances s.wlan0.tx_ring s.wlan0.tx_packets s.wlan0.tx_drops s.metrics.tx_packets 0
    pub looped : s.metrics.rx_packets ≡ u64 (s.loop_count + k)

  -- The accounts do not read the filter and the XDP hook.
  pub others-Ledger :
      (s : DataPath D) (xdp : Xdp.XdpHookEngine) (netfilter : Filter.FilterEngine) (n : ℕ)
      → Ledger n 0 0 s
      → Ledger n 0 0 (record s { xdp = xdp; netfilter = netfilter })
  others-Ledger s xdp netfilter n l = record {
    made = l.made;
    classified = l.classified;
    scheduled = l.scheduled;
    transmitted = l.transmitted;
    looped = l.looped;
  }

  pub classify-Ledger :
      (s : DataPath D) (pkt : Packet) (verd : FilterVerdict) (class : TrafficClass) (n : ℕ)
      → Ledger n 0 0 s
      → Ledger n 1 0 (classify D s pkt verd class).1
  unfolding classify
  classify-Ledger s pkt verd class n l =
      let i = class_index (chosen_class D verd class (track_and_classify D s.classifier pkt).0) in
      let (rx, tx, drops) = record_class_packet-others s.metrics i in
      let again : Balances s.wlan0.tx_ring s.wlan0.tx_packets s.wlan0.tx_drops
          (record_class_packet s.metrics i).tx_packets 0 =
        record {
          valid = l.transmitted.valid;
          counted = omega (arith, l.transmitted.counted, tx);
          kept = l.transmitted.kept;
        } in
      record {
        made = omega (arith, l.made, rx, drops);
        classified = omega (
          arith,
          l.classified,
          rx,
          record_class_packet-total s.metrics i (
              class_index-lt (chosen_class D verd class (track_and_classify D s.classifier pkt).0)),
        );
        scheduled = omega (arith, l.scheduled, rx, tx);
        transmitted = again;
        looped = omega (arith, l.looped, rx);
      }

  pub schedule-Ledger :
      (s : DataPath D) (pkt : Packet) (n : ℕ)
      → Ledger n 1 0 s
      → Ledger (n + 1) 0 1 (schedule D s pkt)
  unfolding schedule record_rx class_total
  schedule-Ledger s pkt n l = record {
    made = omega (arith, l.made);
    classified = omega (arith, l.classified);
    scheduled = omega (arith, l.scheduled, enqueue-stock D s.qos_scheduler pkt);
    transmitted = l.transmitted;
    looped = omega (arith, l.looped);
  }

  transmit_found-Ledger :
      (s : DataPath D) (n k : ℕ) (r : Bool × Packet × Qos.Scheduler D)
      → Ledger n 0 k s
      → Takes D s.qos_scheduler r
      → Ledger n 0 k (transmit_found D s r)
  unfolding record_tx class_total
  transmit_found-Ledger s n k (true, pkt, q) l t =
      let sent = enqueue_tx-Balances s.wlan0 pkt s.metrics.tx_packets 0 l.transmitted in
      record {
        made = l.made;
        classified = l.classified;
        scheduled = omega (arith, l.scheduled, t.held_then, t.refused_same);
        transmitted = record {
          valid = sent.valid;
          counted = omega (arith, sent.counted);
          kept = sent.kept;
        };
        looped = l.looped;
      }
  transmit_found-Ledger s n k (false, pkt, q) l t = record {
    made = l.made;
    classified = l.classified;
    scheduled = omega (arith, l.scheduled, t.held_then, t.refused_same);
    transmitted = l.transmitted;
    looped = l.looped;
  }

  pub transmit-Ledger : (s : DataPath D) (n k : ℕ) → Ledger n 0 k s → Ledger n 0 k (transmit D s)
  unfolding transmit
  transmit-Ledger s n k l =
      transmit_found-Ledger s n k (Qos.dequeue D s.qos_scheduler no_packet) l
        (dequeue-Takes D s.qos_scheduler no_packet)
