-- ===== src/Qos/Congestion.antt =====
-- `update_congestion_state` changes only what it measures: queues, weights, deficits and counters stay.
use aether_plane.Base.{ℕ, zero, suc, ◌+◌, ◌≡◌, refl, ◌∙◌, arith, update}
use aether_plane.Base.Double.{Double}
use aether_plane.Qos.{
  Scheduler, refresh_delays, update_congestion_state, queue_bytes, total_bytes, delay_sec,
}

module _ (D : Double) where
  -- Two states that agree on all but the measured values.
  pub record SameQueues (s t : Scheduler D) : Type 0 where
    pub queues : t.queues ≡ s.queues
    pub weights : t.weights ≡ s.weights
    pub deficits : t.deficits ≡ s.deficits
    pub enqueued : (i : ℕ) → (t.stats i).enqueued_packets ≡ (s.stats i).enqueued_packets
    pub dequeued : (i : ℕ) → (t.stats i).dequeued_packets ≡ (s.stats i).dequeued_packets
    pub dropped : (i : ℕ) → (t.stats i).dropped_packets ≡ (s.stats i).dropped_packets
    pub occupancy : (i : ℕ) → (t.stats i).current_occupancy ≡ (s.stats i).current_occupancy

  refresh_delays-SameQueues : (n i : ℕ) (s : Scheduler D) → SameQueues s (refresh_delays D n i s)
  unfolding refresh_delays
  refresh_delays-SameQueues zero i s = record {
    queues = refl;
    weights = refl;
    deficits = refl;
    enqueued = λ j. refl;
    dequeued = λ j. refl;
    dropped = λ j. refl;
    occupancy = λ j. refl;
  }
  refresh_delays-SameQueues (suc n) i s =
      let st = s.stats i in
      let ms = D.mul (delay_sec D s.link_rate_mbps (queue_bytes D 0 (s.queues i))) (D.lit 1000 1) in
      let s' : Scheduler D = record s {
        stats = update s.stats i (record st { current_delay_ms = ms });
      } in
      let rest = refresh_delays-SameQueues n (i + 1) s' in
      record {
        queues = rest.queues;
        weights = rest.weights;
        deficits = rest.deficits;
        enqueued = λ j. rest.enqueued j ∙ ground arith;
        dequeued = λ j. rest.dequeued j ∙ ground arith;
        dropped = λ j. rest.dropped j ∙ ground arith;
        occupancy = λ j. rest.occupancy j ∙ ground arith;
      }

  pub update_congestion_state-SameQueues :
      (s : Scheduler D) → SameQueues s (update_congestion_state D s)
  unfolding update_congestion_state
  update_congestion_state-SameQueues s =
      let latency =
        D.mul (delay_sec D s.link_rate_mbps (total_bytes D 5 0 s.queues 0)) (D.lit 1000 1) in
      let s' : Scheduler D = record s {
        total_latency_ms = latency;
        bufferbloat_detected = D.less (D.lit 25 1) latency;
      } in
      let r = refresh_delays-SameQueues 5 0 s' in
      record {
        queues = r.queues;
        weights = r.weights;
        deficits = r.deficits;
        enqueued = r.enqueued;
        dequeued = r.dequeued;
        dropped = r.dropped;
        occupancy = r.occupancy;
      }
