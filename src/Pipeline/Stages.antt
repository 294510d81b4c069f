-- ===== src/Pipeline/Stages.antt =====
-- The accounts after a frame: dropped, or through all stages, and after a round of the loop.
use aether_plane.Base.{ℕ, ◌+◌, ◌%◌, arith, ◌==◌, add64, inl, inr, Bool-cases}
use aether_plane.Base.Double.{Double}
use aether_plane.Packet.{Packet, TrafficClass, best_effort}
use aether_plane.Filter.{FilterVerdict, accept, drop, reject, qos_queue}
use aether_plane.Xdp.{XdpAction, xdp_drop, xdp_pass, xdp_aborted, xdp_tx, xdp_redirect}
use aether_plane.Metrics.{record_drop, snapshot}
use aether_plane.Filter
use aether_plane.Xdp
use aether_plane.Pipeline.{
  DataPath, Passage, continues, passes, schedule, route, classify, forward, on_verdict, on_action,
  process, Tick, end_round, filter, no_meta,
}
use aether_plane.Pipeline.Ledger.{
  Ledger, class_total, others-Ledger, classify-Ledger, schedule-Ledger, transmit-Ledger,
}

module _ (D : Double) where
  forward-Ledger :
      (s : DataPath D) (pkt : Packet) (verd : FilterVerdict) (class : TrafficClass) (n : ℕ)
      → Ledger D n 0 0 s
      → Ledger D (n + 1) 0 1 (forward D s pkt verd class)
  unfolding forward
  forward-Ledger s pkt verd class n l =
      let s1 : DataPath D = record s { netfilter = Filter.update_conntrack s.netfilter pkt } in
      let l1 : Ledger D n 0 0 s1 =
        others-Ledger D s s.xdp (Filter.update_conntrack s.netfilter pkt) n l in
      let (pkt', s2) = classify D s1 pkt verd class in
      transmit-Ledger D (schedule D s2 (route D s2 pkt')) (n + 1) 1
        (schedule-Ledger D s2 (route D s2 pkt') n (classify-Ledger D s1 pkt verd class n l1))

  -- After a frame: dropped, or received and not yet counted by the loop.
  abbrev pub LedgerAfter : ℕ → Passage D → Type 0
  LedgerAfter n (continues t) = Ledger D n 0 0 t
  LedgerAfter n (passes t) = Ledger D n 0 1 t

  count_drop-Ledger :
      (s : DataPath D) (n : ℕ)
      → Ledger D n 0 0 s
      → Ledger D (n + 1) 0 0 (record s { metrics = record_drop s.metrics })
  unfolding record_drop class_total
  count_drop-Ledger s n l = record {
    made = omega (arith, l.made);
    classified = l.classified;
    scheduled = l.scheduled;
    transmitted = l.transmitted;
    looped = l.looped;
  }

  on_verdict-Ledger :
      (s : DataPath D) (pkt : Packet) (v : FilterVerdict) (class : TrafficClass) (n : ℕ)
      → Ledger D n 0 0 s
      → LedgerAfter (n + 1) (on_verdict D s pkt (v, class))
  unfolding on_verdict
  on_verdict-Ledger s pkt drop class n l = count_drop-Ledger s n l
  on_verdict-Ledger s pkt accept class n l = forward-Ledger s pkt accept class n l
  on_verdict-Ledger s pkt reject class n l = forward-Ledger s pkt reject class n l
  on_verdict-Ledger s pkt qos_queue class n l = forward-Ledger s pkt qos_queue class n l

  filter-Ledger :
      (s : DataPath D) (pkt : Packet) (n : ℕ)
      → Ledger D n 0 0 s
      → LedgerAfter (n + 1) (filter D s pkt)
  filter-Ledger s pkt n l =
      let (v, class) = Filter.evaluate s.netfilter pkt best_effort in
      on_verdict-Ledger s pkt v class n l

  on_action-Ledger :
      (s : DataPath D) (pkt : Packet) (act : XdpAction) (n : ℕ)
      → Ledger D n 0 0 s
      → LedgerAfter (n + 1) (on_action D s pkt act)
  unfolding on_action
  on_action-Ledger s pkt xdp_drop n l = count_drop-Ledger s n l
  on_action-Ledger s pkt xdp_aborted n l = filter-Ledger s pkt n l
  on_action-Ledger s pkt xdp_pass n l = filter-Ledger s pkt n l
  on_action-Ledger s pkt xdp_tx n l = filter-Ledger s pkt n l
  on_action-Ledger s pkt xdp_redirect n l = filter-Ledger s pkt n l

  pub process-Ledger :
      (s : DataPath D) (pkt : Packet) (n : ℕ)
      → Ledger D n 0 0 s
      → LedgerAfter (n + 1) (process D s pkt)
  unfolding process
  process-Ledger s pkt n l =
      let (act, pkt', meta, xdp) = Xdp.process_packet s.xdp pkt (no_meta D) in
      let s1 : DataPath D = record s { xdp = xdp } in
      on_action-Ledger s1 pkt' act n (others-Ledger D s xdp s.netfilter n l)

  snapshot-Ledger :
      (s : DataPath D) (elapsed : D.F) (n : ℕ)
      → Ledger D n 0 1 s
      → Ledger D n 0 0 (record s {
        loop_count = add64 s.loop_count 1;
        metrics = (snapshot D s.metrics elapsed).1;
      })
  unfolding snapshot class_total
  snapshot-Ledger s elapsed n l = record {
    made = l.made;
    classified = l.classified;
    scheduled = l.scheduled;
    transmitted = l.transmitted;
    looped = omega (arith, l.looped);
  }

  pub end_round-Ledger :
      (tick : Tick D) (s : DataPath D) (n : ℕ)
      → Ledger D n 0 1 s
      → Ledger D n 0 0 (end_round D tick s).1
  unfolding end_round
  end_round-Ledger tick s n l = elim (Bool-cases (add64 s.loop_count 1 % 50000 == 0)) [
    | inl e ↦ rw e (snapshot-Ledger s (tick.elapsed) n l)
    | inr e ↦ rw e (record {
      made = l.made;
      classified = l.classified;
      scheduled = l.scheduled;
      transmitted = l.transmitted;
      looped = omega (arith, l.looped);
    })
  ]
