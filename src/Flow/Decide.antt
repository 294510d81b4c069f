-- ===== src/Flow/Decide.antt =====
-- The decision tree of `classify_flow`.
use aether_plane.Base.{ℕ, ◌≡◌, ◌⊎◌, ◌↔◌, true, arith}
use aether_plane.Base.Double.{Double}
use aether_plane.Packet.{Packet, voice_control, gaming_low_lat}
use aether_plane.Base.{none}
use aether_plane.Base.Table.{find_key}
use aether_plane.Flow.{
  FlowStats, FlowClassifier, make_flow_key, classify_flow, new_flow, updated_flow, track_and_update,
  track_and_classify,
}

-- DNS, SIP, ARP or ICMP.
abbrev pub IsControl : ℕ → ℕ → ℕ → Type 0
IsControl src_port dest_port protocol =
    (src_port ≡ 53)
    ⊎ (dest_port ≡ 53)
    ⊎ (src_port ≡ 5060)
    ⊎ (dest_port ≡ 5060)
    ⊎ (protocol ≡ 0xFD)
    ⊎ (protocol ≡ 1)

module _ (D : Double) where
  -- A flow is classed as voice and control exactly when a port is 53 or 5060 or the protocol is ARP or ICMP,
  -- whatever its statistics.
  pub classify_flow-voice_iff :
      (st : FlowStats D)
      → ((classify_flow D st).0 ≡ voice_control) ↔ IsControl st.src_port st.dest_port st.protocol
  unfolding classify_flow
  classify_flow-voice_iff st = ground arith

  -- The class is recorded in the statistics, and to classify again changes nothing.
  pub classify_flow-again :
      (st : FlowStats D)
      → let (class, st') = classify_flow D st in
        (st'.predicted_class ≡ class) × (classify_flow D st' ≡ (class, st'))
  unfolding classify_flow
  classify_flow-again st = ground arith

  -- The first packet of a UDP flow that is no DNS or SIP is classed as gaming whatever its size, where 0 is below
  -- 300 and below 1.2: the mean size and the burstiness are still 0, as the features are computed from
  -- the second packet on.
  pub track_and_classify-first_udp :
      (c : FlowClassifier D) (pkt : Packet)
      → find_key (make_flow_key pkt.meta) c.flow_table ≡ none
      → pkt.meta.l3_proto ≡ 17
      → ¬ IsControl pkt.meta.src_port pkt.meta.dest_port pkt.meta.l3_proto
      → D.less (D.lit 0 1) (D.lit 300 1) ≡ true
      → D.less (D.lit 0 1) (D.lit 12 10) ≡ true
      → (track_and_classify D c pkt).0 ≡ gaming_low_lat
  unfolding track_and_classify track_and_update updated_flow new_flow classify_flow
  track_and_classify-first_udp c pkt fresh udp plain h300 h12 = rw fresh (ground (arith, h300, h12))
