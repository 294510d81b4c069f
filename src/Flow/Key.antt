-- ===== src/Flow/Key.antt =====
-- The keys of the flow table.
use aether_plane.Base.{◌≡◌, refl, ◌↔◌}
use mathlib.Core.List.{tail-eq_of_cons-eq}
use aether_plane.Packet.{PacketMeta}
use aether_plane.Packet.Flows.{SameFlow, read_field, read_last}
use aether_plane.Flow.{make_flow_key}

-- The printed key of two packets is the same text exactly when their addresses, ports and protocol agree.
pub make_flow_key-SameFlow : (m n : PacketMeta) → (make_flow_key m ≡ make_flow_key n) ↔ SameFlow m n
unfolding make_flow_key
make_flow_key-SameFlow m n = (
  λ e.
      let (src, e1) = read_field 58 refl e in
      let (sport, e2) = read_field 60 refl e1 in
      let (dest, e3) = read_field 58 refl (tail-eq_of_cons-eq (tail-eq_of_cons-eq e2)) in
      let (dport, e4) = read_field 58 refl e3 in (src, sport, dest, dport, read_last e4),
  λ (src, sport, dest, dport, proto). rw src (rw sport (rw dest (rw dport (rw proto refl)))),
)
