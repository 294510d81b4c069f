-- ===== src/Rss/Symmetry.antt =====
-- Both directions of a connection go to one core, which exists.
use native.Mathlib.Nat.{mod-lt}
use aether_plane.Base.{◌<◌}
use aether_plane.Packet.{Packet, PacketMeta}
use aether_plane.Rss.{RssDispatcher, compute_rss_hash, dispatch_core}

-- The way back: source and destination swapped.
abbrev pub reversed : PacketMeta → PacketMeta
reversed m = record m {
  src_ip = m.dest_ip;
  dest_ip = m.src_ip;
  src_port = m.dest_port;
  dest_port = m.src_port;
}

pub dispatch_core-lt :
    (d : RssDispatcher) (p : Packet) → 0 < d.num_cores → dispatch_core d p < d.num_cores
unfolding dispatch_core
dispatch_core-lt d p h = mod-lt (compute_rss_hash d p.meta) h
