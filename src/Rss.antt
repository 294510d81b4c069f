-- ===== src/Rss.antt =====
-- include/core/rss_dispatcher.hpp and src/core/rss_dispatcher.cpp: `RSSDispatcher`, which spreads packets over the
-- worker cores by a hash of their addresses, ports and protocol.
pub mod Symmetry
mod Tests
use aether_plane.Base.{
  ℕ, ◌*◌, ◌%◌, ◌<<<◌, List, [], ◌∷◌, min, max, bit_or, bit_xor, u32, ltb, if◌then◌else◌,
}
use aether_plane.Packet.{Packet, PacketMeta}

pub record RssDispatcher : Type 0 where
  pub num_cores : ℕ
  pub rss_key : List ℕ

unfoldable pub init : ℕ → RssDispatcher
init num_worker_cores = record {
  num_cores = if ltb 0 num_worker_cores then num_worker_cores else 1;
  rss_key =
      0x6D5A56DA ∷ 0x255B0EC2 ∷ 0x4167253D ∷ 0x43A38FB0 ∷ 0xD0CA2BCB ∷ 0xAE7B30B4 ∷ 0x77CB2DA3
      ∷ 0x8030F20C ∷ 0x6A42B73B ∷ 0xBEAC01FA ∷ [];
}

-- `h ^= word; h *= 0x01000193;`
unfoldable pub mix : ℕ → ℕ → ℕ
mix h word = u32 (bit_xor h word * 0x01000193)

-- The key is not read.
unfoldable pub compute_rss_hash : RssDispatcher → PacketMeta → ℕ
compute_rss_hash d m =
    let ip_min = min m.src_ip m.dest_ip in
    let ip_max = max m.src_ip m.dest_ip in
    let port_min = min m.src_port m.dest_port in
    let port_max = max m.src_port m.dest_port in
    mix (mix (mix (mix 0x811C9DC5 ip_min) ip_max) (bit_or port_min (u32 (port_max <<< 16))))
      m.l3_proto

unfoldable pub dispatch_core : RssDispatcher → Packet → ℕ
dispatch_core d pkt = compute_rss_hash d pkt.meta % d.num_cores
