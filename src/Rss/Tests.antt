-- ===== src/Rss/Tests.antt =====
-- A connection and its way back over four cores.
use aether_plane.Base.{◌≡◌, refl, []}
use aether_plane.Packet.{Packet, default_meta}
use aether_plane.Rss.{init, dispatch_core, compute_rss_hash, mix}
use aether_plane.Rss.Symmetry.{reversed}

abbrev there : Packet
there = record {
  buffer = [];
  meta = record default_meta {
    src_ip = 0xC0A80164;
    dest_ip = 0x0A000001;
    src_port = 40000;
    dest_port = 443;
    l3_proto = 6;
  };
}

abbrev back : Packet
back = record { buffer = []; meta = reversed there.meta }

dispatch_test : dispatch_core (init 4) there ≡ dispatch_core (init 4) back
unfolding dispatch_core compute_rss_hash mix init
dispatch_test = refl
