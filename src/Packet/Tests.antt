-- ===== src/Packet/Tests.antt =====
-- The frame of tests/test_data_path.py, and the theorems at it.
use aether_plane.Base.{ℕ, ◌≡◌, refl, none, some, List, [], ◌∷◌, ◌++◌, true, false, arith}
use aether_plane.Packet.{
  default_meta, parse_udp, parse_l4, payload_after, parse_ipv4, parse_l3, parse_headers,
}
use aether_plane.Packet.Read.{read8, read16, read32}
use aether_plane.Packet.Safe.{headers_result, parse_headers_lem}
use aether_plane.Packet.Encode.{
  Ethernet, encode_ethernet, Ipv4, IsIpv4, Udp, encode_udp, Tcp, encode_tcp,
}
use aether_plane.Packet.Ipv4.{encode_ipv4}
use aether_plane.Packet.Roundtrip.{parsed_meta, parse_headers-udp, parse_headers-tcp}
use aether_plane.Packet.Refusal.{parse_headers-refuses}

abbrev macs : List ℕ
macs = 0 ∷ 0x1a ∷ 0x2b ∷ 0x3c ∷ 0x4d ∷ 0x5e ∷ 0 ∷ 0x11 ∷ 0x22 ∷ 0x33 ∷ 0x44 ∷ 0x55 ∷ []

abbrev plain : Ethernet
plain = record { macs = macs; tag = none; ether_type = 0x0800 }

abbrev tagged : Ethernet
tagged = record plain { tag = some 5 }

abbrev ip : Ipv4
ip = record {
  tos = 0;
  total_length = 48;
  id = 1234;
  fragment = 0;
  ttl = 64;
  protocol = 17;
  checksum = 0;
  src = 0xC0A80164;
  dest = 0x0A000001;
  words = 1;
  options = 1 ∷ 1 ∷ 1 ∷ 0 ∷ [];
}

abbrev udp : Udp
udp = record { sport = 5000; dport = 80; udp_length = 28; udp_checksum = 0 }

abbrev tcp : Tcp
tcp = record {
  sport = 443;
  dport = 60000;
  seq = 1;
  ack = 2;
  extra = 0;
  flags = 0x18;
  window = 1024;
  tcp_checksum = 0;
  urgent = 0;
  tcp_options = [];
}

ip-IsIpv4 : IsIpv4 ip
ip-IsIpv4 = omega arith

parsed :
    parse_headers
      (encode_ethernet tagged ++ encode_ipv4 ip (encode_udp udp (7 ∷ 8 ∷ 9 ∷ [])))
      default_meta
    ≡ some (
      true,
      record default_meta {
        l2_type = 0x8100;
        l3_proto = 17;
        src_ip = 0xC0A80164;
        dest_ip = 0x0A000001;
        src_port = 5000;
        dest_port = 80;
        payload_size = 3;
      },
    )
unfolding parse_headers parse_l3 parse_ipv4 parse_l4 parse_udp payload_after read8 read16 read32
parsed = refl

truncated : parse_headers macs default_meta ≡ some (false, default_meta)
unfolding parse_headers
truncated = refl

parse_headers_lem_example :
    parse_headers macs default_meta ≡ some (headers_result macs default_meta)
parse_headers_lem_example = parse_headers_lem macs default_meta

parse_headers-udp_example :
    parse_headers (encode_ethernet plain ++ encode_ipv4 ip (encode_udp udp (7 ∷ []))) default_meta
    ≡ some (true, parsed_meta default_meta plain ip 5000 80 1)
parse_headers-udp_example =
    parse_headers-udp plain ip udp (7 ∷ []) default_meta (refl, refl, ip-IsIpv4) refl
      (omega arith, omega arith)

parse_headers-tcp_example :
    parse_headers
      (encode_ethernet tagged ++ encode_ipv4 (record ip { protocol = 6 }) (encode_tcp tcp (7 ∷ [])))
      default_meta
    ≡ some (true, parsed_meta default_meta tagged (record ip { protocol = 6 }) 443 60000 1)
parse_headers-tcp_example =
    parse_headers-tcp tagged (record ip { protocol = 6 }) tcp (7 ∷ []) default_meta
      (refl, refl, omega arith) refl (omega arith)

-- An IPv6 frame.
parse_headers-refuses_example :
    parse_headers
      (encode_ethernet (record plain { ether_type = 0x86DD }) ++ (0x60 ∷ []))
      default_meta
    ≡ some (false, record default_meta { l2_type = 0x86DD })
parse_headers-refuses_example =
    parse_headers-refuses (record plain { ether_type = 0x86DD }) (0x60 ∷ []) default_meta
      (omega arith) (omega arith) (omega arith)
