-- ===== src/Packet/Transport.antt =====
-- `parse_headers` on written transport headers: the ports come back, and the offset behind the header.
use aether_plane.Base.{
  ℕ, ◌+◌, ◌*◌, ◌/◌, ◌%◌, ◌≤◌, ◌<◌, ◌≡◌, List, ◌++◌, arith, length, length-append, ◌>>>◌,
}
use aether_plane.Base.Bits.{bit_and-mask}
use aether_plane.Packet.{PacketMeta, ipproto_tcp, ipproto_udp}
use aether_plane.Packet.Read.{byte_at, be16_at}
use aether_plane.Packet.Safe.{tcp_result, udp_result, l4_result}
use aether_plane.Packet.Encode.{
  Udp, encode_udp, Tcp, encode_tcp, be16_at-append, be16_at-append_zero,
}

abbrev pub IsPorts : ℕ → ℕ → Type 0
IsPorts sport dport = (sport < 65536) × (dport < 65536)

abbrev with_ports : PacketMeta → ℕ → ℕ → PacketMeta
with_ports m sport dport = record m { src_port = sport; dest_port = dport }

be16_read : (v : ℕ) → v < 65536 → v / 256 % 256 * 256 + v % 256 ≡ v
be16_read v h = omega arith

pub l4_result-udp :
    (pre payload : List ℕ) (u : Udp) (m : PacketMeta)
    → m.l3_proto ≡ ipproto_udp
    → IsPorts u.sport u.dport
    → l4_result (pre ++ encode_udp u payload) (length pre) m
      ≡ (with_ports m u.sport u.dport, length pre + 8)
unfolding l4_result udp_result be16_at byte_at
l4_result-udp pre payload u m e h = ground (
  arith,
  length-append pre (encode_udp u payload),
  be16_at-append_zero pre (encode_udp u payload),
  be16_at-append pre (encode_udp u payload) 2,
)

pub record IsTcp (t : Tcp) : Type 0 where
  pub ports : IsPorts t.sport t.dport
  pub extra_fit : t.extra ≤ 10
  pub flags_fit : t.flags < 4096
  pub options_fit : length t.tcp_options ≡ 4 * t.extra

pub l4_result-tcp :
    (pre payload : List ℕ) (t : Tcp) (m : PacketMeta)
    → m.l3_proto ≡ ipproto_tcp
    → IsTcp t
    → l4_result (pre ++ encode_tcp t payload) (length pre) m
      ≡ (with_ports m t.sport t.dport, length pre + (20 + length t.tcp_options))
unfolding l4_result tcp_result be16_at byte_at
l4_result-tcp pre payload t m e h = ground (
  arith,
  length-append pre (encode_tcp t payload),
  be16_at-append_zero pre (encode_tcp t payload),
  be16_at-append pre (encode_tcp t payload) 2,
  be16_at-append pre (encode_tcp t payload) 12,
  bit_and-mask 4 (be16_at (pre ++ encode_tcp t payload) (length pre + 12) >>> 12),
)
