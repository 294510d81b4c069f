-- ===== src/Pipeline/Frame.antt =====
-- The synthetic frame of src/main.cpp, as bytes, and what the parser reads in it.
use aether_plane.Base.{
  ℕ, ◌+◌, ◌*◌, ◌/◌, ◌%◌, ◌≡◌, refl, inl, inr, List, some, arith, ◌==◌, if◌then◌else◌, set,
  replicate, u32, Bool-cases,
}
use aether_plane.Packet.{
  Packet, PacketMeta, eth_p_ip, ipproto_tcp, ipproto_udp, packet_of, parse_headers, parse_l3,
  parse_ipv4, parse_l4, parse_tcp, parse_udp, payload_after, default_meta,
}
use aether_plane.Packet.Read.{read8, read16, read32}

-- `htons(v)` and `htonl(v)` written at an offset: the bytes from the highest on.
abbrev put16 : List ℕ → ℕ → ℕ → List ℕ
put16 b i v = set (set b i (v / 256 % 256)) (i + 1) (v % 256)

abbrev put32 : List ℕ → ℕ → ℕ → List ℕ
put32 b i v = put16 (put16 b i (v / 65536)) (i + 2) v

abbrev pub protocol_of : ℕ → ℕ
protocol_of loop_count = if loop_count % 3 == 0 then ipproto_udp else ipproto_tcp

-- 128 bytes `0xAA`, and the fields of the headers at 0 and at 14 that `main` sets.
unfoldable pub frame : ℕ → List ℕ
frame loop_count =
    let raw_pkt = put16 (replicate 128 0xAA) 12 eth_p_ip in
    let version_ihl = set raw_pkt 14 0x45 in
    let protocol = set version_ihl 23 (protocol_of loop_count) in
    let src_ip = put32 protocol 26 (u32 (0xC0A80100 + loop_count % 250)) in
    put32 src_ip 30 0x0A000001

-- The metadata of the frame made at `now_ns`.
abbrev pub frame_meta : ℕ → ℕ → PacketMeta
frame_meta loop_count now_ns = record default_meta {
  timestamp_ns = now_ns;
  l2_type = eth_p_ip;
  l3_proto = protocol_of loop_count;
  src_ip = 0xC0A80100 + loop_count % 250;
  dest_ip = 0x0A000001;
  src_port = 0xAAAA;
  dest_port = 0xAAAA;
  payload_size = if loop_count % 3 == 0 then 86 else 54;
}

abbrev pub frame_packet : ℕ → ℕ → Packet
frame_packet loop_count now_ns = record {
  buffer = frame loop_count;
  meta = frame_meta loop_count now_ns;
}

src_ip_read :
    (n : ℕ)
    → let v = u32 (0xC0A80100 + n % 250) in
      (v / 65536 / 256 % 256 * 256 + v / 65536 % 256) * 65536 + (v / 256 % 256 * 256 + v % 256)
      ≡ 0xC0A80100 + n % 250
src_ip_read n = omega arith

pub packet_of-frame :
    (loop_count now_ns : ℕ)
    → packet_of (frame loop_count) now_ns ≡ some (frame_packet loop_count now_ns)
unfolding packet_of frame parse_headers parse_l3 parse_ipv4 parse_l4 parse_tcp parse_udp
    payload_after read8 read16 read32
packet_of-frame n now_ns = elim (Bool-cases (n % 3 == 0)) [
  | inl udp ↦ rw udp (rw (src_ip_read n) refl)
  | inr tcp ↦ rw tcp (rw (src_ip_read n) refl)
]
