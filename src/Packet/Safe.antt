-- ===== src/Packet/Safe.antt =====
-- `parse_headers` reads nothing outside the buffer: with each read replaced by the bytes that it
-- finds, it is a total function.
use aether_plane.Base.{
  ℕ, ◌+◌, ◌*◌, ◌≡◌, Bool, true, false, ◌&&◌, some, List, arith, bit_and, ltb, leb, ◌==◌,
  if◌then◌else◌, length, ◌>>>◌,
}
use aether_plane.Packet.{
  PacketMeta, ipproto_tcp, ipproto_udp, eth_p_arp, eth_p_ip, eth_p_vlan, voice_control, parse_tcp,
  parse_udp, parse_l4, payload_after, parse_ipv4, parse_arp, parse_l3, parse_headers,
}
use aether_plane.Packet.Read.{byte_at, be16_at, be32_at, read8_lem, read16_lem, read32_lem}

-- The outcome of the transport header.
unfoldable pub tcp_result : List ℕ → ℕ → PacketMeta → PacketMeta × ℕ
tcp_result b offset m =
    if leb (offset + 20) (length b)
    then (
      record m { src_port = be16_at b offset; dest_port = be16_at b (offset + 2) },
      offset + bit_and (be16_at b (offset + 12) >>> 12) 0x0F * 4,
    )
    else (m, offset)

unfoldable pub udp_result : List ℕ → ℕ → PacketMeta → PacketMeta × ℕ
udp_result b offset m =
    if leb (offset + 8) (length b)
    then (record m { src_port = be16_at b offset; dest_port = be16_at b (offset + 2) }, offset + 8)
    else (m, offset)

unfoldable pub l4_result : List ℕ → ℕ → PacketMeta → PacketMeta × ℕ
l4_result b offset m =
    if m.l3_proto == ipproto_tcp
    then tcp_result b offset m
    else if m.l3_proto == ipproto_udp
    then udp_result b offset m
    else (m, offset)

parse_tcp_lem : (b : List ℕ) (o : ℕ) (m : PacketMeta) → parse_tcp b o m ≡ some (tcp_result b o m)
unfolding parse_tcp tcp_result
parse_tcp_lem b o m = ground (arith, read16_lem b o, read16_lem b (o + 2), read16_lem b (o + 12))

parse_udp_lem : (b : List ℕ) (o : ℕ) (m : PacketMeta) → parse_udp b o m ≡ some (udp_result b o m)
unfolding parse_udp udp_result
parse_udp_lem b o m = ground (arith, read16_lem b o, read16_lem b (o + 2))

pub parse_l4_lem : (b : List ℕ) (o : ℕ) (m : PacketMeta) → parse_l4 b o m ≡ some (l4_result b o m)
unfolding parse_l4 l4_result
parse_l4_lem b o m = ground (arith, parse_tcp_lem b o m, parse_udp_lem b o m)

-- `ihl`
abbrev pub header_len : List ℕ → ℕ → ℕ
header_len b offset = bit_and (byte_at b offset) 0x0F * 4

-- The three length checks of an IPv4 header.
abbrev pub ipv4_fits : List ℕ → ℕ → Bool
ipv4_fits b offset =
    leb (offset + 20) (length b)
    && (leb 20 (header_len b offset) && leb (offset + header_len b offset) (length b))

unfoldable pub ipv4_result : List ℕ → ℕ → PacketMeta → Bool × PacketMeta
ipv4_result b offset m =
    if ipv4_fits b offset
    then (let r = l4_result b (offset + header_len b offset) (record m {
      l3_proto = byte_at b (offset + 9);
      src_ip = be32_at b (offset + 12);
      dest_ip = be32_at b (offset + 16);
    }) in
        (true, record (r.0) { payload_size = payload_after (length b) r.1 }))
    else (false, m)

pub parse_ipv4_lem :
    (b : List ℕ) (o : ℕ) (m : PacketMeta) → parse_ipv4 b o m ≡ some (ipv4_result b o m)
unfolding parse_ipv4 ipv4_result
parse_ipv4_lem b o m = ground (
  arith,
  read8_lem b o,
  read8_lem b (o + 9),
  read32_lem b (o + 12),
  read32_lem b (o + 16),
  parse_l4_lem b (o + header_len b o) (record m {
    l3_proto = byte_at b (o + 9);
    src_ip = be32_at b (o + 12);
    dest_ip = be32_at b (o + 16);
  }),
)

unfoldable pub arp_result : List ℕ → ℕ → PacketMeta → Bool × PacketMeta
arp_result b offset m =
    if leb (offset + 28) (length b)
    then (
      true,
      record m {
        l3_proto = 0xFD;
        src_ip = be32_at b (offset + 14);
        dest_ip = be32_at b (offset + 24);
        traffic_class = voice_control;
      },
    )
    else (false, m)

pub parse_arp_lem :
    (b : List ℕ) (o : ℕ) (m : PacketMeta) → parse_arp b o m ≡ some (arp_result b o m)
unfolding parse_arp arp_result
parse_arp_lem b o m = ground (arith, read32_lem b (o + 14), read32_lem b (o + 24))

unfoldable pub l3_result : List ℕ → ℕ → ℕ → PacketMeta → Bool × PacketMeta
l3_result b eth_type offset m =
    if eth_type == eth_p_arp
    then arp_result b offset m
    else if eth_type == eth_p_ip
    then ipv4_result b offset m
    else (false, m)

parse_l3_lem : (b : List ℕ) (t o : ℕ) (m : PacketMeta) → parse_l3 b t o m ≡ some (l3_result b t o m)
unfolding parse_l3 l3_result
parse_l3_lem b t o m = ground (arith, parse_arp_lem b o m, parse_ipv4_lem b o m)

unfoldable pub headers_result : List ℕ → PacketMeta → Bool × PacketMeta
headers_result b m =
    if ltb (length b) 14
    then (false, m)
    else let m' : PacketMeta = record m { l2_type = be16_at b 12 } in
      if be16_at b 12 == eth_p_vlan
      then if ltb (length b) 18 then (false, m') else l3_result b (be16_at b 16) 18 m'
      else l3_result b (be16_at b 12) 14 m'

-- For every buffer and metadata the parse ends with a verdict and a metadata record: no read of it
-- lies outside the buffer.
pub parse_headers_lem :
    (b : List ℕ) (m : PacketMeta) → parse_headers b m ≡ some (headers_result b m)
unfolding parse_headers headers_result
parse_headers_lem b m = ground (
  arith,
  read16_lem b 12,
  read16_lem b 16,
  parse_l3_lem b (be16_at b 12) 14 (record m { l2_type = be16_at b 12 }),
  parse_l3_lem b (be16_at b 16) 18 (record m { l2_type = be16_at b 12 }),
)
