-- ===== src/Packet.antt =====
-- include/core/packet.hpp and src/core/packet.cpp: `Packet`, its metadata and `parse_headers`. A read
-- outside the buffer is `none`; header fields lie at the offsets of the packed structs.
pub mod Meta
pub mod Read
pub mod Safe
pub mod Encode
pub mod Transport
pub mod Ipv4
pub mod Roundtrip
pub mod Refusal
pub mod Flows
pub mod Text
mod Tests
mod TextTests
pub use Meta.*
use aether_plane.Base.{
  ℕ, ◌+◌, ◌-◌, ◌*◌, Bool, true, false, ◌||◌, Option, none, some, List, [], bit_and, ltb, leb, ◌==◌,
  if◌then◌else◌, length, get_elem?, u16, ◌>>>◌,
}
use Read.{read8, read16, read32, ◌>>=◌}

pub record Packet : Type 0 where
  pub buffer : List ℕ
  pub meta : PacketMeta

unfoldable pub size : Packet → ℕ
size p = length p.buffer

-- The ports of a TCP header at `offset`, and the offset behind the header.
unfoldable pub parse_tcp : List ℕ → ℕ → PacketMeta → Option (PacketMeta × ℕ)
parse_tcp b offset m =
    if leb (offset + 20) (length b)
    then (do
      sp ← read16 b offset
      dp ← read16 b (offset + 2)
      flags ← read16 b (offset + 12)
      some (record m { src_port = sp; dest_port = dp }, offset + bit_and (flags >>> 12) 0x0F * 4))
    else some (m, offset)

unfoldable pub parse_udp : List ℕ → ℕ → PacketMeta → Option (PacketMeta × ℕ)
parse_udp b offset m =
    if leb (offset + 8) (length b)
    then (do
      sp ← read16 b offset
      dp ← read16 b (offset + 2)
      some (record m { src_port = sp; dest_port = dp }, offset + 8))
    else some (m, offset)

-- `if (meta_.l3_proto == IPPROTO_TCP) ... else if (... == IPPROTO_UDP) ...`
unfoldable pub parse_l4 : List ℕ → ℕ → PacketMeta → Option (PacketMeta × ℕ)
parse_l4 b offset m =
    if m.l3_proto == ipproto_tcp
    then parse_tcp b offset m
    else if m.l3_proto == ipproto_udp
    then parse_udp b offset m
    else some (m, offset)

-- `meta_.payload_size = ...`
unfoldable pub payload_after : ℕ → ℕ → ℕ
payload_after total offset = if ltb offset total then u16 (total - offset) else 0

unfoldable pub parse_ipv4 : List ℕ → ℕ → PacketMeta → Option (Bool × PacketMeta)
parse_ipv4 b offset m = if ltb (length b) (offset + 20) then some (false, m) else do
  version_ihl ← read8 b offset
  let ihl = bit_and version_ihl 0x0F * 4
  (if ltb ihl 20 || ltb (length b) (offset + ihl) then some (false, m) else do
    proto ← read8 b (offset + 9)
    src ← read32 b (offset + 12)
    dst ← read32 b (offset + 16)
    r ← parse_l4 b (offset + ihl) (record m { l3_proto = proto; src_ip = src; dest_ip = dst })
    some (true, record (r.0) { payload_size = payload_after (length b) r.1 }))

unfoldable pub parse_arp : List ℕ → ℕ → PacketMeta → Option (Bool × PacketMeta)
parse_arp b offset m = if ltb (length b) (offset + 28) then some (false, m) else do
  sender ← read32 b (offset + 14)
  target ← read32 b (offset + 24)
  some (
    true,
    record m { l3_proto = 0xFD; src_ip = sender; dest_ip = target; traffic_class = voice_control },
  )

unfoldable pub parse_l3 : List ℕ → ℕ → ℕ → PacketMeta → Option (Bool × PacketMeta)
parse_l3 b eth_type offset m =
    if eth_type == eth_p_arp
    then parse_arp b offset m
    else if eth_type == eth_p_ip
    then parse_ipv4 b offset m
    else some (false, m)

unfoldable pub parse_headers : List ℕ → PacketMeta → Option (Bool × PacketMeta)
parse_headers b m = if ltb (length b) 14 then some (false, m) else do
  eth_type ← read16 b 12
  let m' = record m { l2_type = eth_type }
  (if eth_type == eth_p_vlan
      then (if ltb (length b) 18
          then some (false, m')
          else do inner ← read16 b 16; parse_l3 b inner 18 m')
      else parse_l3 b eth_type 14 m')

-- The constructor `Packet(std::vector<uint8_t>)` at the time `now_ns` of the clock.
unfoldable pub packet_of : List ℕ → ℕ → Option Packet
packet_of buffer now_ns = do
  r ← parse_headers buffer (record default_meta { timestamp_ns = now_ns })
  some (record { buffer = buffer; meta = r.1 })
