-- ===== src/Packet/Refusal.antt =====
-- What `parse_headers` leaves behind when it refuses a frame.
use aether_plane.Base.{ℕ, ◌≡◌, ◌≢◌, ap, ◌∙◌, false, some, List, ◌++◌, arith}
use aether_plane.Packet.{PacketMeta, eth_p_ip, eth_p_arp, parse_headers}
use aether_plane.Packet.Safe.{arp_result, ipv4_result, l3_result, headers_result, parse_headers_lem}
use aether_plane.Packet.Encode.{Ethernet, encode_ethernet, outer_type, IsEthernet}
use aether_plane.Packet.Roundtrip.{headers_result-encode}

-- A frame whose type, behind an optional tag, is neither IPv4 nor ARP is refused, IPv6 among them, and
-- only its outer type is recorded.
pub parse_headers-refuses :
    (e : Ethernet) (rest : List ℕ) (m : PacketMeta)
    → IsEthernet e
    → e.ether_type ≢ eth_p_ip
    → e.ether_type ≢ eth_p_arp
    → parse_headers (encode_ethernet e ++ rest) m
      ≡ some (false, record m { l2_type = outer_type e.tag e.ether_type })
unfolding l3_result
parse_headers-refuses e rest m v not_ip not_arp =
    parse_headers_lem (encode_ethernet e ++ rest) m
    ∙ ap some (
        headers_result-encode e.macs e.tag e.ether_type rest m v.macs_fit v.type_word v.untagged
        ∙ ground arith)

-- A refused frame changes no metadata but the type, whatever the reason of the refusal.
pub parse_headers-refused :
    (b : List ℕ) (m m' : PacketMeta)
    → parse_headers b m ≡ some (false, m')
    → m' ≡ record m { l2_type = m'.l2_type }
unfolding headers_result l3_result arp_result ipv4_result
parse_headers-refused b m m' h = ground (arith, parse_headers_lem b m)
