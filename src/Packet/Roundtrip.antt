-- ===== src/Packet/Roundtrip.antt =====
-- What is written is read back: frames of Ethernet, an optional 802.1Q tag, IPv4 with options, and
-- UDP or TCP.
use aether_plane.Base.{
  ℕ, ◌+◌, ◌<◌, ◌≡◌, ◌≢◌, ap, ap₂, ◌∙◌, sym, Bool, true, Option, none, some, List, ◌++◌,
  append_assoc, arith, length, length-append,
}
use aether_plane.Packet.{PacketMeta, ipproto_tcp, ipproto_udp, eth_p_ip, parse_headers}
use aether_plane.Packet.Read.{byte_at, be16_at}
use aether_plane.Packet.Safe.{ipv4_result, l3_result, headers_result, parse_headers_lem}
use aether_plane.Packet.Encode.{
  be16, Ethernet, encode_ethernet, encode_type, outer_type, Ipv4, IsIpv4, Udp, encode_udp, Tcp,
  encode_tcp, be16_at-append,
}
use aether_plane.Packet.Transport.{IsPorts, IsTcp}
use aether_plane.Packet.Ipv4.{encode_ipv4, flow_meta, ipv4_result-udp, ipv4_result-tcp}

-- Reading behind the addresses.
behind_macs :
    (macs xs rest : List ℕ) (i : ℕ)
    → length macs ≡ 12
    → be16_at ((macs ++ xs) ++ rest) (12 + i) ≡ be16_at (xs ++ rest) i
behind_macs macs xs rest i len =
    ap₂ be16_at (append_assoc macs xs rest) (ap (λ n. n + i) (sym len))
    ∙ be16_at-append macs (xs ++ rest) i

-- Behind an Ethernet header, tagged or not, the parse goes on with the inner type.
pub headers_result-encode :
    (macs : List ℕ) (tag : Option ℕ) (t : ℕ) (rest : List ℕ) (m : PacketMeta)
    → length macs ≡ 12
    → t < 65536
    → t ≢ 0x8100
    → headers_result ((macs ++ encode_type tag t) ++ rest) m
      ≡ l3_result
          ((macs ++ encode_type tag t) ++ rest)
          t
          (length (macs ++ encode_type tag t))
          (record m { l2_type = outer_type tag t })
unfolding headers_result be16_at byte_at
headers_result-encode macs none t rest m len ht ne =
    let b = (macs ++ be16 t) ++ rest in
    let m' : PacketMeta = record m { l2_type = t } in
    let size : length (macs ++ be16 t) ≡ 14 = omega (arith, length-append macs (be16 t)) in
    let at_12 : be16_at b 12 ≡ t = behind_macs macs (be16 t) rest 0 len ∙ omega arith in
    ground (
      arith,
      size,
      length-append (macs ++ be16 t) rest,
      at_12,
      ap (λ o. l3_result b t o m') size,
      ap (λ k. l3_result b k 14 m') at_12,
    )
headers_result-encode macs (some tci) t rest m len ht ne =
    let b = (macs ++ encode_type (some tci) t) ++ rest in
    let m' : PacketMeta = record m { l2_type = 0x8100 } in
    let size : length (macs ++ encode_type (some tci) t) ≡ 18 =
      omega (arith, length-append macs (encode_type (some tci) t)) in
    let at_12 : be16_at b 12 ≡ 0x8100 =
      behind_macs macs (encode_type (some tci) t) rest 0 len ∙ omega arith in
    let at_16 : be16_at b 16 ≡ t =
      behind_macs macs (encode_type (some tci) t) rest 4 len ∙ omega arith in
    ground (
      arith,
      size,
      length-append (macs ++ encode_type (some tci) t) rest,
      at_12,
      ap (λ o. l3_result b t o m') size,
      ap (λ k. l3_result b k 18 m') at_16,
    )

-- What a parse makes of a frame that carries an IPv4 packet.
abbrev pub parsed_meta : PacketMeta → Ethernet → Ipv4 → ℕ → ℕ → ℕ → PacketMeta
parsed_meta m e h sport dport payload_len =
    flow_meta (record m { l2_type = outer_type e.tag e.ether_type }) h sport dport payload_len

abbrev pub IsIpv4Frame : Ethernet → Ipv4 → Type 0
IsIpv4Frame e h = (length e.macs ≡ 12) × (e.ether_type ≡ eth_p_ip) × IsIpv4 h

parse_headers-ipv4 :
    (e : Ethernet) (h : Ipv4) (segment : List ℕ) (m : PacketMeta) (result : Bool × PacketMeta)
    → IsIpv4Frame e h
    → ipv4_result
        (encode_ethernet e ++ encode_ipv4 h segment)
        (length (encode_ethernet e))
        (record m { l2_type = outer_type e.tag e.ether_type })
      ≡ result
    → parse_headers (encode_ethernet e ++ encode_ipv4 h segment) m ≡ some result
unfolding l3_result
parse_headers-ipv4 e h segment m result (len, ip, v) inner =
    parse_headers_lem (encode_ethernet e ++ encode_ipv4 h segment) m
    ∙ ap some (
        headers_result-encode e.macs e.tag e.ether_type (encode_ipv4 h segment) m len (omega arith)
          (omega arith)
        ∙ ground (arith, inner))

-- A frame with an optional 802.1Q tag that carries UDP over IPv4, written out by the packed structs with
-- any IP options, is accepted, and its type, protocol, addresses, ports and payload size (modulo
-- 2 ^ 16) come back; the other metadata stays.
pub parse_headers-udp :
    (e : Ethernet) (h : Ipv4) (u : Udp) (payload : List ℕ) (m : PacketMeta)
    → IsIpv4Frame e h
    → h.protocol ≡ ipproto_udp
    → IsPorts u.sport u.dport
    → parse_headers (encode_ethernet e ++ encode_ipv4 h (encode_udp u payload)) m
      ≡ some (true, parsed_meta m e h u.sport u.dport (length payload))
parse_headers-udp e h u payload m f p k =
    parse_headers-ipv4 e h (encode_udp u payload) m
      (true, parsed_meta m e h u.sport u.dport (length payload)) f
      (ipv4_result-udp (encode_ethernet e) payload h u
        (record m { l2_type = outer_type e.tag e.ether_type }) f.2 p k)

-- A frame with an optional 802.1Q tag that carries TCP over IPv4, with any IP and TCP options, is
-- accepted, and its type, protocol, addresses, ports and payload size (modulo 2 ^ 16) come back; the
-- other metadata stays.
pub parse_headers-tcp :
    (e : Ethernet) (h : Ipv4) (t : Tcp) (payload : List ℕ) (m : PacketMeta)
    → IsIpv4Frame e h
    → h.protocol ≡ ipproto_tcp
    → IsTcp t
    → parse_headers (encode_ethernet e ++ encode_ipv4 h (encode_tcp t payload)) m
      ≡ some (true, parsed_meta m e h t.sport t.dport (length payload))
parse_headers-tcp e h t payload m f p k =
    parse_headers-ipv4 e h (encode_tcp t payload) m
      (true, parsed_meta m e h t.sport t.dport (length payload)) f
      (ipv4_result-tcp (encode_ethernet e) payload h t
        (record m { l2_type = outer_type e.tag e.ether_type }) f.2 p k)
