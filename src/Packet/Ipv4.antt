-- ===== src/Packet/Ipv4.antt =====
-- `parse_headers` on a written IPv4 header with options, and the UDP or TCP segment behind it.
use aether_plane.Base.{
  ℕ, ◌+◌, ◌*◌, ◌≡◌, ap, ap₂, ◌∙◌, sym, true, List, ◌++◌, append_assoc, arith, length, length-append,
  u16,
}
use aether_plane.Base.Bits.{bit_and-mask}
use aether_plane.Packet.{PacketMeta, ipproto_tcp, ipproto_udp, payload_after}
use aether_plane.Packet.Read.{byte_at, be16_at, be32_at}
use aether_plane.Packet.Safe.{l4_result, header_len, ipv4_result}
use aether_plane.Packet.Encode.{
  Ipv4, encode_ipv4_fixed, IsIpv4, Udp, encode_udp, Tcp, encode_tcp, byte_at-append,
  byte_at-append_zero, be32_at-append,
}
use aether_plane.Packet.Transport.{IsPorts, l4_result-udp, IsTcp, l4_result-tcp}

abbrev pub with_addresses : PacketMeta → Ipv4 → PacketMeta
with_addresses m h = record m { l3_proto = h.protocol; src_ip = h.src; dest_ip = h.dest }

-- An IPv4 packet that carries `segment`.
abbrev pub encode_ipv4 : Ipv4 → List ℕ → List ℕ
encode_ipv4 h segment = encode_ipv4_fixed h ++ (h.options ++ segment)

module _ (pre segment : List ℕ) (h : Ipv4) (v : IsIpv4 h) where
  abbrev bytes : List ℕ
  bytes = pre ++ encode_ipv4 h segment

  header_len-bytes : header_len bytes (length pre) ≡ 20 + 4 * h.words
  unfolding byte_at
  header_len-bytes = omega (
    arith,
    byte_at-append_zero pre (encode_ipv4 h segment),
    bit_and-mask 4 (byte_at bytes (length pre)),
  )

  length-bytes : length bytes ≡ length pre + (20 + 4 * h.words) + length segment
  length-bytes = omega (
    arith,
    length-append pre (encode_ipv4 h segment),
    length-append h.options segment,
    v.options_fit,
  )

  fields :
      (byte_at bytes (length pre + 9) ≡ h.protocol)
      × (be32_at bytes (length pre + 12) ≡ h.src)
      × (be32_at bytes (length pre + 16) ≡ h.dest)
  unfolding byte_at be16_at be32_at
  fields = (
    byte_at-append pre (encode_ipv4 h segment) 9,
    be32_at-append pre (encode_ipv4 h segment) 12 ∙ omega arith,
    be32_at-append pre (encode_ipv4 h segment) 16 ∙ omega arith,
  )

  ipv4_result-encode :
      (m : PacketMeta)
      → ipv4_result bytes (length pre) m ≡ (
          let r = l4_result bytes (length pre + (20 + 4 * h.words)) (with_addresses m h) in
          (true, record (r.0) { payload_size = payload_after (length bytes) r.1 }))
  unfolding ipv4_result
  ipv4_result-encode m =
      ground (arith, header_len-bytes, length-bytes, fields.0, fields.1, fields.2)

  regroup : bytes ≡ (pre ++ (encode_ipv4_fixed h ++ h.options)) ++ segment
  regroup = sym (
      append_assoc pre (encode_ipv4_fixed h ++ h.options) segment
      ∙ ap (λ xs. pre ++ xs) (append_assoc (encode_ipv4_fixed h) h.options segment))

  length_before :
      length pre + (20 + 4 * h.words) ≡ length (pre ++ (encode_ipv4_fixed h ++ h.options))
  length_before = omega (arith, length-append pre (encode_ipv4_fixed h ++ h.options), v.options_fit)

  l4_result-regroup :
      (m : PacketMeta)
      → l4_result bytes (length pre + (20 + 4 * h.words)) m
        ≡ l4_result
            ((pre ++ (encode_ipv4_fixed h ++ h.options)) ++ segment)
            (length (pre ++ (encode_ipv4_fixed h ++ h.options)))
            m
  l4_result-regroup m = ap₂ (λ b o. l4_result b o m) regroup length_before

-- The metadata that a parse of these headers leaves.
abbrev pub flow_meta : PacketMeta → Ipv4 → ℕ → ℕ → ℕ → PacketMeta
flow_meta m h sport dport payload_len = record m {
  l3_proto = h.protocol;
  src_ip = h.src;
  dest_ip = h.dest;
  src_port = sport;
  dest_port = dport;
  payload_size = u16 payload_len;
}

pub ipv4_result-udp :
    (pre payload : List ℕ) (h : Ipv4) (u : Udp) (m : PacketMeta)
    → IsIpv4 h
    → h.protocol ≡ ipproto_udp
    → IsPorts u.sport u.dport
    → ipv4_result (pre ++ encode_ipv4 h (encode_udp u payload)) (length pre) m
      ≡ (true, flow_meta m h u.sport u.dport (length payload))
unfolding payload_after
ipv4_result-udp pre payload h u m v e k =
    let before = pre ++ (encode_ipv4_fixed h ++ h.options) in
    let segment = encode_udp u payload in
    ground (
      arith,
      ipv4_result-encode pre segment h v m,
      l4_result-regroup pre segment h v (with_addresses m h),
      l4_result-udp before payload u (with_addresses m h) e k,
      length-bytes pre segment h v,
      length_before pre segment h v,
    )

pub ipv4_result-tcp :
    (pre payload : List ℕ) (h : Ipv4) (t : Tcp) (m : PacketMeta)
    → IsIpv4 h
    → h.protocol ≡ ipproto_tcp
    → IsTcp t
    → ipv4_result (pre ++ encode_ipv4 h (encode_tcp t payload)) (length pre) m
      ≡ (true, flow_meta m h t.sport t.dport (length payload))
unfolding payload_after
ipv4_result-tcp pre payload h t m v e k =
    let before = pre ++ (encode_ipv4_fixed h ++ h.options) in
    let segment = encode_tcp t payload in
    ground (
      arith,
      ipv4_result-encode pre segment h v m,
      l4_result-regroup pre segment h v (with_addresses m h),
      l4_result-tcp before payload t (with_addresses m h) e k,
      length-bytes pre segment h v,
      length_before pre segment h v,
      length-append t.tcp_options payload,
    )
