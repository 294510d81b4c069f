-- ===== src/Packet/Encode.antt =====
-- Frames written out field by field, as the packed structs of include/core/packet.hpp lay them out: what a
-- sender puts on the wire. `parse_headers` is checked against them.
use aether_plane.Base.{
  ℕ, suc, ◌+◌, ◌*◌, ◌/◌, ◌%◌, ◌^◌, ◌≤◌, ◌<◌, ◌≡◌, ◌≢◌, ap, ◌∙◌, Option, none, some, List, [], ◌∷◌,
  ◌++◌, arith, length,
}
use aether_plane.Packet.Read.{byte_at, be16_at, be32_at}

-- Big-endian fields.
abbrev pub be16 : ℕ → List ℕ
be16 v = v / 256 % 256 ∷ v % 256 ∷ []

abbrev pub be32 : ℕ → List ℕ
be32 v = v / 16777216 % 256 ∷ v / 65536 % 256 ∷ v / 256 % 256 ∷ v % 256 ∷ []

-- Six bytes each of destination and source, an optional 802.1Q tag, and the type.
pub record Ethernet : Type 0 where
  pub macs : List ℕ
  pub tag : Option ℕ
  pub ether_type : ℕ

abbrev pub encode_type : Option ℕ → ℕ → List ℕ
encode_type none t = be16 t
encode_type (some tci) t = be16 0x8100 ++ (be16 tci ++ be16 t)

abbrev pub encode_ethernet : Ethernet → List ℕ
encode_ethernet e = e.macs ++ encode_type e.tag e.ether_type

-- The type field behind the addresses.
abbrev pub outer_type : Option ℕ → ℕ → ℕ
outer_type none t = t
outer_type (some tci) t = 0x8100

pub record IsEthernet (e : Ethernet) : Type 0 where
  pub macs_fit : length e.macs ≡ 12
  pub type_word : e.ether_type < 65536
  pub untagged : e.ether_type ≢ 0x8100

-- `words` is the number of 32-bit words of options.
pub record Ipv4 : Type 0 where
  pub tos : ℕ
  pub total_length : ℕ
  pub id : ℕ
  pub fragment : ℕ
  pub ttl : ℕ
  pub protocol : ℕ
  pub checksum : ℕ
  pub src : ℕ
  pub dest : ℕ
  pub words : ℕ
  pub options : List ℕ

abbrev pub encode_ipv4_fixed : Ipv4 → List ℕ
encode_ipv4_fixed h =
    (0x45 + h.words)
    ∷ h.tos
    ∷ (be16 h.total_length
        ++ (be16 h.id
            ++ (be16 h.fragment
                ++ (h.ttl ∷ h.protocol ∷ (be16 h.checksum ++ (be32 h.src ++ be32 h.dest))))))

pub record IsIpv4 (h : Ipv4) : Type 0 where
  pub words_fit : h.words ≤ 10
  pub options_fit : length h.options ≡ 4 * h.words
  pub src_word : h.src < 2 ^ 32
  pub dest_word : h.dest < 2 ^ 32

pub record Udp : Type 0 where
  pub sport : ℕ
  pub dport : ℕ
  pub udp_length : ℕ
  pub udp_checksum : ℕ

abbrev pub encode_udp : Udp → List ℕ → List ℕ
encode_udp u payload =
    be16 u.sport ++ (be16 u.dport ++ (be16 u.udp_length ++ (be16 u.udp_checksum ++ payload)))

-- `extra` is the number of 32-bit words of TCP options, `flags` the twelve bits behind the offset.
pub record Tcp : Type 0 where
  pub sport : ℕ
  pub dport : ℕ
  pub seq : ℕ
  pub ack : ℕ
  pub extra : ℕ
  pub flags : ℕ
  pub window : ℕ
  pub tcp_checksum : ℕ
  pub urgent : ℕ
  pub tcp_options : List ℕ

abbrev pub encode_tcp : Tcp → List ℕ → List ℕ
encode_tcp t payload =
    be16 t.sport
    ++ (be16 t.dport
        ++ (be32 t.seq
            ++ (be32 t.ack
                ++ (be16 ((5 + t.extra) * 4096 + t.flags)
                    ++ (be16 t.window
                        ++ (be16 t.tcp_checksum
                            ++ (be16 t.urgent ++ (t.tcp_options ++ payload))))))))

-- Reading behind a prefix.
pub byte_at-append : (pre xs : List ℕ) (i : ℕ) → byte_at (pre ++ xs) (length pre + i) ≡ byte_at xs i
unfolding byte_at
byte_at-append [] xs i = ap (byte_at xs) (omega arith)
byte_at-append (p ∷ pre) xs i =
    ap (byte_at (p ∷ (pre ++ xs)))
      (let e : suc (length pre) + i ≡ suc (length pre + i) = omega arith in e)
    ∙ byte_at-append pre xs i

pub be16_at-append : (pre xs : List ℕ) (i : ℕ) → be16_at (pre ++ xs) (length pre + i) ≡ be16_at xs i
unfolding be16_at
be16_at-append pre xs i = omega (
  arith,
  byte_at-append pre xs i,
  byte_at-append pre xs (i + 1),
  ap (byte_at (pre ++ xs)) (let e : length pre + i + 1 ≡ length pre + (i + 1) = omega arith in e),
)

pub be32_at-append : (pre xs : List ℕ) (i : ℕ) → be32_at (pre ++ xs) (length pre + i) ≡ be32_at xs i
unfolding be32_at
be32_at-append pre xs i = omega (
  arith,
  be16_at-append pre xs i,
  be16_at-append pre xs (i + 2),
  ap (be16_at (pre ++ xs)) (let e : length pre + i + 2 ≡ length pre + (i + 2) = omega arith in e),
)

pub byte_at-append_zero : (pre xs : List ℕ) → byte_at (pre ++ xs) (length pre) ≡ byte_at xs 0
byte_at-append_zero pre xs =
    ap (byte_at (pre ++ xs)) (let e : length pre ≡ length pre + 0 = omega arith in e)
    ∙ byte_at-append pre xs 0

pub be16_at-append_zero : (pre xs : List ℕ) → be16_at (pre ++ xs) (length pre) ≡ be16_at xs 0
be16_at-append_zero pre xs =
    ap (be16_at (pre ++ xs)) (let e : length pre ≡ length pre + 0 = omega arith in e)
    ∙ be16_at-append pre xs 0
