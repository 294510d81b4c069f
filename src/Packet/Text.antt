-- ===== src/Packet/Text.antt =====
-- `ip_to_string`, `mac_to_string` and `to_string` of src/core/packet.cpp. Text is a list of character codes.
use aether_plane.Base.{
  ℕ, ◌+◌, ◌*◌, ◌/◌, ◌%◌, ◌^◌, ◌<◌, ◌≡◌, refl, ap, ◌∙◌, false, List, [], ◌∷◌, ◌++◌, append_assoc,
  Option, none, some, bit_and, ltb, ◌==◌, if◌then◌else◌, arith, ◌>>>◌,
}
use aether_plane.Base.Text.{decimal, is_digit, scan, scan-decimal, scan-separated}
use aether_plane.Base.Bits.{bit_and-mask}
use aether_plane.Packet.{Packet, class_index, size}
use aether_plane.Packet.Read.{◌>>=◌}

-- Four numbers with dots between them.
unfoldable pub ip_to_string : ℕ → List ℕ
ip_to_string ip =
    decimal (bit_and (ip >>> 24) 0xFF)
    ++ (46 ∷ decimal (bit_and (ip >>> 16) 0xFF)
        ++ (46 ∷ decimal (bit_and (ip >>> 8) 0xFF) ++ (46 ∷ decimal (bit_and ip 0xFF))))

-- A digit of `std::hex`.
abbrev pub hex_digit : ℕ → ℕ
hex_digit d = if ltb d 10 then 48 + d else 87 + d

-- A byte in hexadecimal, filled up to two digits.
abbrev pub hex_byte : ℕ → List ℕ
hex_byte b = hex_digit (b / 16) ∷ hex_digit (b % 16) ∷ []

-- The loop's rounds from `i` on; `mac` holds the bytes that are left.
abbrev pub mac_from : ℕ → List ℕ → List ℕ
mac_from i [] = []
mac_from i (b ∷ mac) =
    let rest = hex_byte b ++ mac_from (i + 1) mac in if ltb 0 i then 58 ∷ rest else rest

-- `mac` has six bytes.
unfoldable pub mac_to_string : List ℕ → List ℕ
mac_to_string mac = mac_from 0 mac

-- `[Packet Len=`, ` B | `, ` -> `, ` | Proto=` and ` | Class=`
abbrev packet_len_text : List ℕ
packet_len_text = 91 ∷ 80 ∷ 97 ∷ 99 ∷ 107 ∷ 101 ∷ 116 ∷ 32 ∷ 76 ∷ 101 ∷ 110 ∷ 61 ∷ []

abbrev bytes_text : List ℕ
bytes_text = 32 ∷ 66 ∷ 32 ∷ 124 ∷ 32 ∷ []

abbrev arrow_text : List ℕ
arrow_text = 32 ∷ 45 ∷ 62 ∷ 32 ∷ []

abbrev proto_text : List ℕ
proto_text = 32 ∷ 124 ∷ 32 ∷ 80 ∷ 114 ∷ 111 ∷ 116 ∷ 111 ∷ 61 ∷ []

abbrev class_text : List ℕ
class_text = 32 ∷ 124 ∷ 32 ∷ 67 ∷ 108 ∷ 97 ∷ 115 ∷ 115 ∷ 61 ∷ []

unfoldable pub to_string : Packet → List ℕ
to_string p =
    let m = p.meta in
    packet_len_text
    ++ (decimal (size p)
        ++ (bytes_text
            ++ (ip_to_string m.src_ip
                ++ (58 ∷ decimal m.src_port
                    ++ (arrow_text
                        ++ (ip_to_string m.dest_ip
                            ++ (58 ∷ decimal m.dest_port
                                ++ (proto_text
                                    ++ (decimal m.l3_proto
                                        ++ (class_text
                                            ++ (decimal (class_index m.traffic_class)
                                                ++ (93 ∷ []))))))))))))

-- Reading an address back: a number, a dot, and so on, and what follows.
abbrev pub after_dot : ℕ × List ℕ → Option (ℕ × List ℕ)
after_dot (n, []) = none
after_dot (n, c ∷ cs) = if c == 46 then some (n, cs) else none

unfoldable pub read_ip : List ℕ → Option (ℕ × List ℕ)
read_ip text = do
  a ← after_dot (scan 0 text)
  b ← after_dot (scan 0 a.1)
  c ← after_dot (scan 0 b.1)
  let d = scan 0 c.1
  some (a.0 * 16777216 + b.0 * 65536 + c.0 * 256 + d.0, d.1)

-- The text of an address.
abbrev pub dotted : ℕ → ℕ → ℕ → ℕ → List ℕ → List ℕ
dotted a b c d rest = decimal a ++ (46 ∷ decimal b ++ (46 ∷ decimal c ++ (46 ∷ decimal d ++ rest)))

-- The text `rest` does not go on with a digit.
abbrev pub IsEnd : List ℕ → Type 0
IsEnd [] = Unit {0}
IsEnd (c ∷ cs) = is_digit c ≡ false

scan-end : (n : ℕ) (rest : List ℕ) → IsEnd rest → scan 0 (decimal n ++ rest) ≡ (n, rest)
scan-end n [] h = scan-decimal n []
scan-end n (c ∷ cs) h = scan-separated n c cs h

read_ip-dotted :
    (a b c d : ℕ) (rest : List ℕ)
    → IsEnd rest
    → read_ip (dotted a b c d rest) ≡ some (a * 16777216 + b * 65536 + c * 256 + d, rest)
unfolding read_ip
read_ip-dotted a b c d rest h =
    rw (scan-separated a 46 (decimal b ++ (46 ∷ decimal c ++ (46 ∷ decimal d ++ rest))) refl) (
      rw (scan-separated b 46 (decimal c ++ (46 ∷ decimal d ++ rest)) refl)
        (rw (scan-separated c 46 (decimal d ++ rest) refl) (rw (scan-end d rest h) refl)))

ip_to_string-dotted :
    (ip : ℕ) (rest : List ℕ)
    → ip_to_string ip ++ rest
      ≡ dotted
          (bit_and (ip >>> 24) 0xFF)
          (bit_and (ip >>> 16) 0xFF)
          (bit_and (ip >>> 8) 0xFF)
          (bit_and ip 0xFF)
          rest
unfolding ip_to_string
ip_to_string-dotted ip rest = simp (append_assoc)

-- The text of an address below 2 ^ 32, followed by text that does not start with a digit, is read back as the
-- address and the text that follows.
pub read_ip-ip_to_string :
    (ip : ℕ) (rest : List ℕ)
    → ip < 2 ^ 32
    → IsEnd rest
    → read_ip (ip_to_string ip ++ rest) ≡ some (ip, rest)
read_ip-ip_to_string ip rest h k =
    ap read_ip (ip_to_string-dotted ip rest)
    ∙ read_ip-dotted (bit_and (ip >>> 24) 0xFF) (bit_and (ip >>> 16) 0xFF) (bit_and (ip >>> 8) 0xFF)
        (bit_and ip 0xFF) rest k
    ∙ ap (λ (n : ℕ). some (n, rest))
        (omega (
          arith,
          bit_and-mask 8 (ip >>> 24),
          bit_and-mask 8 (ip >>> 16),
          bit_and-mask 8 (ip >>> 8),
          bit_and-mask 8 ip,
        ))
