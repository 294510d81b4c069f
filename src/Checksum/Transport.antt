-- ===== src/Checksum/Transport.antt =====
-- The TCP and UDP checksums: the checksum of the pseudo header followed by the segment.
use aether_plane.Base.{
  [], ◌∷◌, ◌/◌, ◌%◌, u16, ap₂, ℕ, ◌+◌, ◌-◌, ◌^◌, ◌<◌, ◌≡◌, refl, sym, ap, ◌∙◌, List, ◌++◌, arith,
  length,
}
use aether_plane.Checksum.{
  word, word_at, htonl_bytes, htons_bytes, pseudo_header, sum_header, transport_checksum,
  compute_tcp_checksum, compute_udp_checksum, finish,
}
use aether_plane.Checksum.Fold.{ones_sum, finish_lem}
use aether_plane.Checksum.Sum.{sum_words, AreBytes, sum_words_loop-total}
use aether_plane.Checksum.Laws.{sum_words-lt, compute_checksum-rfc1071}
use aether_plane.Checksum.Update.{checksum_of}
use aether_plane.Packet.Encode.{be16, be32}

sum_header-sum_words :
    (src dest proto len : ℕ)
    → proto < 256
    → sum_header 6 0 (pseudo_header src dest proto len) 0
      ≡ sum_words (pseudo_header src dest proto len)
unfolding sum_header word_at word pseudo_header htonl_bytes htons_bytes sum_words
sum_header-sum_words src dest proto len h = omega arith

sum_words-pseudo_header :
    (src dest proto len : ℕ) (bytes : List ℕ)
    → sum_words (pseudo_header src dest proto len ++ bytes)
      ≡ sum_words (pseudo_header src dest proto len) + sum_words bytes
unfolding pseudo_header htonl_bytes htons_bytes sum_words
sum_words-pseudo_header src dest proto len bytes = omega arith

sum_words-pseudo_header-lt :
    (src dest proto len : ℕ) → proto < 256 → sum_words (pseudo_header src dest proto len) < 2 ^ 20
unfolding pseudo_header htonl_bytes htons_bytes sum_words
sum_words-pseudo_header-lt src dest proto len h = omega arith

pseudo_header-AreBytes :
    (src dest proto len : ℕ) (bytes : List ℕ)
    → proto < 256
    → AreBytes bytes
    → AreBytes (pseudo_header src dest proto len ++ bytes)
unfolding pseudo_header htonl_bytes htons_bytes
pseudo_header-AreBytes src dest proto len bytes h hb = ground arith

length-pseudo_header :
    (src dest proto len : ℕ) (bytes : List ℕ)
    → length (pseudo_header src dest proto len ++ bytes) ≡ 12 + length bytes
unfolding pseudo_header htonl_bytes htons_bytes
length-pseudo_header src dest proto len bytes = omega arith

transport_checksum-sum :
    (proto src dest : ℕ) (bytes : List ℕ)
    → proto < 256
    → AreBytes bytes
    → length bytes < 2 ^ 39
    → transport_checksum proto src dest bytes (length bytes)
      ≡ checksum_of (pseudo_header src dest proto (length bytes) ++ bytes)
unfolding transport_checksum
transport_checksum-sum proto src dest bytes hp hb lt =
    let n = length bytes in
    let ph = pseudo_header src dest proto n in
    let header = sum_words ph in
    let small : header < 2 ^ 20 = sum_words-pseudo_header-lt src dest proto n hp in
    rw (sum_header-sum_words src dest proto n hp) (
      ap finish (
        sum_words_loop-total n (record { ptr = bytes; len = n; sum = header }) (omega arith)
          (record { exact = refl; bytes = hb; room = omega arith }))
      ∙ finish_lem (header + sum_words bytes) (omega (arith, sum_words-lt bytes hb)))
    ∙ ap (λ s. 65535 - ones_sum s) (sym (sum_words-pseudo_header src dest proto n bytes))
    ∙ sym (
        compute_checksum-rfc1071 (ph ++ bytes) (pseudo_header-AreBytes src dest proto n bytes hp hb)
          (omega (arith, length-pseudo_header src dest proto n bytes)))

-- The pseudo header as RFC 793 and RFC 768 draw it: source address, destination address, a zero byte,
-- protocol number, and the length of the segment, the highest byte of each field first.
abbrev pub rfc_header : ℕ → ℕ → ℕ → ℕ → List ℕ
rfc_header src dest proto len = be32 src ++ (be32 dest ++ (0 ∷ proto ∷ be16 len))

low_byte : (n : ℕ) → u16 n % 256 ≡ n % 256
low_byte n = omega arith

high_byte : (n : ℕ) → u16 n / 256 % 256 ≡ n / 256 % 256
high_byte n = omega arith

pseudo_header-rfc_header :
    (src dest proto len : ℕ) → pseudo_header src dest proto len ≡ rfc_header src dest proto len
unfolding pseudo_header htonl_bytes htons_bytes
pseudo_header-rfc_header src dest proto len =
    ap₂ (λ a b. be32 src ++ (be32 dest ++ (0 ∷ proto ∷ a ∷ b ∷ []))) (high_byte len) (low_byte len)

-- For a list of bytes shorter than 2 ^ 39, the TCP checksum of the segment, computed with its length, is the checksum
-- of the twelve bytes source address, destination address, 0, 6 and length, and of the segment behind them, every
-- field with its highest byte first and the length modulo 2 ^ 16; the UDP checksum is the same with 17 in place of 6.
pub transport_checksums :
    (src dest : ℕ) (bytes : List ℕ)
    → AreBytes bytes
    → length bytes < 2 ^ 39
    → (compute_tcp_checksum src dest bytes (length bytes)
        ≡ checksum_of (rfc_header src dest 6 (length bytes) ++ bytes))
      × (compute_udp_checksum src dest bytes (length bytes)
          ≡ checksum_of (rfc_header src dest 17 (length bytes) ++ bytes))
unfolding compute_tcp_checksum compute_udp_checksum
transport_checksums src dest bytes hb lt =
    let framed = λ (proto : ℕ).
      ap (λ h. checksum_of (h ++ bytes)) (pseudo_header-rfc_header src dest proto (length bytes)) in
    (
      transport_checksum-sum 6 src dest bytes (omega arith) hb lt ∙ framed 6,
      transport_checksum-sum 17 src dest bytes (omega arith) hb lt ∙ framed 17,
    )
