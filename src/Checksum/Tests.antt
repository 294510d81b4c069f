-- ===== src/Checksum/Tests.antt =====
-- Checksums of small messages, and the theorems at inputs.
use aether_plane.Base.{ℕ, ◌-◌, ◌≡◌, refl, List, [], ◌∷◌, ◌++◌, arith}
use aether_plane.Checksum.{
  word, word_at, block_step, sum_blocks, sum_words_loop, sum_odd, fold, finish, compute_checksum,
  compute_ipv4_checksum, compute_tcp_checksum, compute_udp_checksum, update_checksum_16,
  update_checksum_32,
}
use aether_plane.Checksum.Fold.{ones_sum}
use aether_plane.Checksum.Sum.{sum_words}
use aether_plane.Checksum.Laws.{with_word, IsAround, compute_checksum-rfc1071}
use aether_plane.Checksum.Update.{
  checksum_of, with_dword, compute_checksum-verify, update_checksum_16-recompute,
  update_checksum_16-zeros, update_checksum_32-recompute,
}
use aether_plane.Checksum.Transport.{rfc_header, transport_checksums}

-- An IPv4 header without its checksum, in two parts round the checksum's place.
abbrev head : List ℕ
head = 0x45 ∷ 0 ∷ 0 ∷ 0x3c ∷ 0x1c ∷ 0x46 ∷ 0x40 ∷ 0 ∷ 0x40 ∷ 0x06 ∷ []

abbrev rest : List ℕ
rest = 0xac ∷ 0x10 ∷ 0x0a ∷ 0x63 ∷ 0xac ∷ 0x10 ∷ 0x0a ∷ 0x0c ∷ []

-- RFC 1071 gives 0xb1e6 in network order: 0xe6b1 as a little-endian word.
header_checksum : compute_ipv4_checksum (with_word head 0 rest) 20 ≡ 0xe6b1
unfolding compute_ipv4_checksum compute_checksum sum_blocks block_step word_at word sum_words_loop
    sum_odd finish fold
header_checksum = refl

around : IsAround head rest
around = record {
  bytes_before = omega arith;
  bytes_after = omega arith;
  even = tt;
  short = omega arith;
}

compute_checksum-rfc1071_example :
    compute_checksum (1 ∷ 2 ∷ 3 ∷ []) 3 ≡ 65535 - ones_sum (sum_words (1 ∷ 2 ∷ 3 ∷ []))
compute_checksum-rfc1071_example =
    compute_checksum-rfc1071 (1 ∷ 2 ∷ 3 ∷ []) (omega arith) (omega arith)

compute_checksum-verify_example :
    checksum_of (with_word head (checksum_of (with_word head 0 rest)) rest) ≡ 0
compute_checksum-verify_example = compute_checksum-verify head rest around

update_checksum_16-recompute_example :
    update_checksum_16 (checksum_of (with_word head 7 rest)) 7 6
    ≡ checksum_of (with_word head 6 rest)
unfolding sum_words
update_checksum_16-recompute_example =
    update_checksum_16-recompute head 7 6 rest around (omega arith) (omega arith) (omega arith)

update_checksum_16-zeros_example :
    (update_checksum_16 (checksum_of (with_word [] 7 [])) 7 0 ≡ 0)
    × (checksum_of (with_word [] 0 []) ≡ 65535)
unfolding sum_words
update_checksum_16-zeros_example =
    update_checksum_16-zeros [] 7 []
      (record { bytes_before = tt; bytes_after = tt; even = tt; short = omega arith }) (omega arith)
      (omega arith) refl

update_checksum_32-recompute_example :
    update_checksum_32 (checksum_of (with_dword head 0xC0A80101 [])) 0xC0A80101 0x0A000001
    ≡ checksum_of (with_dword head 0x0A000001 [])
unfolding sum_words
update_checksum_32-recompute_example =
    update_checksum_32-recompute head 0xC0A80101 0x0A000001 []
      (record {
        bytes_before = omega arith;
        bytes_after = omega arith;
        even = tt;
        short = omega arith;
      })
      (omega arith) (omega arith) (omega arith)

transport_checksums_example :
    (compute_tcp_checksum 0xC0A80101 0x0A000001 rest 8
      ≡ checksum_of (rfc_header 0xC0A80101 0x0A000001 6 8 ++ rest))
    × (compute_udp_checksum 0xC0A80101 0x0A000001 rest 8
        ≡ checksum_of (rfc_header 0xC0A80101 0x0A000001 17 8 ++ rest))
transport_checksums_example =
    transport_checksums 0xC0A80101 0x0A000001 rest (omega arith) (omega arith)
