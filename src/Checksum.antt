-- ===== src/Checksum.antt =====
-- include/core/checksum.hpp and src/core/checksum.cpp: `ChecksumEngine`. Memory is a list of bytes, and
-- a pointer the list from its position on. A `uint16_t` is read in the byte order of the host,
-- taken to be little-endian (x86, ARM); `htonl` and `htons` then store the highest byte first.
pub mod Sum
pub mod Fold
pub mod Laws
pub mod Update
pub mod Transport
mod Tests
use aether_plane.Base.{
  ℕ, zero, suc, ◌+◌, ◌-◌, ◌*◌, ◌/◌, ◌%◌, List, [], ◌∷◌, ◌++◌, bit_and, leb, ◌==◌, if◌then◌else◌,
  get_or, drop, u16, u32, add64, not32, not64, ◌>>>◌,
}

-- `*ptr` at `const uint16_t* ptr`
unfoldable pub word : List ℕ → ℕ
word ptr = get_or ptr 0 0 + get_or ptr 1 0 * 256

-- `ptr[i]`
unfoldable pub word_at : List ℕ → ℕ → ℕ
word_at ptr i = word (drop (2 * i) ptr)

-- The variables of the summing loops.
pub record Scan : Type 0 where
  pub ptr : List ℕ
  pub len : ℕ
  pub sum : ℕ

-- One round of the unrolled loop: eight words.
unfoldable pub block_step : Scan → Scan
block_step s =
    let s0 = add64 s.sum (word_at s.ptr 0) in
    let s1 = add64 s0 (word_at s.ptr 1) in
    let s2 = add64 s1 (word_at s.ptr 2) in
    let s3 = add64 s2 (word_at s.ptr 3) in
    let s4 = add64 s3 (word_at s.ptr 4) in
    let s5 = add64 s4 (word_at s.ptr 5) in
    let s6 = add64 s5 (word_at s.ptr 6) in
    let s7 = add64 s6 (word_at s.ptr 7) in
    record { ptr = drop 16 s.ptr; len = s.len - 16; sum = s7 }

-- `while (len >= 16)`, on fuel.
unfoldable pub sum_blocks : ℕ → Scan → Scan
sum_blocks zero s = s
sum_blocks (suc fuel) s =
    let rest = sum_blocks fuel (block_step s) in if leb 16 s.len then rest else s

-- `while (len >= 2)`, on fuel.
unfoldable pub sum_words_loop : ℕ → Scan → Scan
sum_words_loop zero s = s
sum_words_loop (suc fuel) s =
    let rest =
      sum_words_loop fuel
        (record { ptr = drop 2 s.ptr; len = s.len - 2; sum = add64 s.sum (word s.ptr) }) in
    if leb 2 s.len then rest else s

-- `if (len == 1)`: the odd byte.
unfoldable pub sum_odd : Scan → ℕ
sum_odd s = if s.len == 1 then add64 s.sum (get_or s.ptr 0 0) else s.sum

-- `while (sum >> 16)`, on fuel.
unfoldable pub fold : ℕ → ℕ → ℕ
fold zero sum = sum
fold (suc fuel) sum =
    let rest = fold fuel (add64 (bit_and sum 0xFFFF) (sum >>> 16)) in
    if sum >>> 16 == 0 then sum else rest

-- `static_cast<uint16_t>(~sum)` after the fold
unfoldable pub finish : ℕ → ℕ
finish sum = u16 (not64 (fold sum sum))

unfoldable pub compute_checksum : List ℕ → ℕ → ℕ
compute_checksum bytes len =
    let s = sum_blocks len (record { ptr = bytes; len = len; sum = 0 }) in
    finish (sum_odd (sum_words_loop len s))

unfoldable pub compute_ipv4_checksum : List ℕ → ℕ → ℕ
compute_ipv4_checksum ip_header len = compute_checksum ip_header len

-- The bytes in memory of `htonl(x)` and `htons(x)`.
unfoldable pub htonl_bytes : ℕ → List ℕ
htonl_bytes x = x / 16777216 % 256 ∷ x / 65536 % 256 ∷ x / 256 % 256 ∷ x % 256 ∷ []

unfoldable pub htons_bytes : ℕ → List ℕ
htons_bytes x = x / 256 % 256 ∷ x % 256 ∷ []

-- `struct PseudoHeader`, 12 bytes
unfoldable pub pseudo_header : ℕ → ℕ → ℕ → ℕ → List ℕ
pseudo_header src_ip dest_ip proto len =
    htonl_bytes src_ip ++ htonl_bytes dest_ip ++ (0 ∷ proto ∷ []) ++ htons_bytes (u16 len)

-- The loop over the six words of the header: `n` words left, from word `i` on.
unfoldable pub sum_header : ℕ → ℕ → List ℕ → ℕ → ℕ
sum_header zero i ph sum = sum
sum_header (suc n) i ph sum = sum_header n (i + 1) ph (add64 sum (word_at ph i))

-- The two transport checksums differ in the protocol number alone.
unfoldable pub transport_checksum : ℕ → ℕ → ℕ → List ℕ → ℕ → ℕ
transport_checksum proto src_ip dest_ip bytes len =
    let sum = sum_header 6 0 (pseudo_header src_ip dest_ip proto len) 0 in
    finish (sum_odd (sum_words_loop len (record { ptr = bytes; len = len; sum = sum })))

unfoldable pub compute_tcp_checksum : ℕ → ℕ → List ℕ → ℕ → ℕ
compute_tcp_checksum = transport_checksum 6

unfoldable pub compute_udp_checksum : ℕ → ℕ → List ℕ → ℕ → ℕ
compute_udp_checksum = transport_checksum 17

-- `while (sum >> 16)` on a `uint32_t`
unfoldable pub fold32 : ℕ → ℕ → ℕ
fold32 zero sum = sum
fold32 (suc fuel) sum =
    let rest = fold32 fuel (u32 (bit_and sum 0xFFFF + (sum >>> 16))) in
    if sum >>> 16 == 0 then sum else rest

unfoldable pub update_checksum_16 : ℕ → ℕ → ℕ → ℕ
update_checksum_16 old_csum old_val new_val =
    let sum = u32 (bit_and (not32 old_csum) 0xFFFF + bit_and (not32 old_val) 0xFFFF + new_val) in
    u16 (not32 (fold32 sum sum))

unfoldable pub update_checksum_32 : ℕ → ℕ → ℕ → ℕ
update_checksum_32 old_csum old_val new_val =
    let old_high = u16 (old_val >>> 16) in
    let old_low = u16 (bit_and old_val 0xFFFF) in
    let new_high = u16 (new_val >>> 16) in
    let new_low = u16 (bit_and new_val 0xFFFF) in
    let intermediate = update_checksum_16 old_csum old_high new_high in
    update_checksum_16 intermediate old_low new_low
