-- ===== src/Codel/Deficit.antt =====
-- What a quantum and a packet do to a deficit.
use aether_plane.Base.{
  ℕ, ◌+◌, ◌/◌, ◌^◌, ◌≤◌, ◌<◌, ◌≡◌, true, false, arith, u32, add32, sub32, sleb32,
}
use aether_plane.Codel.Sound.{IsDeficit, quanta}

pub add32-IsDeficit :
    (d : ℕ)
    → IsDeficit d
    → sleb32 d 0 ≡ true
    → IsDeficit (add32 d 1514) × (quanta (add32 d 1514) + 1 ≡ quanta d)
unfolding quanta
add32-IsDeficit d v h = ground arith

pub sub32-IsDeficit :
    (d n : ℕ)
    → IsDeficit d
    → sleb32 d 0 ≡ false
    → n < 2 ^ 30
    → IsDeficit (sub32 d (u32 n)) × (quanta (sub32 d (u32 n)) ≤ n / 1514 + 1)
unfolding quanta
sub32-IsDeficit d n v h k = ground arith
