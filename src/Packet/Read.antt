-- ===== src/Packet/Read.antt =====
-- Reads of the packet buffer: a byte, and `ntohs` and `ntohl` of two and four bytes.
use aether_plane.Base.{
  ℕ, ◌+◌, ◌*◌, ◌<◌, ◌≡◌, Option, none, some, List, arith, length, get_elem?, get_or,
  get_elem?-eq-get_or,
}

infixl 5 ◌>>=◌
abbrev pub ◌>>=◌ {ℓ κ} : {A : Type ℓ} {B : Type κ} → Option A → (A → Option B) → Option B
none >>= k = none
some a >>= k = k a

unfoldable pub read8 : List ℕ → ℕ → Option ℕ
read8 b i = get_elem? b i

unfoldable pub read16 : List ℕ → ℕ → Option ℕ
read16 b i = do hi ← read8 b i; lo ← read8 b (i + 1); some (hi * 256 + lo)

unfoldable pub read32 : List ℕ → ℕ → Option ℕ
read32 b i = do hi ← read16 b i; lo ← read16 b (i + 2); some (hi * 65536 + lo)

-- What a read in range gives.
unfoldable pub byte_at : List ℕ → ℕ → ℕ
byte_at b i = get_or b i 0

unfoldable pub be16_at : List ℕ → ℕ → ℕ
be16_at b i = byte_at b i * 256 + byte_at b (i + 1)

unfoldable pub be32_at : List ℕ → ℕ → ℕ
be32_at b i = be16_at b i * 65536 + be16_at b (i + 2)

pub read8_lem : (b : List ℕ) (i : ℕ) → i < length b → read8 b i ≡ some (byte_at b i)
unfolding read8 byte_at
read8_lem b i h = get_elem?-eq-get_or b i 0 h

pub read16_lem : (b : List ℕ) (i : ℕ) → i + 1 < length b → read16 b i ≡ some (be16_at b i)
unfolding read16 be16_at
read16_lem b i h = ground (arith, read8_lem b i, read8_lem b (i + 1))

pub read32_lem : (b : List ℕ) (i : ℕ) → i + 3 < length b → read32 b i ≡ some (be32_at b i)
unfolding read32 be32_at
read32_lem b i h = ground (arith, read16_lem b i, read16_lem b (i + 2))
