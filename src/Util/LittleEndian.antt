-- ===== src/Util/LittleEndian.antt =====
-- firmware/core/util/little_endian.h: words as bytes, the lowest first. A buffer is a list of bytes;
-- a `put` gives the bytes it writes, a `get` reads the bytes at an offset and the ones after it.
use skyblip.Base.{ℕ, ◌+◌, ◌^◌, ◌<◌, ◌≡◌, List, [], ◌∷◌, get_or, u8, ◌>>>◌, ◌<<<◌, arith}

unfoldable pub put_uint16 : ℕ → List ℕ
put_uint16 value = u8 value ∷ u8 (value >>> 8) ∷ []

unfoldable pub put_uint24 : ℕ → List ℕ
put_uint24 value = u8 value ∷ u8 (value >>> 8) ∷ u8 (value >>> 16) ∷ []

unfoldable pub put_uint32 : ℕ → List ℕ
put_uint32 value = u8 value ∷ u8 (value >>> 8) ∷ u8 (value >>> 16) ∷ u8 (value >>> 24) ∷ []

abbrev pub byte_at : List ℕ → ℕ → ℕ
byte_at bytes i = get_or bytes i 0

-- The fields do not overlap, so `|` of the source is a sum.
unfoldable pub get_uint16 : List ℕ → ℕ → ℕ
get_uint16 bytes at = byte_at bytes at + byte_at bytes (at + 1) <<< 8

unfoldable pub get_uint24 : List ℕ → ℕ → ℕ
get_uint24 bytes at =
    byte_at bytes at + byte_at bytes (at + 1) <<< 8 + byte_at bytes (at + 2) <<< 16

unfoldable pub get_uint32 : List ℕ → ℕ → ℕ
get_uint32 bytes at =
    byte_at bytes at
    + byte_at bytes (at + 1) <<< 8
    + byte_at bytes (at + 2) <<< 16
    + byte_at bytes (at + 3) <<< 24

-- The bytes of a word that fits add up to it again.
pub uint16_bytes : (v : ℕ) → v < 2 ^ 16 → u8 v + u8 (v >>> 8) <<< 8 ≡ v
uint16_bytes v h = omega arith

pub uint24_bytes : (v : ℕ) → v < 2 ^ 24 → u8 v + u8 (v >>> 8) <<< 8 + u8 (v >>> 16) <<< 16 ≡ v
uint24_bytes v h = omega arith

pub uint32_bytes :
    (v : ℕ)
    → v < 2 ^ 32
    → u8 v + u8 (v >>> 8) <<< 8 + u8 (v >>> 16) <<< 16 + u8 (v >>> 24) <<< 24 ≡ v
uint32_bytes v h = omega arith
