-- ===== src/Fec/Crc.antt =====
-- firmware/core/fec/crc.h and crc.cpp: the checksums, bit by bit as the source computes them.
use skyblip.Base.{
  ℕ, zero, suc, ◌^◌, ◌<◌, ◌≡◌, refl, Bool, List, [], ◌∷◌, bit_and, bit_xor, u16, ◌<<<◌, ltb,
  if◌then◌else◌, arith,
}

-- `crc & mask` of a single-bit mask is not zero.
abbrev pub bit_set : ℕ → ℕ → Bool
bit_set x mask = ltb 0 (bit_and x mask)

-- One turn of the inner loop, eight times for each byte.
abbrev crc16_bit : ℕ → ℕ
crc16_bit crc = if bit_set crc 0x8000 then u16 (bit_xor (crc <<< 1) 0x1021) else u16 (crc <<< 1)

abbrev iterate : ℕ → (ℕ → ℕ) → ℕ → ℕ
iterate zero f x = x
iterate (suc n) f x = iterate n f (f x)

crc16_byte : ℕ → ℕ → ℕ
crc16_byte crc byte = iterate 8 crc16_bit (bit_xor crc (u16 (byte <<< 8)))

crc16_ccitt_from : ℕ → List ℕ → ℕ
unfolding crc16_byte
crc16_ccitt_from crc [] = crc
crc16_ccitt_from crc (b ∷ bs) = crc16_ccitt_from (crc16_byte crc b) bs

-- With the header's default start value.
unfoldable pub crc16_ccitt : List ℕ → ℕ
unfolding crc16_ccitt_from
crc16_ccitt bytes = crc16_ccitt_from 0 bytes

iterate-lt : (n x : ℕ) → iterate (suc n) crc16_bit x < 2 ^ 16
iterate-lt zero x = ground arith
iterate-lt (suc n) x = iterate-lt n (crc16_bit x)

crc16_byte-lt : (crc byte : ℕ) → crc16_byte crc byte < 2 ^ 16
unfolding crc16_byte
crc16_byte-lt crc byte = iterate-lt 7 (bit_xor crc (u16 (byte <<< 8)))

crc16_ccitt_from-lt :
    (bytes : List ℕ) (crc : ℕ) → crc < 2 ^ 16 → crc16_ccitt_from crc bytes < 2 ^ 16
unfolding crc16_ccitt_from
crc16_ccitt_from-lt [] crc h = h
crc16_ccitt_from-lt (b ∷ bs) crc h = crc16_ccitt_from-lt bs (crc16_byte crc b) (crc16_byte-lt crc b)

pub crc16_ccitt-lt : (bytes : List ℕ) → crc16_ccitt bytes < 2 ^ 16
unfolding crc16_ccitt
crc16_ccitt-lt bytes = crc16_ccitt_from-lt bytes 0 (omega arith)

-- The check value of the XMODEM form of this code: the text "123456789".
check_value :
    crc16_ccitt (0x31 ∷ 0x32 ∷ 0x33 ∷ 0x34 ∷ 0x35 ∷ 0x36 ∷ 0x37 ∷ 0x38 ∷ 0x39 ∷ []) ≡ 0x31c3
unfolding crc16_ccitt
check_value = refl
