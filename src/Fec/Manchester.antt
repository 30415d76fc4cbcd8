-- ===== src/Fec/Manchester.antt =====
-- firmware/core/fec/manchester.h and manchester.cpp: two chips for each bit, and the pairs of chips
-- that no transmitter sends. The buffers are lists of bytes, and `|` of fields that do not overlap
-- is a sum.
pub mod Pairs
pub mod RoundTrip
use skyblip.Base.{ℕ, zero, suc, ◌+◌, ◌*◌, ◌/◌, ◌%◌, List, [], ◌∷◌, get_or}
use skyblip.Util.LittleEndian.{byte_at}

abbrev pub encode_table : List ℕ
encode_table =
    0xaa ∷ 0xa9 ∷ 0xa6 ∷ 0xa5 ∷ 0x9a ∷ 0x99 ∷ 0x96 ∷ 0x95 ∷ 0x6a ∷ 0x69 ∷ 0x66 ∷ 0x65 ∷ 0x5a ∷ 0x59
    ∷ 0x56 ∷ 0x55 ∷ []

abbrev decode_table : List ℕ
decode_table =
    0xf0 ∷ 0xe1 ∷ 0xe0 ∷ 0xf1 ∷ 0xd2 ∷ 0xc3 ∷ 0xc2 ∷ 0xd3 ∷ 0xd0 ∷ 0xc1 ∷ 0xc0 ∷ 0xd1 ∷ 0xf2 ∷ 0xe3
    ∷ 0xe2 ∷ 0xf3 ∷ 0xb4 ∷ 0xa5 ∷ 0xa4 ∷ 0xb5 ∷ 0x96 ∷ 0x87 ∷ 0x86 ∷ 0x97 ∷ 0x94 ∷ 0x85 ∷ 0x84
    ∷ 0x95 ∷ 0xb6 ∷ 0xa7 ∷ 0xa6 ∷ 0xb7 ∷ 0xb0 ∷ 0xa1 ∷ 0xa0 ∷ 0xb1 ∷ 0x92 ∷ 0x83 ∷ 0x82 ∷ 0x93
    ∷ 0x90 ∷ 0x81 ∷ 0x80 ∷ 0x91 ∷ 0xb2 ∷ 0xa3 ∷ 0xa2 ∷ 0xb3 ∷ 0xf4 ∷ 0xe5 ∷ 0xe4 ∷ 0xf5 ∷ 0xd6
    ∷ 0xc7 ∷ 0xc6 ∷ 0xd7 ∷ 0xd4 ∷ 0xc5 ∷ 0xc4 ∷ 0xd5 ∷ 0xf6 ∷ 0xe7 ∷ 0xe6 ∷ 0xf7 ∷ 0x78 ∷ 0x69
    ∷ 0x68 ∷ 0x79 ∷ 0x5a ∷ 0x4b ∷ 0x4a ∷ 0x5b ∷ 0x58 ∷ 0x49 ∷ 0x48 ∷ 0x59 ∷ 0x7a ∷ 0x6b ∷ 0x6a
    ∷ 0x7b ∷ 0x3c ∷ 0x2d ∷ 0x2c ∷ 0x3d ∷ 0x1e ∷ 0x0f ∷ 0x0e ∷ 0x1f ∷ 0x1c ∷ 0x0d ∷ 0x0c ∷ 0x1d
    ∷ 0x3e ∷ 0x2f ∷ 0x2e ∷ 0x3f ∷ 0x38 ∷ 0x29 ∷ 0x28 ∷ 0x39 ∷ 0x1a ∷ 0x0b ∷ 0x0a ∷ 0x1b ∷ 0x18
    ∷ 0x09 ∷ 0x08 ∷ 0x19 ∷ 0x3a ∷ 0x2b ∷ 0x2a ∷ 0x3b ∷ 0x7c ∷ 0x6d ∷ 0x6c ∷ 0x7d ∷ 0x5e ∷ 0x4f
    ∷ 0x4e ∷ 0x5f ∷ 0x5c ∷ 0x4d ∷ 0x4c ∷ 0x5d ∷ 0x7e ∷ 0x6f ∷ 0x6e ∷ 0x7f ∷ 0x70 ∷ 0x61 ∷ 0x60
    ∷ 0x71 ∷ 0x52 ∷ 0x43 ∷ 0x42 ∷ 0x53 ∷ 0x50 ∷ 0x41 ∷ 0x40 ∷ 0x51 ∷ 0x72 ∷ 0x63 ∷ 0x62 ∷ 0x73
    ∷ 0x34 ∷ 0x25 ∷ 0x24 ∷ 0x35 ∷ 0x16 ∷ 0x07 ∷ 0x06 ∷ 0x17 ∷ 0x14 ∷ 0x05 ∷ 0x04 ∷ 0x15 ∷ 0x36
    ∷ 0x27 ∷ 0x26 ∷ 0x37 ∷ 0x30 ∷ 0x21 ∷ 0x20 ∷ 0x31 ∷ 0x12 ∷ 0x03 ∷ 0x02 ∷ 0x13 ∷ 0x10 ∷ 0x01
    ∷ 0x00 ∷ 0x11 ∷ 0x32 ∷ 0x23 ∷ 0x22 ∷ 0x33 ∷ 0x74 ∷ 0x65 ∷ 0x64 ∷ 0x75 ∷ 0x56 ∷ 0x47 ∷ 0x46
    ∷ 0x57 ∷ 0x54 ∷ 0x45 ∷ 0x44 ∷ 0x55 ∷ 0x76 ∷ 0x67 ∷ 0x66 ∷ 0x77 ∷ 0xf8 ∷ 0xe9 ∷ 0xe8 ∷ 0xf9
    ∷ 0xda ∷ 0xcb ∷ 0xca ∷ 0xdb ∷ 0xd8 ∷ 0xc9 ∷ 0xc8 ∷ 0xd9 ∷ 0xfa ∷ 0xeb ∷ 0xea ∷ 0xfb ∷ 0xbc
    ∷ 0xad ∷ 0xac ∷ 0xbd ∷ 0x9e ∷ 0x8f ∷ 0x8e ∷ 0x9f ∷ 0x9c ∷ 0x8d ∷ 0x8c ∷ 0x9d ∷ 0xbe ∷ 0xaf
    ∷ 0xae ∷ 0xbf ∷ 0xb8 ∷ 0xa9 ∷ 0xa8 ∷ 0xb9 ∷ 0x9a ∷ 0x8b ∷ 0x8a ∷ 0x9b ∷ 0x98 ∷ 0x89 ∷ 0x88
    ∷ 0x99 ∷ 0xba ∷ 0xab ∷ 0xaa ∷ 0xbb ∷ 0xfc ∷ 0xed ∷ 0xec ∷ 0xfd ∷ 0xde ∷ 0xcf ∷ 0xce ∷ 0xdf
    ∷ 0xdc ∷ 0xcd ∷ 0xcc ∷ 0xdd ∷ 0xfe ∷ 0xef ∷ 0xee ∷ 0xff ∷ []

pub manchester_encode_nibble : ℕ → ℕ
manchester_encode_nibble nibble = get_or encode_table (nibble % 16) 0

pub manchester_decode_byte : ℕ → ℕ
manchester_decode_byte coded = get_or decode_table coded 0

-- `__builtin_popcount` of a word of `bits` bits.
abbrev pub popcount : ℕ → ℕ → ℕ
popcount zero word = 0
popcount (suc bits) word = word % 2 + popcount bits (word / 2)

unfoldable pub manchester_encode : List ℕ → List ℕ
manchester_encode [] = []
manchester_encode (byte ∷ bytes) =
    manchester_encode_nibble (byte / 16)
    ∷ manchester_encode_nibble (byte % 16)
    ∷ manchester_encode bytes

-- The output, the mask of the chip pairs that are no bit, and their number.
pub record Decoded : Type 0 where
  pub out : List ℕ
  pub error_mask : List ℕ
  pub bad_bits : ℕ

-- The byte and the mask that two coded bytes give.
abbrev pub joined : ℕ → ℕ → ℕ
joined high low = high % 16 * 16 + low % 16

abbrev pub joined_errors : ℕ → ℕ → ℕ
joined_errors high low = high / 16 * 16 + low / 16

-- What one turn of the loop puts before the rest.
pub decoded_byte : ℕ → ℕ → Decoded → Decoded
decoded_byte high low rest = record {
  out = joined high low ∷ rest.out;
  error_mask = joined_errors high low ∷ rest.error_mask;
  bad_bits = popcount 8 (joined_errors high low) + rest.bad_bits;
}

-- The loop, at the output's index `i` with `rounds` left.
pub decode_from : List ℕ → ℕ → ℕ → Decoded
decode_from coded i zero = record { out = []; error_mask = []; bad_bits = 0 }
decode_from coded i (suc rounds) =
    decoded_byte (manchester_decode_byte (byte_at coded (2 * i)))
      (manchester_decode_byte (byte_at coded (2 * i + 1))) (decode_from coded (i + 1) rounds)

pub manchester_decode : List ℕ → ℕ → Decoded
manchester_decode coded out_bytes = decode_from coded 0 out_bytes
