-- ===== src/Fec/Manchester/Pairs.antt =====
-- What the decoding table says, chip by chip.
use skyblip.Base.{
  ℕ, ◌+◌, ◌*◌, ◌/◌, ◌%◌, ◌<◌, ◌≡◌, refl, Bool, true, ◌==◌, ==_iff, every, every_at, if◌then◌else◌,
}
use skyblip.Fec.Manchester.{manchester_decode_byte, manchester_encode_nibble}

-- The bit that a pair of chips stands for is its second chip, and a pair of equal chips is no bit.
abbrev pub pair_bit : ℕ → ℕ
pair_bit pair = pair % 2

abbrev pub pair_error : ℕ → ℕ
pair_error pair = if pair / 2 == pair % 2 then 1 else 0

-- Four pairs, the first in the highest chips: the errors above the bits.
abbrev pub decoded_pairs : ℕ → ℕ
decoded_pairs coded =
    let a = coded / 64 in
    let b = coded / 16 % 4 in
    let c = coded / 4 % 4 in
    let d = coded % 4 in
    (pair_error a * 8 + pair_error b * 4 + pair_error c * 2 + pair_error d) * 16
    + (pair_bit a * 8 + pair_bit b * 4 + pair_bit c * 2 + pair_bit d)

abbrev decodes_pairs : ℕ → Bool
decodes_pairs c = manchester_decode_byte c == decoded_pairs c

abbrev decodes_encoded : ℕ → Bool
decodes_encoded n = manchester_decode_byte (manchester_encode_nibble n) == n

decode_table_lem : every 256 decodes_pairs ≡ true
unfolding every manchester_decode_byte
decode_table_lem = refl

-- For each coded byte, the table gives above the mask of its pairs of equal chips, and below the
-- second chip of each pair.
pub manchester_decode_byte_lem :
    (coded : ℕ) → coded < 256 → manchester_decode_byte coded ≡ decoded_pairs coded
manchester_decode_byte_lem coded lt =
    (==_iff (manchester_decode_byte coded) (decoded_pairs coded)).0
      (every_at 256 decodes_pairs decode_table_lem coded lt)

encode_table_lem : every 16 decodes_encoded ≡ true
unfolding every manchester_decode_byte manchester_encode_nibble
encode_table_lem = refl

pub manchester_decode_byte-encode :
    (n : ℕ) → n < 16 → manchester_decode_byte (manchester_encode_nibble n) ≡ n
manchester_decode_byte-encode n lt =
    (==_iff (manchester_decode_byte (manchester_encode_nibble n)) n).0
      (every_at 16 decodes_encoded encode_table_lem n lt)
