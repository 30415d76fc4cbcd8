-- ===== src/Fec/Manchester/RoundTrip.antt =====
-- What is encoded comes back without errors.
use skyblip.Base.{
  ℕ, zero, suc, ◌+◌, ◌*◌, ◌/◌, ◌%◌, ◌<◌, ◌≡◌, refl, ◌∙◌, ap, List, [], ◌∷◌, ◌++◌, length, All,
  arith,
}
use skyblip.Util.LittleEndian.{byte_at}
use skyblip.Fec.Manchester.{
  manchester_decode_byte, manchester_encode_nibble, manchester_encode, manchester_decode,
  decode_from, decoded_byte, Decoded, joined, joined_errors,
}
use skyblip.Fec.Manchester.Pairs.{manchester_decode_byte-encode}

abbrev pub IsByte : ℕ → Type 0
IsByte b = b < 256

abbrev pub zeros : ℕ → List ℕ
zeros zero = []
zeros (suc n) = 0 ∷ zeros n

-- Two bytes in front of the coded ones, and the index goes on by one.
decode_from-∷∷ :
    (a b : ℕ) (coded : List ℕ) (i rounds : ℕ)
    → decode_from (a ∷ b ∷ coded) (suc i) rounds ≡ decode_from coded i rounds
unfolding decode_from
decode_from-∷∷ a b coded i zero = refl
decode_from-∷∷ a b coded i (suc rounds) =
    let even : 2 * suc i ≡ suc (suc (2 * i)) = omega arith in
    let odd : 2 * suc i + 1 ≡ suc (suc (2 * i + 1)) = omega arith in
    let next : suc i + 1 ≡ suc (i + 1) = omega arith in
    let high = ap (λ k. manchester_decode_byte (byte_at (a ∷ b ∷ coded) k)) even in
    let low = ap (λ k. manchester_decode_byte (byte_at (a ∷ b ∷ coded) k)) odd in
    let rest =
      ap (λ k. decode_from (a ∷ b ∷ coded) k rounds) next
      ∙ decode_from-∷∷ a b coded (i + 1) rounds in
    λ j. decoded_byte (high j) (low j) (rest j)

-- Good bytes in front of what is decoded behind them.
abbrev pub before : List ℕ → Decoded → Decoded
before bytes d = record {
  out = bytes ++ d.out;
  error_mask = zeros (length bytes) ++ d.error_mask;
  bad_bits = d.bad_bits;
}

decoded_byte-nibbles :
    (byte : ℕ) (bytes : List ℕ) (d : Decoded)
    → byte < 256
    → decoded_byte (byte / 16) (byte % 16) (before bytes d) ≡ before (byte ∷ bytes) d
unfolding decoded_byte
decoded_byte-nibbles byte bytes d lt =
    let whole : joined (byte / 16) (byte % 16) ≡ byte = omega arith in
    let good : joined_errors (byte / 16) (byte % 16) ≡ 0 = omega arith in
    let none_bad : 0 + d.bad_bits ≡ d.bad_bits = omega arith in
    rw (whole, good) (λ j. record (before (byte ∷ bytes) d) { bad_bits = none_bad j })

-- Bytes that are encoded are decoded to themselves with an empty mask and no bad bit, and the chips
-- behind them are decoded as if they stood alone.
pub manchester_decode-encode :
    (bytes behind : List ℕ) (more : ℕ)
    → All IsByte bytes
    → manchester_decode (manchester_encode bytes ++ behind) (length bytes + more)
      ≡ before bytes (manchester_decode behind more)
unfolding manchester_decode manchester_encode decode_from
manchester_decode-encode [] behind more fit = ap (decode_from behind 0) (omega arith)
manchester_decode-encode (byte ∷ bytes) behind more (lt, fit) =
    let high = manchester_decode_byte-encode (byte / 16) (omega arith) in
    let low = manchester_decode_byte-encode (byte % 16) (omega arith) in
    let count : length (byte ∷ bytes) + more ≡ suc (length bytes + more) = omega arith in
    let chips =
      manchester_encode_nibble (byte / 16)
      ∷ manchester_encode_nibble (byte % 16)
      ∷ (manchester_encode bytes ++ behind) in
    let rest =
      decode_from-∷∷ (manchester_encode_nibble (byte / 16)) (manchester_encode_nibble (byte % 16))
        (manchester_encode bytes ++ behind) 0 (length bytes + more)
      ∙ manchester_decode-encode bytes behind more fit in
    ap (decode_from chips 0) count
    ∙ (λ j. decoded_byte (high j) (low j) (rest j))
    ∙ decoded_byte-nibbles byte bytes (manchester_decode behind more) lt
