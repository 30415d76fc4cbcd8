-- ===== src/Util/VariableRange.antt =====
-- firmware/core/util/variable_range.h: the ADS-L codes that grow coarser with the value, for a field of
-- `bits` and two more, on values whose products by the source's types do not overflow.
use skyblip.Base.{ℕ, zero, suc, ◌+◌, ◌-◌, ◌*◌, ◌/◌, ◌%◌, ◌^◌, ltb, ◌==◌, if◌then◌else◌}
use skyblip.Base.Int.{ℤ, pos, negsuc}

unfoldable pub decode_unsigned_variable_range : ℕ → ℕ → ℕ
decode_unsigned_variable_range bits value =
    let threshold = 2 ^ bits in
    let range = value / threshold in
    let low = value % threshold in
    if range == 0
    then low
    else if range == 1
    then threshold + 1 + low * 2
    else if range == 2
    then 3 * threshold + 2 + low * 4
    else 7 * threshold + 4 + low * 8

-- What `|` puts into the low bits is below the threshold.
unfoldable pub encode_unsigned_variable_range : ℕ → ℕ → ℕ
encode_unsigned_variable_range bits value =
    let threshold = 2 ^ bits in
    if ltb value threshold
    then value
    else if ltb value (3 * threshold)
    then threshold + (value - threshold) / 2
    else if ltb value (7 * threshold)
    then 2 * threshold + (value - 3 * threshold) / 4
    else if ltb value (15 * threshold)
    then 3 * threshold + (value - 7 * threshold) / 8
    else 4 * threshold - 1

-- -(n + 1) of an int16_t is itself at n = 2 ^ 15 - 1, and passes the first test as it is negative:
-- the nine bits of a field then hold the sign only.
abbrev pub encode_signed_variable_range : ℕ → ℤ → ℕ
encode_signed_variable_range bits (pos n) = encode_unsigned_variable_range bits n
encode_signed_variable_range bits (negsuc n) =
    2 ^ (bits + 2) + (if suc n == 2 ^ 15 then 0 else encode_unsigned_variable_range bits (suc n))

abbrev pub negated : ℕ → ℤ
negated zero = pos 0
negated (suc n) = negsuc n

abbrev pub decode_signed_variable_range : ℕ → ℕ → ℤ
decode_signed_variable_range bits code =
    let magnitude = decode_unsigned_variable_range bits (code % 2 ^ (bits + 2)) in
    if code / 2 ^ (bits + 2) % 2 == 0 then pos magnitude else negated magnitude
