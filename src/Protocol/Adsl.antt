-- ===== src/Protocol/Adsl.antt =====
-- firmware/core/protocol/adsl.h and adsl.cpp: the fields of an ADS-L packet. The arrays are functions
-- on the index, the bit fields are fields of their own, and `|` of bits that do not overlap is a sum.
pub mod Fields
pub mod Motion
pub mod Addresses
pub mod Callsign
use skyblip.Base.{
  ℕ, zero, suc, ◌+◌, ◌-◌, ◌*◌, ◌/◌, ◌%◌, ◌^◌, Bool, true, false, not, ◌&&◌, ◌||◌, ltb, leb, ◌==◌,
  if◌then◌else◌, List, [], ◌∷◌, Option, none, some, u8, u32, ◌<<<◌, ◌>>>◌,
}
use skyblip.Base.Int.{ℤ, pos, negsuc, pos_part, neg_part}
use skyblip.Base.Scans.{write}
use skyblip.Util.LittleEndian.{put_uint32, get_uint32, byte_at}
use skyblip.Util.VariableRange.{
  encode_unsigned_variable_range, decode_unsigned_variable_range, encode_signed_variable_range,
  decode_signed_variable_range,
}

abbrev pub payload_type_position : ℕ
payload_type_position = 0x02

abbrev pub payload_type_ogn_diagnostics : ℕ
payload_type_ogn_diagnostics = 0x42

abbrev pub speed_invalid_code : ℕ
speed_invalid_code = 0xff

abbrev pub climb_invalid_code : ℕ
climb_invalid_code = 0x1ff

abbrev pub altitude_invalid_code : ℕ
altitude_invalid_code = 0x3fff

abbrev pub altitude_offset_m : ℕ
altitude_offset_m = 320

abbrev pub merit_per_dop_cm : ℕ
merit_per_dop_cm = 1200

-- A position packet's payload.
pub record AdslPacket : Type 0 where
  pub payload_type : ℕ
  pub address_bytes : ℕ → ℕ
  pub timestamp : ℕ
  pub flight_state : ℕ
  pub aircraft_category : ℕ
  pub emergency : ℕ
  pub position_bytes : ℕ → ℕ
  pub horizontal_accuracy : ℕ
  pub vertical_accuracy : ℕ
  pub velocity_accuracy : ℕ

abbrev pub reset : ℕ → AdslPacket
reset type = record {
  payload_type = type;
  address_bytes = λ _. 0;
  timestamp = 0;
  flight_state = 0;
  aircraft_category = 0;
  emergency = 0;
  position_bytes = λ _. 0;
  horizontal_accuracy = 0;
  vertical_accuracy = 0;
  velocity_accuracy = 0;
}

abbrev pub address_word : AdslPacket → ℕ
address_word p =
    get_uint32 (p.address_bytes 0 ∷ p.address_bytes 1 ∷ p.address_bytes 2 ∷ p.address_bytes 3 ∷ [])
      0

unfoldable pub address : AdslPacket → ℕ
address p = (address_word p >>> 6) % 2 ^ 24

-- Every caller's address has 24 bits and its table six, so `|` meets no bit that is set.
unfoldable pub set_address : ℕ → AdslPacket → AdslPacket
set_address value p =
    let word = address_word p in
    record p {
      address_bytes =
          byte_at (put_uint32 (word / 2 ^ 30 * 2 ^ 30 + word % 2 ^ 6 + u32 (value <<< 6)));
    }

unfoldable pub address_mapping_table : AdslPacket → ℕ
address_mapping_table p = p.address_bytes 0 % 2 ^ 6

unfoldable pub set_address_mapping_table : ℕ → AdslPacket → AdslPacket
set_address_mapping_table table p = record p {
  address_bytes = write p.address_bytes 0 (p.address_bytes 0 / 2 ^ 6 * 2 ^ 6 + table);
}

unfoldable pub speed_q : AdslPacket → ℕ
speed_q p = decode_unsigned_variable_range 6 (p.position_bytes 6)

unfoldable pub set_speed_q : ℕ → AdslPacket → AdslPacket
set_speed_q speed p =
    let code = encode_unsigned_variable_range 6 speed in
    let held = if leb speed_invalid_code code then speed_invalid_code - 1 else code in
    record p { position_bytes = write p.position_bytes 6 (u8 held) }

abbrev pub has_speed : AdslPacket → Bool
has_speed p = not (p.position_bytes 6 == speed_invalid_code)

abbrev pub set_speed_invalid : AdslPacket → AdslPacket
set_speed_invalid p = record p { position_bytes = write p.position_bytes 6 speed_invalid_code }

abbrev pub altitude_code : AdslPacket → ℕ
altitude_code p = (p.position_bytes 8 % 2 ^ 6) <<< 8 + p.position_bytes 7

-- What the altitude's code says, before the offset is taken off.
unfoldable pub offset_altitude_m : AdslPacket → ℕ
offset_altitude_m p = decode_unsigned_variable_range 12 (altitude_code p)

abbrev pub altitude_m : AdslPacket → ℤ
altitude_m p =
    let above = offset_altitude_m p in
    if ltb above altitude_offset_m
    then negsuc (altitude_offset_m - above - 1)
    else pos (above - altitude_offset_m)

-- `std::max(altitude + kAltitudeOffsetM, 0)`.
abbrev pub offset_of : ℤ → ℕ
offset_of altitude = pos_part altitude + altitude_offset_m - neg_part altitude

unfoldable pub set_altitude_m : ℤ → AdslPacket → AdslPacket
set_altitude_m altitude p =
    let code = encode_unsigned_variable_range 12 (offset_of altitude) in
    let held = if leb altitude_invalid_code code then altitude_invalid_code - 1 else code in
    let bytes = write p.position_bytes 7 (u8 held) in
    record p {
      position_bytes = write bytes 8 (p.position_bytes 8 / 2 ^ 6 * 2 ^ 6 + (held >>> 8) % 2 ^ 6);
    }

abbrev pub has_altitude : AdslPacket → Bool
has_altitude p = not (p.position_bytes 8 % 2 ^ 6 == 0x3f) || not (p.position_bytes 7 == 0xff)

unfoldable pub set_altitude_invalid : AdslPacket → AdslPacket
set_altitude_invalid p =
    let bytes = write p.position_bytes 7 0xff in
    record p { position_bytes = write bytes 8 (p.position_bytes 8 / 2 ^ 6 * 2 ^ 6 + 0x3f) }

abbrev pub climb_code : AdslPacket → ℕ
climb_code p = (p.position_bytes 9 % 2 ^ 7) <<< 2 + (p.position_bytes 8 >>> 6)

abbrev pub climb_e8 : AdslPacket → ℤ
climb_e8 p = decode_signed_variable_range 6 (climb_code p)

unfoldable pub write_climb_code : ℕ → AdslPacket → AdslPacket
write_climb_code code p =
    let bytes = write p.position_bytes 8 (p.position_bytes 8 % 2 ^ 6 + (code % 4) <<< 6) in
    record p {
      position_bytes = write bytes 9 (p.position_bytes 9 / 2 ^ 7 * 2 ^ 7 + (code >>> 2) % 2 ^ 7);
    }

unfoldable pub set_climb_e8 : ℤ → AdslPacket → AdslPacket
unfolding write_climb_code
set_climb_e8 climb p =
    let code = encode_signed_variable_range 6 climb % 2 ^ 9 in
    write_climb_code (if code == climb_invalid_code then climb_invalid_code - 1 else code) p

abbrev pub has_climb : AdslPacket → Bool
has_climb p = not (climb_code p == climb_invalid_code)

abbrev pub set_climb_invalid : AdslPacket → AdslPacket
set_climb_invalid p = write_climb_code climb_invalid_code p

abbrev pub track_c9 : AdslPacket → ℕ
track_c9 p = (p.position_bytes 10 <<< 1 + (p.position_bytes 9 >>> 7)) % 2 ^ 9

unfoldable pub set_track_c9 : ℕ → AdslPacket → AdslPacket
set_track_c9 track p =
    let bytes = write p.position_bytes 9 (p.position_bytes 9 % 2 ^ 7 + (track % 2) <<< 7) in
    record p { position_bytes = write bytes 10 (u8 (track >>> 1)) }

-- The loop over the seven limits, the finest first.
abbrev limits_cm : List ℕ
limits_cm = 300 ∷ 1000 ∷ 3000 ∷ 9260 ∷ 18520 ∷ 55560 ∷ 92600 ∷ []

abbrev accuracy_from : ℕ → List ℕ → ℕ → ℕ
accuracy_from hfom_cm [] code = 0
accuracy_from hfom_cm (limit ∷ limits) code =
    if ltb hfom_cm limit then code else accuracy_from hfom_cm limits (code - 1)

pub horizontal_accuracy_code : ℕ → ℕ
horizontal_accuracy_code hfom_cm = accuracy_from hfom_cm limits_cm 7

pub vertical_accuracy_code : ℕ → ℕ
vertical_accuracy_code vfom_cm =
    if ltb vfom_cm 1000
    then 3
    else if ltb vfom_cm 4500
    then 2
    else if ltb vfom_cm 15000
    then 1
    else 0

abbrev pub velocity_accuracy_code : ℕ → ℕ
velocity_accuracy_code horizontal_code = if leb 4 horizontal_code then horizontal_code - 4 else 0

abbrev pub set_integrity_unknown : AdslPacket → AdslPacket
set_integrity_unknown p = record p {
  horizontal_accuracy = 0;
  vertical_accuracy = 0;
  velocity_accuracy = 0;
}

pub set_integrity_from_dop_e2 : ℕ → ℕ → AdslPacket → AdslPacket
set_integrity_from_dop_e2 hdop_e2 vdop_e2 p =
    let horizontal = horizontal_accuracy_code ((hdop_e2 * merit_per_dop_cm + 50) / 100) in
    let vertical = vertical_accuracy_code ((vdop_e2 * merit_per_dop_cm + 50) / 100) in
    if hdop_e2 == 0 then set_integrity_unknown p else record p {
      horizontal_accuracy = horizontal;
      vertical_accuracy = if vdop_e2 == 0 then 0 else vertical;
      velocity_accuracy = velocity_accuracy_code horizontal;
    }

-- The instant `lead_ms` from the second, in quarter seconds of a cycle of fifteen.
pub timestamp_code : ℕ → ℤ → ℕ
timestamp_code utc_s lead_ms =
    let from_start = utc_s % 15 * 1000 + pos_part lead_ms % 15000 in
    (from_start + 15000 - neg_part lead_ms % 15000) % 15000 / 250
