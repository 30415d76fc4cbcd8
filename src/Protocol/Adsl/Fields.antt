-- ===== src/Protocol/Adsl/Fields.antt =====
-- What a field that was set reads back as, and that no other field moves.
use native.Mathlib.Decide.{dec_lt}
use skyblip.Base.{
  ℕ, suc, ◌+◌, ◌-◌, ◌*◌, ◌/◌, ◌%◌, ◌^◌, ◌≤◌, ◌<◌, ◌≡◌, refl, sym, subst, true, not, ◌||◌, ◌⊎◌, leb,
  ◌==◌, if◌then◌else◌, inl, inr, arith, u8,
}
use skyblip.Base.Int.{ℤ, pos, negsuc, pos_part, neg_part}
use skyblip.Util.VariableRange.{
  encode_unsigned_variable_range, decode_unsigned_variable_range, encode_signed_variable_range,
  decode_signed_variable_range,
}
use skyblip.Protocol.Adsl.{
  AdslPacket, speed_q, set_speed_q, has_speed, offset_altitude_m, offset_of, set_altitude_m,
  has_altitude, altitude_code, climb_code, climb_e8, set_climb_e8, has_climb, write_climb_code,
  track_c9, set_track_c9,
}

-- At most half a step of the coarsest range away, or held at the top from a limit on.
abbrev pub IsNear : ℕ → ℕ → ℕ → ℕ → Type 0
IsNear limit top value read =
    (read ≤ value + 4) × ((value ≤ read + 4) ⊎ ((limit ≤ value) × (read ≡ top)))

-- The bytes of the position are bytes.
abbrev pub AreBytes : AdslPacket → Type 0
AreBytes p = (i : ℕ) → p.position_bytes i < 256

-- A code held one short of the one that says "unavailable".
abbrev held : ℕ → ℕ → ℕ
held invalid code = if leb invalid code then invalid - 1 else code

altitude_held : (value : ℕ) → held 0x3fff (encode_unsigned_variable_range 12 value) < 0x3fff
altitude_held value = ground arith

altitude-IsNear :
    (value : ℕ)
    → IsNear 61432 61428 value
        (decode_unsigned_variable_range 12 (held 0x3fff (encode_unsigned_variable_range 12 value)))
unfolding encode_unsigned_variable_range decode_unsigned_variable_range
altitude-IsNear value = elim (dec_lt value 61432) [
  | yes lt ↦ (ground arith, inl (ground arith))
  | no ge ↦ (ground arith, inr (ground arith))
]

speed-IsNear :
    (value : ℕ)
    → IsNear 952 948 value
        (decode_unsigned_variable_range 6 (held 0xff (encode_unsigned_variable_range 6 value)))
unfolding encode_unsigned_variable_range decode_unsigned_variable_range
speed-IsNear value = elim (dec_lt value 952) [
  | yes lt ↦ (ground arith, inl (ground arith))
  | no ge ↦ (ground arith, inr (ground arith))
]

-- The altitude's code is written across two bytes and read from them.
altitude_code_written :
    (code b : ℕ)
    → code < 0x4000
    → ((b / 2 ^ 6 * 2 ^ 6 + (code / 2 ^ 8) % 2 ^ 6) % 2 ^ 6) * 2 ^ 8 + u8 code ≡ code
altitude_code_written code b lt = omega arith

altitude_top_kept : (code b : ℕ) → (b / 2 ^ 6 * 2 ^ 6 + (code / 2 ^ 8) % 2 ^ 6) / 2 ^ 6 ≡ b / 2 ^ 6
altitude_top_kept code b = omega arith

altitude_valid :
    (code b : ℕ)
    → code < 0x3fff
    → (not ((b / 2 ^ 6 * 2 ^ 6 + (code / 2 ^ 8) % 2 ^ 6) % 2 ^ 6 == 0x3f) || not (u8 code == 0xff))
      ≡ true
altitude_valid code b lt = ground arith

-- An altitude that is set is read back.
pub set_altitude_m_lem :
    (altitude : ℤ) (p : AdslPacket)
    → (has_altitude (set_altitude_m altitude p) ≡ true)
      × IsNear 61432 61428 (offset_of altitude) (offset_altitude_m (set_altitude_m altitude p))
      × (climb_code (set_altitude_m altitude p) ≡ climb_code p)
      × (track_c9 (set_altitude_m altitude p) ≡ track_c9 p)
unfolding set_altitude_m offset_altitude_m
set_altitude_m_lem altitude p =
    let code = held 0x3fff (encode_unsigned_variable_range 12 (offset_of altitude)) in
    let b = p.position_bytes 8 in
    let small = altitude_held (offset_of altitude) in
    (
      altitude_valid code b small,
      rw (altitude_code_written code b (omega (arith, small)))
          (altitude-IsNear (offset_of altitude)),
      rw (altitude_top_kept code b) refl,
      refl,
    )

held-byte :
    (value : ℕ)
    → u8 (held 0xff (encode_unsigned_variable_range 6 value))
      ≡ held 0xff (encode_unsigned_variable_range 6 value)
held-byte value = ground arith

-- So is a speed.
pub set_speed_q_lem :
    (speed : ℕ) (p : AdslPacket)
    → (has_speed (set_speed_q speed p) ≡ true)
      × IsNear 952 948 speed (speed_q (set_speed_q speed p))
      × (altitude_code (set_speed_q speed p) ≡ altitude_code p)
      × (climb_code (set_speed_q speed p) ≡ climb_code p)
      × (track_c9 (set_speed_q speed p) ≡ track_c9 p)
unfolding set_speed_q speed_q
set_speed_q_lem speed p =
    (ground arith, rw (held-byte speed) (speed-IsNear speed), refl, refl, refl)

-- The climb's code is written across two bytes and read from them.
climb_code_written :
    (code a b : ℕ)
    → code < 2 ^ 9
    → ((b / 2 ^ 7 * 2 ^ 7 + (code / 2 ^ 2) % 2 ^ 7) % 2 ^ 7) * 2 ^ 2
        + (a % 2 ^ 6 + (code % 4) * 2 ^ 6) / 2 ^ 6
      ≡ code
climb_code_written code a b lt = omega arith

write_climb_code_lem :
    (code : ℕ) (p : AdslPacket)
    → code < 2 ^ 9
    → (climb_code (write_climb_code code p) ≡ code)
      × (altitude_code (write_climb_code code p) ≡ altitude_code p)
      × (track_c9 (write_climb_code code p) ≡ track_c9 p)
      × (speed_q (write_climb_code code p) ≡ speed_q p)
unfolding write_climb_code speed_q
write_climb_code_lem code p lt =
    let low : (p.position_bytes 8 % 2 ^ 6 + (code % 4) * 2 ^ 6) % 2 ^ 6
        ≡ p.position_bytes 8 % 2 ^ 6 =
      omega arith in
    let top : (p.position_bytes 9 / 2 ^ 7 * 2 ^ 7 + (code / 2 ^ 2) % 2 ^ 7) / 2 ^ 7
        ≡ p.position_bytes 9 / 2 ^ 7 =
      omega arith in
    (
      climb_code_written code (p.position_bytes 8) (p.position_bytes 9) lt,
      rw low refl,
      rw top refl,
      refl,
    )

-- A climb is near with its sign, the sink held one short of the top.
abbrev pub IsNearClimb : ℤ → ℤ → Type 0
IsNearClimb (pos n) read = (neg_part read ≡ 0) × IsNear 960 956 n (pos_part read)
IsNearClimb (negsuc n) read = (pos_part read ≡ 0) × IsNear 952 948 (suc n) (neg_part read)

abbrev held_climb : ℤ → ℕ
held_climb climb =
    let code = encode_signed_variable_range 6 climb % 2 ^ 9 in if code == 0x1ff then 0x1fe else code

held_climb-lt : (climb : ℤ) → held_climb climb < 0x1ff
held_climb-lt climb = ground arith

climb_near :
    (climb : ℤ)
    → neg_part climb < 2 ^ 15
    → IsNearClimb climb (decode_signed_variable_range 6 (held_climb climb))
unfolding encode_unsigned_variable_range decode_unsigned_variable_range
climb_near (pos n) lt = elim (dec_lt n 960) [
  | yes small ↦ (ground arith, (ground arith, inl (ground arith)))
  | no large ↦ (ground arith, (ground arith, inr (ground arith)))
]
climb_near (negsuc n) lt = elim (dec_lt (suc n) 952) [
  | yes small ↦ (ground arith, (ground arith, inl (ground arith)))
  | no large ↦ (ground arith, (ground arith, inr (ground arith)))
]

valid_climb : (code : ℕ) → code < 0x1ff → not (code == 0x1ff) ≡ true
valid_climb code lt = ground arith

pub set_climb_e8_lem :
    (climb : ℤ) (p : AdslPacket)
    → neg_part climb < 2 ^ 15
    → (has_climb (set_climb_e8 climb p) ≡ true)
      × IsNearClimb climb (climb_e8 (set_climb_e8 climb p))
      × (altitude_code (set_climb_e8 climb p) ≡ altitude_code p)
      × (track_c9 (set_climb_e8 climb p) ≡ track_c9 p)
      × (speed_q (set_climb_e8 climb p) ≡ speed_q p)
unfolding set_climb_e8
set_climb_e8_lem climb p fits =
    let code = held_climb climb in
    let small = held_climb-lt climb in
    let written = write_climb_code_lem code p (omega (arith, small)) in
    let valid : not (code == 0x1ff) ≡ true = valid_climb code small in
    (
      rw (written.0) valid,
      subst (λ k. IsNearClimb climb (decode_signed_variable_range 6 k)) (sym written.0)
          (climb_near climb fits),
      written.1,
      written.2,
      written.3,
    )

-- So is a track, in its nine bits.
pub set_track_c9_lem :
    (track : ℕ) (p : AdslPacket)
    → (track_c9 (set_track_c9 track p) ≡ track % 2 ^ 9)
      × (climb_code (set_track_c9 track p) ≡ climb_code p)
      × (altitude_code (set_track_c9 track p) ≡ altitude_code p)
      × (speed_q (set_track_c9 track p) ≡ speed_q p)
unfolding set_track_c9 speed_q
set_track_c9_lem track p =
    let b = p.position_bytes 9 in
    let low : (b % 2 ^ 7 + (track % 2) * 2 ^ 7) % 2 ^ 7 ≡ b % 2 ^ 7 = omega arith in
    (omega arith, rw low refl, refl, refl)
