-- ===== src/Protocol/Adsl/Motion.antt =====
-- The four fields of motion together, as a burst of own-ship's sets them.
use skyblip.Base.{ℕ, ◌+◌, ◌-◌, ◌^◌, ◌%◌, arith, ◌<◌, ◌≡◌, true, subst, sym, ◌∙◌}
use skyblip.Base.Int.{ℤ, pos_part, neg_part}
use skyblip.Util.VariableRange.{decode_signed_variable_range, decode_unsigned_variable_range}
use skyblip.Protocol.Adsl.{
  AdslPacket, altitude_m, speed_q, set_speed_q, offset_altitude_m, offset_of, set_altitude_m,
  climb_e8, set_climb_e8, has_climb, track_c9, set_track_c9,
}
use skyblip.Protocol.Adsl.Fields.{
  IsNear, IsNearClimb, set_altitude_m_lem, set_speed_q_lem, set_climb_e8_lem, set_track_c9_lem,
}

-- The calls of `from_own`, in their order.
abbrev pub set_motion : ℤ → ℕ → ℤ → ℕ → AdslPacket → AdslPacket
set_motion altitude speed climb track p =
    set_track_c9 track (set_climb_e8 climb (set_speed_q speed (set_altitude_m altitude p)))

-- Near the altitude that was set, counted from 320 m below zero, where the code begins: at or below
-- that the altitude reads as if it were that, and from 61112 m on it reads as 61108 m.
abbrev pub IsNearAltitude : ℤ → ℤ → Type 0
IsNearAltitude altitude read =
    (above : ℕ) × (pos_part read + 320 ≡ above + neg_part read)
    × IsNear 61432 61428 (pos_part altitude + 320 - neg_part altitude) above

altitude_above :
    (p : AdslPacket) → pos_part (altitude_m p) + 320 ≡ offset_altitude_m p + neg_part (altitude_m p)
altitude_above p = ground arith

-- What a receiver reads of it.
pub record IsRead (altitude : ℤ) (speed : ℕ) (climb : ℤ) (track : ℕ) (p : AdslPacket) : Type 0 where
  pub altitude_near : IsNearAltitude altitude (altitude_m p)
  pub speed_near : IsNear 952 948 speed (speed_q p)
  pub climb_near : IsNearClimb climb (climb_e8 p)
  pub climb_valid : has_climb p ≡ true
  pub track_is : track_c9 p ≡ track % 2 ^ 9

-- Whatever stood in the packet before, an altitude, a speed, a climb above -2 ^ 15 and a track that are
-- set one after the other are each read back: the track exactly in its nine bits, the others within
-- half a step of the coarsest range or at the limit that their range ends with, the altitude from
-- -320 m up, the climb with its sign and never as unavailable.
pub set_motion-IsRead :
    (altitude : ℤ) (speed : ℕ) (climb : ℤ) (track : ℕ) (p : AdslPacket)
    → neg_part climb < 2 ^ 15
    → IsRead altitude speed climb track (set_motion altitude speed climb track p)
unfolding offset_altitude_m
set_motion-IsRead altitude speed climb track p fits =
    let a = set_altitude_m altitude p in
    let s = set_speed_q speed a in
    let c = set_climb_e8 climb s in
    let t = set_track_c9 track c in
    let of_a = set_altitude_m_lem altitude p in
    let of_s = set_speed_q_lem speed a in
    let of_c = set_climb_e8_lem climb s fits in
    let of_t = set_track_c9_lem track c in
    let code_kept = of_t.2 ∙ of_c.2 ∙ of_s.2 in
    let climb_kept = of_t.1 in
    record {
      altitude_near = (
        offset_altitude_m t,
        altitude_above t,
        subst (λ k. IsNear 61432 61428 (offset_of altitude) (decode_unsigned_variable_range 12 k))
            (sym code_kept) of_a.1,
      );
      speed_near = subst (IsNear 952 948 speed) (sym (of_t.3 ∙ of_c.4)) of_s.1;
      climb_near =
          subst (λ k. IsNearClimb climb (decode_signed_variable_range 6 k)) (sym climb_kept) of_c.1;
      climb_valid = rw climb_kept of_c.0;
      track_is = of_t.0;
    }
