-- ===== src/Timing/Transmit/Tests.antt =====
-- Tests: a unit in flight under a locked clock.
use skyblip.Base.{◌≡◌, refl, true, false}
use skyblip.Base.Int.{pos}
use skyblip.Timing.Slot.{ClockState, plan, anchored, slot_of}
use skyblip.Timing.AirTime.{may_spend}
use skyblip.Timing.Transmit.{
  Transmitter, transmitter, configure, position, attempt, attempt_owed, hash, ground_second,
}
use skyblip.Timing.Transmit.Instants.{IsOnAir, attempt_owed-IsOnAir, opens_of, closes_of}

abbrev unit : Transmitter
unit = configure 0x1234 transmitter

abbrev locked : ClockState
locked = record {
  utc_valid = true;
  pps_locked = true;
  since_edge_ms = 500;
  pps_edge_us = 7000000;
  utc_s = 1000;
  utc_edge_us = 7000000;
}

-- In the even second the burst is in slot 0, in the odd one in slot 1.
goes_in_slot0 : (attempt unit (plan (pos 500) locked) 1000 7500 true (pos 100) position).go ≡ true
unfolding attempt plan may_spend slot_of
goes_in_slot0 = refl

goes_in_slot1 : (attempt unit (plan (pos 900) locked) 1001 8900 true (pos 100) position).go ≡ true
unfolding attempt plan may_spend slot_of
goes_in_slot1 = refl

old_fix_stays : (attempt unit (plan (pos 500) locked) 1000 7500 true (pos 501) position).go ≡ false
unfolding attempt plan may_spend slot_of
old_fix_stays = refl

owed_in_slot0 : (attempt_owed unit (plan (pos 500) locked) 1000 7500 true (pos 100)).go ≡ true
unfolding attempt attempt_owed plan may_spend slot_of
owed_in_slot0 = refl

-- The two bursts of a unit that stays on the ground, in its own second of ten.
grounded_goes :
    ((attempt unit (plan (pos 500) locked) 1004 7500 false (pos 100) position).go ≡ true)
    × ((attempt unit (plan (pos 900) locked) 1014 7500 false (pos 100) position).go ≡ true)
unfolding attempt plan may_spend slot_of ground_second hash
grounded_goes = (refl, refl)

attempt_owed-IsOnAir_example :
    (anchored locked ≡ true)
    × (may_spend 7500 5 unit.air ≡ true)
    × IsOnAir
        (plan (pos 500) locked)
        (opens_of (attempt_owed unit (plan (pos 500) locked) 1000 7500 true (pos 100)).payload)
        (closes_of (attempt_owed unit (plan (pos 500) locked) 1000 7500 true (pos 100)).payload)
        (attempt_owed unit (plan (pos 500) locked) 1000 7500 true (pos 100))
attempt_owed-IsOnAir_example =
    attempt_owed-IsOnAir unit (pos 500) locked 1000 7500 true (pos 100) owed_in_slot0
