-- ===== src/Timing/Slot/Tests.antt =====
-- Plans at phases and clocks that can be followed in the source.
use skyblip.Base.{◌+◌, ◌≤◌, ◌<◌, ◌≡◌, refl, ◌⊎◌, true, arith}
use skyblip.Base.Int.{pos}
use skyblip.Timing.Slot.{slot1, hop, ClockState, state_at, plan, folded, frequency_hz_at}
use skyblip.Timing.Slot.Map.{IsOneMap, map-IsOneMap, frequency-guarded}
use skyblip.Timing.Slot.Plans.{plan_running, IsLicensed, plan-IsLicensed}

abbrev locked : ClockState
locked = record {
  utc_valid = true;
  pps_locked = true;
  since_edge_ms = 100;
  pps_edge_us = 5000000;
  utc_s = 1700000000;
  utc_edge_us = 5000000;
}

-- The tail of slot 1 belongs to the dwell that opened in the second before.
tail : (plan (pos 150) locked).state ≡ slot1
unfolding plan
tail = refl

in_the_hop : (plan (pos 799) locked).state ≡ hop
unfolding plan
in_the_hop = refl

map-IsOneMap_example : IsOneMap (pos 799)
map-IsOneMap_example = map-IsOneMap (pos 799)

frequency-guarded_example :
    frequency_hz_at (pos (folded (pos 999))) ≡ frequency_hz_at (pos (folded (pos 1000)))
unfolding state_at
frequency-guarded_example = frequency-guarded 999 refl refl

plan_running_example :
    (((plan (pos 150) locked).start_ms ≤ 150) × (150 < (plan (pos 150) locked).end_ms))
    ⊎ (((plan (pos 150) locked).start_ms ≤ 150 + 1000)
        × (150 + 1000 < (plan (pos 150) locked).end_ms))
unfolding plan
plan_running_example = plan_running 150 locked (omega arith) refl

plan-IsLicensed_example : IsLicensed (pos 500) locked
plan-IsLicensed_example = plan-IsLicensed (pos 500) locked
