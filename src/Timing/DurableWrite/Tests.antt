-- ===== src/Timing/DurableWrite/Tests.antt =====
-- Verdicts at phases, views and waits that can be followed in the source.
use skyblip.Base.{ℕ, ◌+◌, ◌≤◌, ◌≡◌, refl, true, false, arith, List, [], ◌∷◌}
use skyblip.Base.Int.{pos}
use skyblip.Timing.Slot.{ClockState, plan}
use skyblip.Timing.DurableWrite.{
  place, hold, forced, DwellPhase, decide, window, request, Event, changed, passed, run, free_at,
  free_now,
}
use skyblip.Timing.DurableWrite.Window.{IsClear, free_at-IsClear}
use skyblip.Timing.DurableWrite.Waiting.{
  IsServed, LatestAt, opens, stirs, pending-IsServed, changes, owed, run_coalesced,
}

abbrev locked : ClockState
locked = record {
  utc_valid = true;
  pps_locked = true;
  since_edge_ms = 100;
  pps_edge_us = 5000000;
  utc_s = 1700000000;
  utc_edge_us = 5000000;
}

abbrev unlocked : ClockState
unlocked = record locked { utc_valid = false }

abbrev at_phase : ℕ → DwellPhase
at_phase n = record { at_ms = 4000; phase_ms = pos n; armed = true; burst_armed = false }

placed_in_uplink : decide (plan (pos 210) locked) (at_phase 210) 4000 (request 3000 window) ≡ place
unfolding decide request plan free_now
placed_in_uplink = refl

held_in_slot : decide (plan (pos 500) locked) (at_phase 500) 4000 (request 3000 window) ≡ hold
unfolding decide request plan free_now
held_in_slot = refl

forced_in_slot : decide (plan (pos 500) locked) (at_phase 500) 4000 (request 1000 window) ≡ forced
unfolding decide request plan free_now
forced_in_slot = refl

free_at-IsClear_example : IsClear 100 86 unlocked
unfolding free_at plan
free_at-IsClear_example = free_at-IsClear 100 86 unlocked (omega arith) (omega arith) refl

abbrev history : List Event
history =
    passed true (plan (pos 210) locked) (at_phase 210) 4000 4000 true
    ∷ changed 3010
    ∷ changed 3000
    ∷ []

abbrev waiting : List Event
waiting = changed 3010 ∷ changed 1000 ∷ []

pending-IsServed_example :
    (t : ℕ) × (q : ℕ) × LatestAt opens t waiting
    × LatestAt stirs q waiting
    × IsServed
        (plan (pos 500) locked)
        (at_phase 500)
        4000
        4000
        true
        t
        q
        (run waiting)
        (run (passed true (plan (pos 500) locked) (at_phase 500) 4000 4000 true ∷ waiting))
unfolding request
pending-IsServed_example =
    pending-IsServed (plan (pos 500) locked) (at_phase 500) 4000 4000 true waiting refl

run_coalesced_example :
    ((run history).requests ≡ changes history)
    × ((run history).writes + owed (run history).pending ≤ changes history)
run_coalesced_example = run_coalesced history (omega arith)
