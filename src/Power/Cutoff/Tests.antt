-- ===== src/Power/Cutoff/Tests.antt =====
-- Runs of the battery ladder on histories that can be followed in the source.
use skyblip.Base.{ℕ, ◌≡◌, refl, true, false, List, [], ◌∷◌}
use skyblip.Power.Cutoff.{
  normal, flat, BatterySample, Event, sampled, supply_warning, run, apply, is_flat,
}
use skyblip.Power.Cutoff.Latch.{run_flat_iff}

abbrev reading : ℕ → Event
reading mv = sampled (record { divider_mv = mv; external_power = false })

abbrev sagging : List Event
sagging = reading 3150 ∷ reading 3150 ∷ reading 3700 ∷ []

-- The third reading in a row below 3200 mV latches, and a recovered cell does not unlatch it.
latched : (run (reading 4000 ∷ reading 3150 ∷ sagging)).level ≡ flat
unfolding apply
latched = refl

not_yet : (run (reading 4000 ∷ sagging)).level ≡ normal
unfolding apply
not_yet = refl

run_flat_iff_example :
    is_flat (run (reading 4000 ∷ supply_warning ∷ reading 3150 ∷ sagging)).level ≡ true
run_flat_iff_example = run_flat_iff (reading 4000 ∷ supply_warning ∷ reading 3150 ∷ sagging)

abbrev low_cell : BatterySample
low_cell = record { divider_mv = 3590; external_power = false }
