-- ===== src/Timing/Level/Tests.antt =====
-- Readings of a quiet channel and of a burst.
use skyblip.Base.{◌≡◌, refl, arith, List, [], ◌∷◌}
use skyblip.Base.Int.{ℤ, negsuc}
use skyblip.Timing.Level.{noise_floor, level_dbm, mean_dbm, sum_from, peak_of, decibels_from}
use skyblip.Timing.Level.Settles.{sampled, sampled-level_dbm}
use skyblip.Timing.Level.Mean.{IsAtMost, mean_dbm-IsAtMost}

at_the_seed : level_dbm noise_floor ≡ negsuc 104
unfolding level_dbm
at_the_seed = refl

sampled-level_dbm_example : level_dbm (sampled 500 (negsuc 99) noise_floor) ≡ negsuc 99
sampled-level_dbm_example =
    sampled-level_dbm (negsuc 99) noise_floor 500 (omega arith) (omega arith) (omega arith)

-- -100 dBm twice and a burst at -80 dBm: the burst's power over three, 4.8 dB down, rounded down.
abbrev heard : List ℤ
heard = negsuc 99 ∷ negsuc 79 ∷ negsuc 99 ∷ []

mean_of_window : mean_dbm heard ≡ negsuc 83
unfolding mean_dbm sum_from peak_of decibels_from
mean_of_window = refl

mean_dbm-IsAtMost_example :
    IsAtMost (negsuc 99) (mean_dbm heard) × IsAtMost (mean_dbm heard) (negsuc 79)
mean_dbm-IsAtMost_example =
    mean_dbm-IsAtMost (negsuc 99) (negsuc 79) heard (omega arith)
      (omega arith, (omega arith, (omega arith, tt)))
      (omega arith, (omega arith, (omega arith, tt)))
