-- ===== src/Flight/State/Speeds.antt =====
-- The speeds that a change of state is decided on.
use native.Mathlib.Nat.{le-div_iff_mul-le}
use skyblip.Base.{
  ℕ, zero, suc, ◌+◌, ◌-◌, ◌*◌, ◌/◌, max, false, ◌≤◌, ◌<◌, ◌≡◌, ◌≢◌, refl, ◌⊎◌, inl, inr, true,
  arith, leb, Bool-cases,
}
use skyblip.Base.Int.{ℤ, pos, negsuc, pos_part, neg_part}
use skyblip.Flight.State.{
  FlightState, unknown, airborne, FlightSample, FlightMonitor, update, slower, derated, negated,
  jerky,
}

negated-slower : (k : ℕ) → slower (negated k) 12000 ≡ true
negated-slower zero = refl
negated-slower (suc k) = ground arith

-- Neither of the two speeds is more than four times the other.
abbrev pub IsSteady : ℤ → ℤ → Type 0
IsSteady previous now =
    (pos_part now + 4 * neg_part previous ≤ 4 * pos_part previous + neg_part now)
    × (pos_part previous + 4 * neg_part now ≤ 4 * pos_part now + neg_part previous)

-- 12 m/s once the speed is derated by the dilution, which is one at least, to the nearest mm/s.
abbrev pub IsFast : FlightSample → Type 0
IsFast sample =
    12000 * max sample.hdop_e2 100 ≤ 100 * pos_part sample.speed_mm_s + max sample.hdop_e2 100 / 2

-- The products of the comparisons are inside 32 bits.
abbrev pub IsSmall : ℤ → Type 0
IsSmall speed = pos_part speed + neg_part speed < 21000000

steady : (previous now : ℤ) → jerky previous now ≡ false → IsSteady previous now
unfolding jerky
steady (pos m) (pos n) e = ground (arith, e)
steady (pos m) (negsuc n) e = ground (arith, e)
steady (negsuc m) (pos n) e = ground (arith, e)
steady (negsuc m) (negsuc n) e = ground (arith, e)

fast_rounded :
    (n h : ℕ)
    → 100 < h
    → 12000 ≤ (n * 100 + h / 2) / h
    → 12000 * max h 100 ≤ 100 * n + max h 100 / 2
fast_rounded n h big le =
    let m : 12000 * h ≤ n * 100 + h / 2 = (le-div_iff_mul-le (omega arith)).0 le in
    let wide : max h 100 ≡ h = omega arith in rw wide (omega (arith, m))

fast :
    (v : ℤ) (hdop : ℕ)
    → slower (derated v hdop) 12000 ≡ false
    → 12000 * max hdop 100 ≤ 100 * pos_part v + max hdop 100 / 2
unfolding derated
fast (pos n) hdop h = elim (Bool-cases (leb hdop 100)) [
  | inl small ↦
      let flat : max hdop 100 ≡ 100 = ground (arith, small) in
      let le : 12000 ≤ n = ground arith in rw flat (omega (arith, le))
  | inr big ↦ fast_rounded n hdop (ground arith) (ground arith)
]
fast (negsuc n) hdop h = elim (Bool-cases (leb hdop 100)) [
  | inl small ↦ absurd (ground arith)
  | inr big ↦ absurd (ground (arith, negated-slower ((suc (suc n * 100 - 1) + hdop / 2) / hdop)))
]

-- What a change of state rests on.
pub record Crosses (sample : FlightSample) (m n : FlightMonitor) : Type 0 where
  pub fixed : sample.fix_valid ≡ true
  pub either :
      ((n.state ≡ airborne)
        × IsFast sample
        × ((m.state ≡ unknown)
            ⊎ (m.previous_speed_valid ≡ false)
            ⊎ IsSteady m.last_speed_mm_s sample.speed_mm_s))
      ⊎ ((n.state ≡ FlightState.ground)
          × ((m.state ≡ unknown) ⊎ (slower sample.speed_mm_s 8000 ≡ true)))

decided_change :
    (sample : FlightSample) (now_ms : ℕ) (m : FlightMonitor)
    → let n = (update sample now_ms m).0 in
      n.state ≢ m.state
      → (sample.fix_valid ≡ true)
        × (((n.state ≡ airborne)
              × (slower (derated sample.speed_mm_s sample.hdop_e2) 12000 ≡ false)
              × ((m.state ≡ unknown)
                  ⊎ (m.previous_speed_valid ≡ false)
                  ⊎ (jerky m.last_speed_mm_s sample.speed_mm_s ≡ false)))
            ⊎ ((n.state ≡ FlightState.ground)
                × ((m.state ≡ unknown) ⊎ (slower sample.speed_mm_s 8000 ≡ true))))
unfolding update
decided_change sample now_ms m change = ground arith

-- At speeds whose products fit 32 bits, a change of state crosses the gap between the two speeds: a
-- flight begins only on a valid fix that is still 12 m/s once it is derated by its dilution, and,
-- unless no state was known before or the last fix was not valid, with neither speed more than four
-- times the other; a flight ends only on a valid fix below 8 m/s.
pub update-hysteresis :
    (sample : FlightSample) (now_ms : ℕ) (m : FlightMonitor)
    → IsSmall sample.speed_mm_s
    → IsSmall m.last_speed_mm_s
    → (update sample now_ms m).0.state ≢ m.state
    → Crosses sample m (update sample now_ms m).0
update-hysteresis sample now_ms m small last_small change =
    let (fixed, either) = decided_change sample now_ms m change in
    record {
      fixed = fixed;
      either = elim either [
        | inr down ↦ inr down
        | inl (up, quick, inl new) ↦ inl (up, fast sample.speed_mm_s sample.hdop_e2 quick, inl new)
        | inl (up, quick, inr (inl alone)) ↦
            inl (up, fast sample.speed_mm_s sample.hdop_e2 quick, inr (inl alone))
        | inl (up, quick, inr (inr level)) ↦ inl (
          up,
          fast sample.speed_mm_s sample.hdop_e2 quick,
          inr (inr (steady m.last_speed_mm_s sample.speed_mm_s level)),
        )
      ];
    }
