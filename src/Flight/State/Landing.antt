-- ===== src/Flight/State/Landing.antt =====
-- What a landing and a take-off rest on.
use skyblip.Base.{ℕ, ◌≤◌, ◌≡◌, ◌⊎◌, inl, inr, true, false, arith, sub32, List, [], ◌∷◌}
use skyblip.Flight.State.{FlightState, airborne, FlightSample, FlightMonitor, update, run, slower}

-- Every solution of the history's newest stretch, from the one at `since`, is a fix below taxi speed.
pub data WasSlow (since : ℕ) : List (FlightSample × ℕ) → Type 0 where
  begins :
      {h : List (FlightSample × ℕ)} (sample : FlightSample)
      → sample.fix_valid ≡ true
      → slower sample.speed_mm_s 8000 ≡ true
      → WasSlow since ((sample, since) ∷ h)
  goes_on :
      {h : List (FlightSample × ℕ)} (sample : FlightSample) (now_ms : ℕ)
      → sample.fix_valid ≡ true
      → slower sample.speed_mm_s 8000 ≡ true
      → WasSlow since h
      → WasSlow since ((sample, now_ms) ∷ h)

-- One update of the taxi watch.
taxi_step :
    (sample : FlightSample) (now_ms : ℕ) (m : FlightMonitor)
    → let n = (update sample now_ms m).0 in
      n.taxiing ≡ true
      → (sample.fix_valid ≡ true)
        × (slower sample.speed_mm_s 8000 ≡ true)
        × (((m.taxiing ≡ false) × (n.taxiing_since_ms ≡ now_ms))
            ⊎ ((m.taxiing ≡ true) × (n.taxiing_since_ms ≡ m.taxiing_since_ms)))
unfolding update
taxi_step sample now_ms m h = ground arith

taxiing-WasSlow :
    (h : List (FlightSample × ℕ)) → (run h).taxiing ≡ true → WasSlow (run h).taxiing_since_ms h
taxiing-WasSlow [] t = absurd (ground arith)
taxiing-WasSlow ((s, now_ms) ∷ h) t =
    let (fix, slow, why) = taxi_step s now_ms (run h) t in
    elim why [
      | inl (off, since) ↦ rw since (begins s fix slow)
      | inr (on, since) ↦ rw since (goes_on s now_ms fix slow (taxiing-WasSlow h on))
    ]

-- The branches of one update that ends a flight.
landing_step :
    (sample : FlightSample) (now_ms : ℕ) (m : FlightMonitor)
    → m.state ≡ airborne
    → let n = (update sample now_ms m).0 in
      n.state ≡ FlightState.ground
      → (slower sample.speed_mm_s 1000 ≡ true)
        ⊎ ((n.taxiing ≡ true) × (10000 ≤ sub32 now_ms n.taxiing_since_ms))
unfolding update
landing_step sample now_ms m a g = ground arith

-- A flight ends, at any point of any history, only on a solution below 1 m/s, or after ten seconds
-- through which every solution has been a valid fix below 8 m/s.
pub landing-WasSlow :
    (h : List (FlightSample × ℕ)) (sample : FlightSample) (now_ms : ℕ)
    → (run h).state ≡ airborne
    → (run ((sample, now_ms) ∷ h)).state ≡ FlightState.ground
    → (slower sample.speed_mm_s 1000 ≡ true)
      ⊎ ((since : ℕ) × (10000 ≤ sub32 now_ms since) × WasSlow since ((sample, now_ms) ∷ h))
landing-WasSlow h sample now_ms a g = elim (landing_step sample now_ms (run h) a g) [
  | inl slow ↦ inl slow
  | inr (t, long) ↦ inr (_, long, taxiing-WasSlow ((sample, now_ms) ∷ h) t)
]
