-- ===== src/Flight/State/Tests.antt =====
-- Tests on a flight that taxies in.
use skyblip.Base.{ℕ, ◌≡◌, ◌≢◌, ◌≤◌, ◌⊎◌, refl, true, arith, List, [], ◌∷◌, sub32}
use skyblip.Base.Int.{pos}
use skyblip.Flight.State.{FlightState, airborne, FlightSample, update, run, slower, monitor}
use skyblip.Flight.State.Speeds.{Crosses, update-hysteresis}
use skyblip.Flight.State.Landing.{WasSlow, landing-WasSlow}

abbrev at : ℕ → FlightSample
at speed = record { speed_mm_s = pos speed; hdop_e2 = 90; fix_valid = true }

-- A landing, the newest solution first: ten seconds at 5 m/s end the flight.
abbrev rolling_out : List (FlightSample × ℕ)
rolling_out = (at 5000, 5000) ∷ (at 7000, 2000) ∷ (at 30000, 1000) ∷ []

flying : (run rolling_out).state ≡ airborne
unfolding update
flying = refl

landed : (run ((at 5000, 12000) ∷ rolling_out)).state ≡ FlightState.ground
unfolding update
landed = refl

landing-WasSlow_example :
    (slower (pos 5000) 1000 ≡ true)
    ⊎ ((since : ℕ) × (10000 ≤ sub32 12000 since) × WasSlow since ((at 5000, 12000) ∷ rolling_out))
landing-WasSlow_example = landing-WasSlow rolling_out (at 5000) 12000 flying landed

-- The first solution of a unit that is switched on in flight.
first_change : (update (at 30000) 1000 monitor).0.state ≢ monitor.state
unfolding update
first_change = λ e. cc

update-hysteresis_example : Crosses (at 30000) monitor (update (at 30000) 1000 monitor).0
update-hysteresis_example =
    update-hysteresis (at 30000) 1000 monitor (omega arith) (omega arith) first_change
