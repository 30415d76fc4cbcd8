-- ===== src/Flight/State.antt =====
-- firmware/core/flight/state.h and state.cpp: on the ground or in the air, from the GNSS solutions.
-- A speed is the source's `int32_t`; its products by 4 and by 100 stay inside 32 bits at any speed
-- below 21 km/s, and are taken without wrapping.
pub mod Speeds
pub mod Landing
mod Tests
use skyblip.Base.{
  ℕ, zero, suc, ◌+◌, ◌-◌, ◌*◌, ◌/◌, ◌%◌, ◌^◌, Bool, true, false, ◌&&◌, ◌||◌, not, ltb, leb, ◌==◌,
  if◌then◌else◌, sub32, List, [], ◌∷◌,
}
use skyblip.Base.Int.{ℤ, pos, negsuc, ltb_ℤ}

pub data FlightState : Type 0 where
  unknown ground airborne : FlightState

pub record FlightSample : Type 0 where
  pub speed_mm_s : ℤ
  pub hdop_e2 : ℕ
  pub fix_valid : Bool

abbrev pub flight_speed_mm_s : ℕ
flight_speed_mm_s = 12000

abbrev pub landing_speed_mm_s : ℕ
landing_speed_mm_s = 8000

abbrev pub rolling_speed_mm_s : ℕ
rolling_speed_mm_s = 1500

abbrev pub ground_speed_mm_s : ℕ
ground_speed_mm_s = 1000

abbrev pub landing_hold_ms : ℕ
landing_hold_ms = 10000

abbrev pub dop_unity_e2 : ℕ
dop_unity_e2 = 100

abbrev pub jerk_speed_ratio : ℕ
jerk_speed_ratio = 4

-- The product by a number that is not negative.
abbrev pub scaled : ℤ → ℕ → ℤ
scaled (pos n) k = pos (n * k)
scaled (negsuc n) zero = pos 0
scaled (negsuc n) (suc k) = negsuc (suc n * suc k - 1)

abbrev pub negated : ℕ → ℤ
negated zero = pos 0
negated (suc n) = negsuc n

-- `divide_rounded`, at a divisor that is positive.
abbrev pub divide_rounded : ℤ → ℕ → ℤ
divide_rounded (pos n) divisor = pos ((n + divisor / 2) / divisor)
divide_rounded (negsuc n) divisor = negated ((suc n + divisor / 2) / divisor)

pub derated : ℤ → ℕ → ℤ
derated evidence hdop_e2 =
    if leb hdop_e2 dop_unity_e2
    then evidence
    else divide_rounded (scaled evidence dop_unity_e2) hdop_e2

-- `speed < bound`.
abbrev pub slower : ℤ → ℕ → Bool
slower speed bound = ltb_ℤ speed (pos bound)

abbrev pub flight_evidence : FlightSample → Bool
flight_evidence sample = not (slower (derated sample.speed_mm_s sample.hdop_e2) flight_speed_mm_s)

abbrev pub ground_evidence : FlightSample → Bool
ground_evidence sample = slower sample.speed_mm_s ground_speed_mm_s

abbrev pub taxi_evidence : FlightSample → Bool
taxi_evidence sample = slower sample.speed_mm_s landing_speed_mm_s

abbrev pub state_from : ℕ → FlightState
state_from adsl_code =
    if adsl_code == 1 then ground else if adsl_code == 2 then airborne else unknown

pub record FlightMonitor : Type 0 where
  pub state : FlightState
  pub last_speed_mm_s : ℤ
  pub taxiing_since_ms : ℕ
  pub taxiing : Bool
  pub previous_speed_valid : Bool
  pub rolling : Bool

abbrev pub monitor : FlightMonitor
monitor = record {
  state = unknown;
  last_speed_mm_s = pos 0;
  taxiing_since_ms = 0;
  taxiing = false;
  previous_speed_valid = false;
  rolling = false;
}

pub jerky : ℤ → ℤ → Bool
jerky previous_mm_s now_mm_s =
    ltb_ℤ (scaled previous_mm_s jerk_speed_ratio) now_mm_s
    || ltb_ℤ (scaled now_mm_s jerk_speed_ratio) previous_mm_s

abbrev pub update_rolling : ℤ → FlightMonitor → FlightMonitor
update_rolling speed_mm_s m =
    if not (slower speed_mm_s rolling_speed_mm_s)
    then record m { rolling = true }
    else if slower speed_mm_s ground_speed_mm_s
    then record m { rolling = false }
    else m

abbrev pub update_taxi : FlightSample → ℕ → FlightMonitor → FlightMonitor
update_taxi sample now_ms m =
    if not sample.fix_valid || not (taxi_evidence sample)
    then record m { taxiing = false }
    else if not m.taxiing
    then record m { taxiing = true; taxiing_since_ms = now_ms }
    else m

abbrev pub taxi_sustained : ℕ → FlightMonitor → Bool
taxi_sustained now_ms m = m.taxiing && leb landing_hold_ms (sub32 now_ms m.taxiing_since_ms)

-- The decision of `update`, on the speed that was last and whether it compares.
abbrev pub decided : FlightSample → ℕ → ℤ → Bool → FlightMonitor → FlightState
decided sample now_ms previous_mm_s comparable m = elim m.state [
  | unknown ↦ if flight_evidence sample then airborne else ground
  | airborne ↦ if ground_evidence sample || taxi_sustained now_ms m then ground else airborne
  | ground ↦
      if flight_evidence sample && not (comparable && jerky previous_mm_s sample.speed_mm_s)
      then airborne
      else ground
]

-- The new monitor, and the state that is returned.
pub update : FlightSample → ℕ → FlightMonitor → FlightMonitor × FlightState
unfolding derated jerky
update sample now_ms m =
    let taxied = update_taxi sample now_ms m in
    if not sample.fix_valid
    then (record taxied { previous_speed_valid = false }, unknown)
    else let rolled = update_rolling sample.speed_mm_s taxied in
      let noted = record rolled {
        previous_speed_valid = true;
        last_speed_mm_s = sample.speed_mm_s;
      } in
      let next = decided sample now_ms rolled.last_speed_mm_s rolled.previous_speed_valid noted in
      (record noted { state = next }, next)

-- A history of solutions and their instants, the newest first.
abbrev pub run : List (FlightSample × ℕ) → FlightMonitor
run [] = monitor
run ((sample, now_ms) ∷ h) = (update sample now_ms (run h)).0
