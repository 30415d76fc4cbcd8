-- ===== src/Timing/Transmit.antt =====
-- firmware/core/timing/transmit.h and transmit.cpp: when own-ship's bursts leave, with the report
-- periods of firmware/core/flight/state.h. An instant of the second is a plain number, the age of
-- the fix a signed one.
pub mod Instants
pub mod Rates
mod Tests
use skyblip.Base.{
  ℕ, zero, suc, ◌+◌, ◌-◌, ◌*◌, ◌/◌, ◌%◌, ◌^◌, Bool, true, false, ◌&&◌, ◌||◌, not, ltb, leb, ◌==◌,
  if◌then◌else◌, Option, none, some, u32, ◌>>>◌, bit_xor, bit_and,
}
use skyblip.Base.Int.{ℤ, pos, negsuc, ltb_ℤ}
use skyblip.Timing.Slot.{
  ClockState, SlotPlan, slot_of, slot_start, dwell_end, slot_frequency_hz, direct_start_ms,
  direct_end_ms, slot1_end_ms,
}
use skyblip.Timing.AirTime.{AirTime, air_time, may_spend, spend}

abbrev pub callsign_start_ms : ℕ
callsign_start_ms = direct_end_ms

abbrev pub callsign_end_ms : ℕ
callsign_end_ms = slot1_end_ms

abbrev pub air_time_ms : ℕ
air_time_ms = 5

abbrev pub callsign_period_s : ℕ
callsign_period_s = 10

abbrev pub fix_max_age_ms : ℕ
fix_max_age_ms = 500

abbrev pub completion_guard_ms : ℕ
completion_guard_ms = 2

abbrev pub ground_report_period_s : ℕ
ground_report_period_s = 10

abbrev pub airborne_report_period_s : ℕ
airborne_report_period_s = 1

-- The fields of the own-ship that the air depends on.
pub record Ownship : Type 0 where
  pub fix_valid : Bool
  pub utc_valid : Bool
  pub tx_settled : Bool

abbrev pub has_address : Option ℕ → Bool
has_address none = false
has_address (some a) = true

pub ownship_transmits : Ownship → ClockState → Option ℕ → Bool
ownship_transmits own clock address =
    has_address address
    && own.fix_valid
    && own.utc_valid
    && own.tx_settled
    && clock.utc_valid
    && clock.pps_locked

pub data Payload : Type 0 where
  position callsign : Payload

pub record Attempt : Type 0 where
  pub go : Bool
  pub at_ms : ℕ
  pub frequency_hz : ℕ
  pub payload : Payload
  pub over_budget : Bool

abbrev pub no_attempt : Payload → Attempt
no_attempt payload = record {
  go = false;
  at_ms = 0;
  frequency_hz = 0;
  payload = payload;
  over_budget = false;
}

pub record Transmitter : Type 0 where
  pub air : AirTime
  pub address : ℕ
  pub sent_count : ℕ
  pub last_position_utc_s : ℕ
  pub last_callsign_utc_s : ℕ
  pub ever_sent_position : Bool
  pub ever_sent_callsign : Bool

abbrev pub transmitter : Transmitter
transmitter = record {
  air = air_time;
  address = 0;
  sent_count = 0;
  last_position_utc_s = 0;
  last_callsign_utc_s = 0;
  ever_sent_position = false;
  ever_sent_callsign = false;
}

abbrev pub configure : ℕ → Transmitter → Transmitter
configure address t = record t { address = address }

abbrev pub period_s : Bool → ℕ
period_s airborne = if airborne then airborne_report_period_s else ground_report_period_s

abbrev pub slot_in : ℕ → Bool → ℕ
slot_in utc_s airborne = bit_and (utc_s / period_s airborne) 1

pub hash : ℕ → ℕ
hash value =
    let a = bit_xor value (value >>> 16) in
    let b = u32 (a * 0x7feb352d) in
    let c = bit_xor b (b >>> 15) in let d = u32 (c * 0x846ca68b) in bit_xor d (d >>> 16)

abbrev pub first_instant_in : ℕ → ℕ
first_instant_in slot =
    if ltb direct_start_ms (slot_start (pos slot)) then slot_start (pos slot) else direct_start_ms

abbrev pub last_instant_in : ℕ → ℕ
last_instant_in slot =
    let closes =
      if ltb (dwell_end (pos slot)) direct_end_ms then dwell_end (pos slot) else direct_end_ms in
    let last = closes - completion_guard_ms - air_time_ms in
    if ltb (first_instant_in slot) last then last else first_instant_in slot

pub instant_between : Transmitter → ℕ → ℕ → ℕ → ℕ
unfolding hash
instant_between t first last utc_s =
    if leb last first
    then first
    else first + hash (bit_xor t.address (hash utc_s)) % (last - first + 1)

abbrev pub instant_in : Transmitter → ℕ → ℕ → ℕ
instant_in t slot utc_s = instant_between t (first_instant_in slot) (last_instant_in slot) utc_s

pub ground_second : Transmitter → ℕ
ground_second t = hash t.address % ground_report_period_s

abbrev pub on_schedule : Transmitter → ℕ → Bool → Bool
on_schedule t utc_s airborne =
    utc_s % period_s airborne == (if airborne then 0 else ground_second t)

abbrev pub position_sent_in : Transmitter → ℕ → Bool
position_sent_in t utc_s = t.ever_sent_position && (utc_s == t.last_position_utc_s)

abbrev pub callsign_sent_in : Transmitter → ℕ → Bool
callsign_sent_in t utc_s = t.ever_sent_callsign && (utc_s == t.last_callsign_utc_s)

abbrev pub on_callsign_schedule : Transmitter → ℕ → Bool
on_callsign_schedule t utc_s = utc_s % callsign_period_s == ground_second t

abbrev pub last_callsign_instant : ℕ
last_callsign_instant = callsign_end_ms - completion_guard_ms - air_time_ms

abbrev pub callsign_slot : ℕ
callsign_slot = 1

-- `slot_of` answers -1 outside the M-band half of the second.
abbrev pub is_slot : ℤ → ℕ → Bool
is_slot (pos n) slot = n == slot
is_slot (negsuc n) slot = false

abbrev pub position_due : Transmitter → SlotPlan → ℕ → Bool → ℤ → Bool
position_due t plan utc_s airborne fix_lag_ms =
    not (position_sent_in t utc_s)
    && (not (ltb_ℤ (pos fix_max_age_ms) fix_lag_ms)
        && (on_schedule t utc_s airborne
            && is_slot (slot_of (pos plan.start_ms)) (slot_in utc_s airborne)))

abbrev pub callsign_due : Transmitter → SlotPlan → ℕ → Bool
callsign_due t plan utc_s =
    not (callsign_sent_in t utc_s)
    && (on_callsign_schedule t utc_s && is_slot (slot_of (pos plan.start_ms)) callsign_slot)

abbrev pub due : Transmitter → SlotPlan → ℕ → Bool → ℤ → Payload → Bool
due t plan utc_s airborne fix_lag_ms position = position_due t plan utc_s airborne fix_lag_ms
due t plan utc_s airborne fix_lag_ms callsign = callsign_due t plan utc_s

-- The burst that leaves, once it is due and there is air time for it.
abbrev pub burst : Transmitter → ℕ → Bool → Payload → Attempt
burst t utc_s airborne position = record {
  go = true;
  at_ms = instant_in t (slot_in utc_s airborne) utc_s;
  frequency_hz = slot_frequency_hz (pos (slot_in utc_s airborne));
  payload = position;
  over_budget = false;
}
burst t utc_s airborne callsign = record {
  go = true;
  at_ms = instant_between t callsign_start_ms last_callsign_instant utc_s;
  frequency_hz = slot_frequency_hz (pos callsign_slot);
  payload = callsign;
  over_budget = false;
}

pub attempt : Transmitter → SlotPlan → ℕ → ℕ → Bool → ℤ → Payload → Attempt
attempt t plan utc_s now_ms airborne fix_lag_ms payload =
    if not plan.tx_allowed
    then no_attempt payload
    else if not (due t plan utc_s airborne fix_lag_ms payload)
    then no_attempt payload
    else if not (may_spend now_ms air_time_ms t.air)
    then record (no_attempt payload) { over_budget = true }
    else burst t utc_s airborne payload

-- The first burst that the dwell owes.
pub attempt_owed : Transmitter → SlotPlan → ℕ → ℕ → Bool → ℤ → Attempt
attempt_owed t plan utc_s now_ms airborne fix_lag_ms =
    let first = attempt t plan utc_s now_ms airborne fix_lag_ms position in
    let second = attempt t plan utc_s now_ms airborne fix_lag_ms callsign in
    if first.go || first.over_budget
    then first
    else if second.go || second.over_budget
    then second
    else no_attempt position

pub sent : ℕ → ℕ → Payload → Transmitter → Transmitter
sent utc_s now_ms payload t =
    let spent = record t {
      sent_count = u32 (t.sent_count + 1);
      air = spend now_ms air_time_ms t.air;
    } in
    elim payload [
      | callsign ↦ record spent { ever_sent_callsign = true; last_callsign_utc_s = utc_s }
      | position ↦ record spent { ever_sent_position = true; last_position_utc_s = utc_s }
    ]
