-- ===== src/Power/Shutdown.antt =====
-- firmware/core/power/shutdown.h and shutdown.cpp: the order in which a device may go dark.
-- A sink is any state with a `perform`; the clock is a uint32_t of milliseconds, which wraps.
pub mod Order
pub mod Phases
pub mod Hold
pub mod Release
mod Tests
use skyblip.Base.{
  ℕ, zero, suc, Bool, true, false, ◌&&◌, ◌||◌, not, List, [], ◌∷◌, ◌==◌, leb, ltb, if◌then◌else◌,
  sub32,
}

pub data ShutdownReason : Type 0 where
  none long_press stow low_battery link_request install recovery : ShutdownReason

pub data ShutdownPhase : Type 0 where
  running parking await_release off : ShutdownPhase

pub data PowerDownStep : Type 0 where
  radio_sleep external_flash_deep_power_down external_flash_lines_released panel_lines_released
        gnss_backup_off gnss_reset_asserted radio_reset_asserted peripheral_rail_off
        auxiliary_rail_off driven_pins_released wake_pin_armed :
      PowerDownStep

abbrev pub power_down_order : List PowerDownStep
power_down_order =
    radio_sleep ∷ external_flash_deep_power_down ∷ external_flash_lines_released
    ∷ panel_lines_released ∷ gnss_backup_off ∷ gnss_reset_asserted ∷ radio_reset_asserted
    ∷ peripheral_rail_off ∷ auxiliary_rail_off ∷ driven_pins_released ∷ wake_pin_armed ∷ []

-- The value of the enumerator, by which the source compares two steps.
abbrev pub step_code : PowerDownStep → ℕ
step_code radio_sleep = 0
step_code external_flash_deep_power_down = 1
step_code external_flash_lines_released = 2
step_code panel_lines_released = 3
step_code gnss_backup_off = 4
step_code gnss_reset_asserted = 5
step_code radio_reset_asserted = 6
step_code peripheral_rail_off = 7
step_code auxiliary_rail_off = 8
step_code driven_pins_released = 9
step_code wake_pin_armed = 10

-- for (const PowerDownStep step : steps) sink.perform(step);
pub perform_all {ℓ} : {S : Type ℓ} → (PowerDownStep → S → S) → List PowerDownStep → S → S
perform_all perform [] sink = sink
perform_all perform (step ∷ rest) sink = perform_all perform rest (perform step sink)

pub power_down {ℓ} : {S : Type ℓ} → (PowerDownStep → S → S) → S → S
unfolding perform_all
power_down perform sink = perform_all perform power_down_order sink

abbrev pub long_press_hold_ms : ℕ
long_press_hold_ms = 2000

abbrev pub park_settle_ms : ℕ
park_settle_ms = 3000

abbrev pub release_settle_ms : ℕ
release_settle_ms = 100

pub record ButtonRelease : Type 0 where
  pub released : Bool
  pub released_at_ms : ℕ

abbrev pub button_release : ButtonRelease
button_release = record { released = false; released_at_ms = 0 }

-- The new state, and whether the button has been up for long enough.
pub settled : ButtonRelease → ℕ → Bool → ButtonRelease × Bool
settled r now_ms button_down =
    if button_down
    then (record r { released = false }, false)
    else if not r.released
    then (record { released = true; released_at_ms = now_ms }, false)
    else (r, leb release_settle_ms (sub32 now_ms r.released_at_ms))

pub record ShutdownSequencer : Type 0 where
  pub phase : ShutdownPhase
  pub reason : ShutdownReason
  pub phase_since_ms : ℕ
  pub hold_since_ms : ℕ
  pub release : ButtonRelease
  pub holding : Bool
  pub stowing : Bool
  pub hold_armed : Bool
  pub pad_armed : Bool

abbrev pub sequencer : ShutdownSequencer
sequencer = record {
  phase = running;
  reason = none;
  phase_since_ms = 0;
  hold_since_ms = 0;
  release = button_release;
  holding = false;
  stowing = false;
  hold_armed = false;
  pad_armed = false;
}

abbrev pub going_down : ShutdownSequencer → Bool
going_down s = elim s.phase [ running ↦ false | _ ↦ true ]

abbrev pub is_none : ShutdownReason → Bool
is_none none = true
is_none _ = false

abbrev pub enter : ShutdownPhase → ℕ → ShutdownSequencer → ShutdownSequencer
enter phase now_ms s = record s { phase = phase; phase_since_ms = now_ms }

pub request : ShutdownReason → ℕ → ShutdownSequencer → ShutdownSequencer
request reason now_ms s =
    if going_down s || is_none reason
    then s
    else enter parking now_ms (record s { reason = reason; release = button_release })

pub held_ms : ℕ → ShutdownSequencer → ℕ
held_ms now_ms s = if not s.holding || not s.hold_armed then 0 else sub32 now_ms s.hold_since_ms

-- The button is down and the hold was begun at an earlier tick.
abbrev pub tick_held : ℕ → Bool → ShutdownSequencer → ShutdownSequencer
tick_held now_ms pad_down s =
    let t = if not pad_down then record s { stowing = false } else s in
    if t.hold_armed && leb long_press_hold_ms (sub32 now_ms t.hold_since_ms)
    then request (if t.stowing then stow else long_press) now_ms t
    else t

-- `case ShutdownPhase::Running`.
pub tick_running : ℕ → Bool → Bool → ShutdownSequencer → ShutdownSequencer
unfolding request
tick_running now_ms button_down pad_down s =
    let t = if not pad_down then record s { pad_armed = true } else s in
    if not button_down
    then record t { holding = false; hold_armed = true }
    else if not t.holding
    then record t { holding = true; hold_since_ms = now_ms; stowing = t.pad_armed && pad_down }
    else tick_held now_ms pad_down t

pub tick_parking : ℕ → ShutdownSequencer → ShutdownSequencer
tick_parking now_ms s =
    if ltb (sub32 now_ms s.phase_since_ms) park_settle_ms then s else enter await_release now_ms s

pub tick_awaiting : ℕ → Bool → ShutdownSequencer → ShutdownSequencer
unfolding settled
tick_awaiting now_ms button_down s =
    let (r, done) = settled s.release now_ms button_down in
    let t = record s { release = r } in if done then enter off now_ms t else t

pub tick : ℕ → Bool → Bool → ShutdownSequencer → ShutdownSequencer
unfolding tick_running tick_parking tick_awaiting
tick now_ms button_down pad_down s = elim s.phase [
  | running ↦ tick_running now_ms button_down pad_down s
  | parking ↦ tick_parking now_ms s
  | await_release ↦ tick_awaiting now_ms button_down s
  | off ↦ s
]

-- What drives the sequencer: a service step, or one of the other two entries.
pub data Event : Type 0 where
  ticked : ℕ → Bool → Bool → Event
  requested : ShutdownReason → ℕ → Event

abbrev pub step : Event → ShutdownSequencer → ShutdownSequencer
step (ticked now_ms button_down pad_down) s = tick now_ms button_down pad_down s
step (requested reason now_ms) s = request reason now_ms s

-- A history, newest event first.
abbrev pub run : List Event → ShutdownSequencer
run [] = sequencer
run (e ∷ es) = step e (run es)
