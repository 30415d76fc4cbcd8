-- ===== src/Timing/Slot.antt =====
-- firmware/core/timing/slot.h and slot.cpp: the single-radio dwell map.
-- A phase is the source's `int`; the stretches of the map are plain numbers of milliseconds.
pub mod Map
pub mod Plans
pub mod Clock
mod Tests
use skyblip.Base.{
  ℕ, zero, suc, ◌+◌, ◌-◌, ◌*◌, ◌/◌, ◌%◌, ◌^◌, Bool, true, false, ◌&&◌, ◌||◌, not, ltb, leb, ◌==◌,
  if◌then◌else◌, u32,
}
use skyblip.Base.Int.{ℤ, pos, negsuc, pos_part, neg_part, ltb_ℤ}

abbrev pub m_band0_hz : ℕ
m_band0_hz = 868200000

abbrev pub m_band1_hz : ℕ
m_band1_hz = 868400000

abbrev pub o_band_hz : ℕ
o_band_hz = 869525000

abbrev pub uplink_rx_start_ms : ℕ
uplink_rx_start_ms = 205

abbrev pub uplink_rx_end_ms : ℕ
uplink_rx_end_ms = 395

abbrev pub slot0_start_ms : ℕ
slot0_start_ms = 400

abbrev pub slot0_end_ms : ℕ
slot0_end_ms = 800

abbrev pub slot1_start_ms : ℕ
slot1_start_ms = 800

abbrev pub slot1_end_ms : ℕ
slot1_end_ms = 1200

abbrev pub slot1_wrap_ms : ℕ
slot1_wrap_ms = slot1_end_ms - 1000

abbrev pub direct_start_ms : ℕ
direct_start_ms = 450

abbrev pub direct_end_ms : ℕ
direct_end_ms = 1000

abbrev pub jitter_guard_ms : ℕ
jitter_guard_ms = 5

abbrev pub hop_guard_ms : ℕ
hop_guard_ms = 2

abbrev pub pps_holdover_ms : ℕ
pps_holdover_ms = 60000

pub data Band : Type 0 where
  m_band o_band : Band

pub data SlotState : Type 0 where
  uplink_rx_o_band switch_o_band_to_m_band slot0 hop slot1 switch_m_band_to_o_band : SlotState

pub record ClockState : Type 0 where
  pub utc_valid : Bool
  pub pps_locked : Bool
  pub since_edge_ms : ℕ
  pub pps_edge_us : ℕ
  pub utc_s : ℕ
  pub utc_edge_us : ℕ

abbrev pub second_us : ℕ
second_us = 1000000

abbrev pub half_second_us : ℕ
half_second_us = 500000

-- The carried second, once the edge is known to be a later one.
abbrev pub carried : ClockState → ℕ → ℕ → ClockState
carried clock edge_us seconds =
    if seconds == 0
    then clock
    else record clock { utc_s = u32 (clock.utc_s + seconds); utc_edge_us = edge_us }

pub carry_utc_to_edge : ClockState → ℕ → ClockState
carry_utc_to_edge clock edge_us =
    let c = record clock { pps_edge_us = edge_us } in
    if c.utc_s == 0 || leb edge_us c.utc_edge_us
    then c
    else carried c edge_us (u32 ((edge_us - c.utc_edge_us + half_second_us) / second_us))

abbrev pub since_edge_us : ℕ → ℕ → ℕ
since_edge_us edge_us now_us = if ltb edge_us now_us then now_us - edge_us else 0

unfoldable pub in_pps_holdover : ClockState → Bool
in_pps_holdover clock =
    clock.utc_valid
    && (not clock.pps_locked
        && (not (clock.pps_edge_us == 0) && leb clock.since_edge_ms pps_holdover_ms))

-- `phase_ms < bound`, for a phase that may be negative.
abbrev pub before : ℤ → ℕ → Bool
before phase_ms bound = ltb_ℤ phase_ms (pos bound)

abbrev pub within : ℤ → ℕ → ℕ → Bool
within phase_ms from to = not (before phase_ms from) && before phase_ms to

unfoldable pub state_at : ℤ → SlotState
state_at phase_ms =
    if before phase_ms slot1_wrap_ms
    then slot1
    else if within phase_ms uplink_rx_start_ms uplink_rx_end_ms
    then uplink_rx_o_band
    else if within phase_ms uplink_rx_end_ms slot0_start_ms
    then switch_o_band_to_m_band
    else if within phase_ms slot0_start_ms (slot0_end_ms - hop_guard_ms)
    then slot0
    else if within phase_ms (slot0_end_ms - hop_guard_ms) slot1_start_ms
    then hop
    else if not (before phase_ms slot1_start_ms)
    then slot1
    else switch_m_band_to_o_band

unfoldable pub band_at : ℤ → Band
unfolding state_at
band_at phase_ms = elim (state_at phase_ms) [
  | slot0 ↦ m_band
  | hop ↦ m_band
  | slot1 ↦ m_band
  | _ ↦ o_band
]

unfoldable pub frequency_hz_at : ℤ → ℕ
unfolding state_at
frequency_hz_at phase_ms = elim (state_at phase_ms) [
  | slot0 ↦ m_band0_hz
  | hop ↦ m_band0_hz
  | slot1 ↦ m_band1_hz
  | _ ↦ o_band_hz
]

abbrev pub in_uplink_rx : ℤ → Bool
in_uplink_rx phase_ms = within phase_ms uplink_rx_start_ms uplink_rx_end_ms

abbrev pub in_direct_slot : ℤ → Bool
in_direct_slot phase_ms = within phase_ms direct_start_ms direct_end_ms

unfoldable pub in_own_tx_dwell : ℤ → Bool
unfolding state_at
in_own_tx_dwell phase_ms = elim (state_at phase_ms) [
  | slot0 ↦ true
  | hop ↦ true
  | slot1 ↦ true
  | _ ↦ false
]

-- `negsuc 0` is the -1 outside the M-band half of the second.
unfoldable pub slot_of : ℤ → ℤ
slot_of phase_ms =
    if before phase_ms slot1_wrap_ms
    then pos 1
    else if within phase_ms slot0_start_ms slot0_end_ms
    then pos 0
    else if not (before phase_ms slot1_start_ms)
    then pos 1
    else negsuc 0

abbrev pub is_slot1 : ℤ → Bool
is_slot1 (pos n) = n == 1
is_slot1 (negsuc n) = false

abbrev pub slot_frequency_hz : ℤ → ℕ
slot_frequency_hz slot = if is_slot1 slot then m_band1_hz else m_band0_hz

abbrev pub slot_start : ℤ → ℕ
slot_start slot = if is_slot1 slot then slot1_start_ms else slot0_start_ms

abbrev pub dwell_end : ℤ → ℕ
dwell_end slot = if is_slot1 slot then slot1_end_ms else slot0_end_ms - hop_guard_ms

pub record SlotPlan : Type 0 where
  pub state : SlotState
  pub band : Band
  pub frequency_hz : ℕ
  pub start_ms : ℕ
  pub end_ms : ℕ
  pub tx_allowed : Bool
  pub own_tx_dwell : Bool
  pub listen_only : Bool

abbrev pub is_m_band : Band → Bool
is_m_band m_band = true
is_m_band o_band = false

-- `phase_ms = std::max(phase_ms, 0); if (phase_ms >= 1000) phase_ms %= 1000;`.
abbrev pub folded : ℤ → ℕ
folded phase_ms =
    if leb 1000 (pos_part phase_ms) then pos_part phase_ms % 1000 else pos_part phase_ms

abbrev pub plan_start : SlotState → ℕ
plan_start slot0 = slot0_start_ms
plan_start hop = slot0_start_ms
plan_start slot1 = slot1_start_ms
plan_start _ = uplink_rx_start_ms

abbrev pub plan_end : SlotState → ℕ
plan_end slot0 = dwell_end (pos 0)
plan_end hop = dwell_end (pos 0)
plan_end slot1 = dwell_end (pos 1)
plan_end _ = uplink_rx_end_ms

abbrev pub anchored : ClockState → Bool
anchored clock = clock.utc_valid && clock.pps_locked

unfoldable pub plan : ℤ → ClockState → SlotPlan
unfolding state_at band_at frequency_hz_at in_own_tx_dwell in_pps_holdover
plan phase_ms clock =
    let phase = pos (folded phase_ms) in
    let state = state_at phase in
    let band = band_at phase in
    let own = in_own_tx_dwell phase in
    record {
      state = state;
      band = band;
      frequency_hz = frequency_hz_at phase;
      start_ms = plan_start state;
      end_ms = plan_end state;
      own_tx_dwell = own;
      tx_allowed = if anchored clock then is_m_band band && own else false;
      listen_only = if anchored clock then false else if in_pps_holdover clock then false else true;
    }
