-- ===== src/Timing/DurableWrite.antt =====
-- firmware/core/timing/durable_write.h and durable_write.cpp: whether a durable write may start now,
-- and how long one may wait. The clock is a uint32_t of milliseconds, which wraps.
pub mod Window
pub mod Waiting
mod Tests
use skyblip.Base.{
  ℕ, zero, suc, ◌+◌, ◌-◌, ◌*◌, ◌/◌, ◌%◌, ◌^◌, Bool, true, false, ◌&&◌, ◌||◌, not, ltb, leb,
  if◌then◌else◌, u32, sub32, max, List, [], ◌∷◌,
}
use skyblip.Base.Int.{ℤ, pos, negsuc, ltb_ℤ}
use skyblip.Timing.Slot.{SlotPlan, jitter_guard_ms, direct_start_ms}

pub record DwellPhase : Type 0 where
  pub at_ms : ℕ
  pub phase_ms : ℤ
  pub armed : Bool
  pub burst_armed : Bool

pub data DurableWriteVerdict : Type 0 where
  idle hold place forced : DurableWriteVerdict

abbrev pub word_write_us : ℕ
word_write_us = 41

abbrev pub page_erase_ms : ℕ
page_erase_ms = 85

abbrev pub blob_words : ℕ
blob_words = 16

abbrev pub worst_write_ms : ℕ
worst_write_ms = page_erase_ms + (blob_words * word_write_us + 999) / 1000

abbrev pub settle_ms : ℕ
settle_ms = 750

abbrev pub defer_ceiling_ms : ℕ
defer_ceiling_ms = 3000

abbrev pub view_stale_ms : ℕ
view_stale_ms = 100

abbrev pub second_ms : ℕ
second_ms = 1000

pub record DurableWriteWindow : Type 0 where
  pub requests : ℕ
  pub writes : ℕ
  pub forced_writes : ℕ
  pub worst_wait_ms : ℕ
  pub first_request_ms : ℕ
  pub last_request_ms : ℕ
  pub pending : Bool

abbrev pub window : DurableWriteWindow
window = record {
  requests = 0;
  writes = 0;
  forced_writes = 0;
  worst_wait_ms = 0;
  first_request_ms = 0;
  last_request_ms = 0;
  pending = false;
}

-- The phase in the frame of the plan's dwell: slot 1's tail is counted in the second before.
abbrev pub framed : SlotPlan → ℕ → ℕ
framed plan phase_ms =
    if ltb second_ms plan.end_ms && ltb phase_ms (plan.end_ms - second_ms)
    then phase_ms + second_ms
    else phase_ms

-- `static_cast<int>` of a uint32_t.
abbrev pub to_int : ℕ → ℤ
to_int n = if ltb n (2 ^ 31) then pos n else negsuc (2 ^ 32 - 1 - n)

-- The sum of an int and a count of milliseconds.
abbrev pub later : ℤ → ℕ → ℤ
later (pos n) ms = pos (n + ms)
later (negsuc n) ms = if leb (suc n) ms then pos (ms - suc n) else negsuc (n - ms)

-- `bound < done_ms + kJitterGuardMs`.
abbrev pub runs_past : ℕ → ℤ → Bool
runs_past bound done_ms = ltb_ℤ (pos bound) (later done_ms jitter_guard_ms)

-- The refusals of `free_at` after the phase is framed.
abbrev pub free_framed : SlotPlan → ℕ → ℕ → Bool
free_framed plan at_ms cost_ms =
    let done_ms = later (to_int cost_ms) at_ms in
    if ltb at_ms plan.start_ms
    then false
    else if runs_past plan.end_ms done_ms
    then false
    else if ltb at_ms direct_start_ms && runs_past direct_start_ms done_ms
    then false
    else not (runs_past (if ltb at_ms second_ms then second_ms else 2 * second_ms) done_ms)

-- `if (phase_ms >= kSecondMs) phase_ms -= kSecondMs;`.
abbrev pub in_second : ℕ → ℕ
in_second phase_ms = if leb second_ms phase_ms then phase_ms - second_ms else phase_ms

pub free_at : SlotPlan → ℤ → ℕ → Bool
free_at plan (negsuc n) cost_ms = false
free_at plan (pos phase_ms) cost_ms =
    if plan.tx_allowed then false else free_framed plan (framed plan (in_second phase_ms)) cost_ms

pub request : ℕ → DurableWriteWindow → DurableWriteWindow
request now_ms w =
    let c = record w { requests = u32 (w.requests + 1) } in
    let opened =
      if not c.pending then record c { pending = true; first_request_ms = now_ms } else c in
    record opened { last_request_ms = now_ms }

pub free_now : SlotPlan → DwellPhase → ℕ → ℕ → Bool
unfolding free_at
free_now plan dwell now_ms cost_ms =
    let stale_ms = sub32 now_ms dwell.at_ms in
    if not dwell.armed
    then true
    else if dwell.burst_armed
    then false
    else if ltb view_stale_ms stale_ms
    then false
    else free_at plan (later dwell.phase_ms stale_ms) cost_ms

abbrev pub placeable : SlotPlan → DwellPhase → ℕ → Bool
placeable plan dwell now_ms = free_now plan dwell now_ms worst_write_ms

pub decide : SlotPlan → DwellPhase → ℕ → DurableWriteWindow → DurableWriteVerdict
decide plan dwell now_ms w =
    let bound_spent = leb defer_ceiling_ms (sub32 now_ms w.first_request_ms) in
    if not w.pending
    then idle
    else if not bound_spent && ltb (sub32 now_ms w.last_request_ms) settle_ms
    then hold
    else if placeable plan dwell now_ms
    then place
    else if bound_spent
    then forced
    else hold

pub placed : ℕ → Bool → DurableWriteWindow → DurableWriteWindow
placed now_ms was_forced w = record w {
  worst_wait_ms = max (sub32 now_ms w.first_request_ms) w.worst_wait_ms;
  writes = u32 (w.writes + 1);
  forced_writes = if was_forced then u32 (w.forced_writes + 1) else w.forced_writes;
  pending = false;
}

pub refused : ℕ → Bool → DurableWriteWindow → DurableWriteWindow
refused now_ms was_forced w = record w {
  forced_writes = if was_forced then u32 (w.forced_writes + 1) else w.forced_writes;
  first_request_ms = now_ms;
  last_request_ms = now_ms;
}

abbrev pub waited_ms : ℕ → DurableWriteWindow → ℕ
waited_ms now_ms w = if w.pending then sub32 now_ms w.first_request_ms else 0

-- The write itself: whether the store took it, counted at the time of the pass.
abbrev pub write_settings : ℕ → Bool → Bool → DurableWriteWindow → DurableWriteWindow
write_settings now_ms was_forced persisted w =
    if persisted then placed now_ms was_forced w else refused now_ms was_forced w

-- What a pass does with a verdict.
abbrev pub acted : ℕ → Bool → DurableWriteVerdict → DurableWriteWindow → DurableWriteWindow
acted now_ms persisted place w = write_settings now_ms false persisted w
acted now_ms persisted forced w = write_settings now_ms true persisted w
acted now_ms persisted _ w = w

-- A service pass as the settings service makes it, after the change it may have taken: nothing while
-- power holds it back, and else what the verdict at the clock says.
pub drain : Bool → SlotPlan → DwellPhase → ℕ → ℕ → Bool → DurableWriteWindow → DurableWriteWindow
unfolding decide placed refused
drain may_persist plan dwell clock_ms now_ms persisted w =
    if may_persist then acted now_ms persisted (decide plan dwell clock_ms w) w else w

-- What happens to the window: a change that is taken, or a pass.
pub data Event : Type 0 where
  changed : ℕ → Event
  passed : Bool → SlotPlan → DwellPhase → ℕ → ℕ → Bool → Event

abbrev pub step : Event → DurableWriteWindow → DurableWriteWindow
step (changed now_ms) w = request now_ms w
step (passed may_persist plan dwell clock_ms now_ms persisted) w =
    drain may_persist plan dwell clock_ms now_ms persisted w

-- A history, newest event first.
abbrev pub run : List Event → DurableWriteWindow
run [] = window
run (e ∷ es) = step e (run es)
