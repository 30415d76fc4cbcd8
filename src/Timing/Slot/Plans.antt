-- ===== src/Timing/Slot/Plans.antt =====
-- What a plan promises: where its dwell lies, and when own-ship may transmit.
use skyblip.Base.{ℕ, ◌+◌, ◌≤◌, ◌<◌, ◌≡◌, ◌⊎◌, Bool, true, false, arith, not, ◌&&◌, ◌||◌, ltb, leb}
use skyblip.Base.Int.{ℤ, pos, negsuc}
use skyblip.Timing.Slot.{is_m_band, ClockState, plan, folded}
use skyblip.Timing.Slot.Map.{listens}

-- A plan made in a listening millisecond is of a dwell that is running: the phase, or for the tail
-- of slot 1 the phase counted in the second before, lies inside it.
pub plan_running :
    (phase_ms : ℕ) (clock : ClockState)
    → phase_ms < 1000
    → listens (plan (pos phase_ms) clock).state ≡ true
    → (((plan (pos phase_ms) clock).start_ms ≤ phase_ms)
        × (phase_ms < (plan (pos phase_ms) clock).end_ms))
      ⊎ (((plan (pos phase_ms) clock).start_ms ≤ phase_ms + 1000)
          × (phase_ms + 1000 < (plan (pos phase_ms) clock).end_ms))
unfolding plan
plan_running n clock h k = ground arith

-- The pulse that names the second is there, or was there within the minute.
abbrev pub paced : ClockState → Bool
paced clock = clock.pps_locked || (ltb 0 clock.pps_edge_us && ltb clock.since_edge_ms 60001)

-- When a plan lets own-ship transmit, and when it only listens.
pub record IsLicensed (phase_ms : ℤ) (clock : ClockState) : Type 0 where
  pub allowed :
      (plan phase_ms clock).tx_allowed
      ≡ (clock.utc_valid && clock.pps_locked)
        && (ltb (folded phase_ms) 200 || leb 400 (folded phase_ms))
  pub on_m_band :
      ((plan phase_ms clock).tx_allowed && not (is_m_band (plan phase_ms clock).band)) ≡ false
  pub listening : (plan phase_ms clock).listen_only ≡ not (clock.utc_valid && paced clock)
  pub one_of : ((plan phase_ms clock).tx_allowed && (plan phase_ms clock).listen_only) ≡ false

-- Own-ship may transmit exactly under a valid, locked clock, in the 200 ms that open the second and
-- from 400 ms on, always on the M band. A plan only listens exactly when the clock is not valid, or
-- is not locked and has seen no edge yet or none for more than a minute; it never both transmits and
-- only listens.
pub plan-IsLicensed : (phase_ms : ℤ) (clock : ClockState) → IsLicensed phase_ms clock
unfolding plan
plan-IsLicensed (pos n) clock = record {
  allowed = ground arith;
  on_m_band = ground arith;
  listening = ground arith;
  one_of = ground arith;
}
plan-IsLicensed (negsuc n) clock = record {
  allowed = ground arith;
  on_m_band = ground arith;
  listening = ground arith;
  one_of = ground arith;
}
