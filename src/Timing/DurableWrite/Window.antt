-- ===== src/Timing/DurableWrite/Window.antt =====
-- Where in the second a write may start: what the radio is owed across the stall.
use skyblip.Base.{ℕ, ◌+◌, ◌^◌, ◌≤◌, ◌<◌, ◌≡◌, ◌⊎◌, ◌↔◌, true, false, arith}
use skyblip.Base.Int.{pos}
use skyblip.Timing.Slot.{ClockState, state_at, plan, anchored}
use skyblip.Timing.Slot.Map.{listens}
use skyblip.Timing.DurableWrite.{free_at}

-- What the radio is owed across a stall that starts at a phase.
pub record IsClear (phase_ms cost_ms : ℕ) (clock : ClockState) : Type 0 where
  pub silent : (plan (pos phase_ms) clock).tx_allowed ≡ false
  pub listening : listens (state_at (pos phase_ms)) ≡ true
  pub in_second : phase_ms + cost_ms + 5 ≤ 1000
  pub direct : (450 ≤ phase_ms) ⊎ (phase_ms + cost_ms + 5 ≤ 450)
  pub one_dwell :
      (at_ms : ℕ)
      → phase_ms ≤ at_ms
      → at_ms < phase_ms + cost_ms + 5
      → state_at (pos at_ms) ≡ state_at (pos phase_ms)

-- A stall whose end fits an int and that is let through stays inside the dwell it starts in: every millisecond of it, and of
-- the guard after it, lies in this second and in the state of the first, a listening one; own-ship
-- may not transmit in it, and it never runs across the opening of the direct slot.
pub free_at-IsClear :
    (phase_ms cost_ms : ℕ) (clock : ClockState)
    → phase_ms < 1000
    → cost_ms + 2005 < 2 ^ 31
    → free_at (plan (pos phase_ms) clock) (pos phase_ms) cost_ms ≡ true
    → IsClear phase_ms cost_ms clock
unfolding free_at plan
free_at-IsClear p c clock h fits f = record {
  silent = ground arith;
  listening = ground arith;
  in_second = ground arith;
  direct = ground arith;
  one_dwell = λ q lo hi. ground arith;
}

-- Under a valid, locked clock the free stretch of the second is exactly the uplink dwell, less the
-- cost and the guard in front of its end.
pub free_at-uplink :
    (phase_ms cost_ms : ℕ) (clock : ClockState)
    → phase_ms < 1000
    → cost_ms + 2005 < 2 ^ 31
    → anchored clock ≡ true
    → (free_at (plan (pos phase_ms) clock) (pos phase_ms) cost_ms ≡ true)
      ↔ ((205 ≤ phase_ms) × (phase_ms + cost_ms + 5 ≤ 395))
unfolding free_at plan
free_at-uplink p c clock h fits a = (ground arith, ground arith)
