-- ===== src/Timing/Slot/Clock.antt =====
-- Carrying the named second to a later edge of the GNSS receiver's pulse.
use skyblip.Base.{ℕ, ◌+◌, ◌*◌, ◌^◌, ◌≤◌, ◌<◌, ◌≡◌, ◌≢◌, arith, u32}
use skyblip.Timing.Slot.{ClockState, carry_utc_to_edge, second_us}

-- An edge that comes within half a second of `seconds` whole seconds after the named one carries the
-- clock by exactly that many seconds, and becomes the edge that the second is named at.
pub carry_utc_seconds :
    (clock : ClockState) (edge_us seconds : ℕ)
    → clock.utc_s ≢ 0
    → 0 < seconds
    → seconds < 2 ^ 32
    → clock.utc_edge_us + seconds * second_us ≤ edge_us + 500000
    → edge_us < clock.utc_edge_us + seconds * second_us + 500000
    → ((carry_utc_to_edge clock edge_us).utc_s ≡ u32 (clock.utc_s + seconds))
      × ((carry_utc_to_edge clock edge_us).utc_edge_us ≡ edge_us)
      × ((carry_utc_to_edge clock edge_us).pps_edge_us ≡ edge_us)
unfolding carry_utc_to_edge
carry_utc_seconds clock edge_us seconds named pos fits early late = ground arith
