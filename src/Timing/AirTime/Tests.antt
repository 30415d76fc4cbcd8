-- ===== src/Timing/AirTime/Tests.antt =====
-- The theorem on the hour's budget at a concrete burst.
use skyblip.Base.{◌+◌, ◌≤◌, ◌≡◌, refl, true, arith}
use skyblip.Timing.AirTime.{air_time, spend, may_spend, window_ms, budget_ms}
use skyblip.Timing.AirTime.Brought.{Hour}
use skyblip.Timing.AirTime.Budget.{spend-Hour}

first-Hour : Hour air_time
first-Hour = record {
  head = omega arith;
  start = omega arith;
  sum = omega arith;
  idle = λ off. refl;
}

granted : may_spend 4000 350 air_time ≡ true
unfolding may_spend
granted = refl

spend-Hour_example :
    Hour (spend 4000 350 air_time)
    × (window_ms 4000 (spend 4000 350 air_time) ≡ window_ms 4000 air_time + 350)
    × (window_ms 4000 air_time + 350 ≤ budget_ms)
spend-Hour_example =
    spend-Hour air_time 4000 350 first-Hour (omega arith) (omega arith) (omega arith) granted
