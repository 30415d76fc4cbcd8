-- ===== src/Power/Cutoff.antt =====
-- firmware/core/power/cutoff.h and cutoff.cpp: the ladder a falling cell is read on.
-- The arrays of three, one entry for each step of `kLadder`, are the record `PerStep`.
pub mod Streaks
pub mod Latch
mod Tests
use skyblip.Base.{
  ℕ, zero, suc, ◌+◌, ◌-◌, ◌*◌, ◌%◌, Bool, true, false, ◌&&◌, ◌||◌, not, Option, none, some, List,
  [], ◌∷◌, ltb, leb, ◌==◌, if◌then◌else◌, u8, u32,
}

abbrev pub low_mv : ℕ
low_mv = 3600

abbrev pub critical_mv : ℕ
critical_mv = 3500

abbrev pub flat_mv : ℕ
flat_mv = 3200

abbrev pub recovery_margin_mv : ℕ
recovery_margin_mv = 35

abbrev pub implausible_floor_mv : ℕ
implausible_floor_mv = 1800

abbrev pub level_samples : ℕ
level_samples = 3

pub data PowerLevel : Type 0 where
  unknown normal low critical flat : PowerLevel

pub data DurableWrite : Type 0 where
  settings flight_record : DurableWrite

pub data PanelRefresh : Type 0 where
  routine park : PanelRefresh

-- events::BatterySample.
pub record BatterySample : Type 0 where
  pub divider_mv : ℕ
  pub external_power : Bool

abbrev pub needs_charge : PowerLevel → Bool
needs_charge low = true
needs_charge critical = true
needs_charge flat = true
needs_charge _ = false

-- Whether two levels are one, `!=` and `==` of the source.
abbrev pub is_critical : PowerLevel → Bool
is_critical critical = true
is_critical _ = false

abbrev pub is_flat : PowerLevel → Bool
is_flat flat = true
is_flat _ = false

abbrev pub is_unknown : PowerLevel → Bool
is_unknown unknown = true
is_unknown _ = false

pub may_write : PowerLevel → Bool → DurableWrite → Bool
may_write level supply_warned flight_record = true
may_write level supply_warned settings =
    if supply_warned then false else not (is_critical level) && not (is_flat level)

pub may_refresh : PowerLevel → Bool → PanelRefresh → Bool
may_refresh level supply_warned park = if supply_warned then false else true
may_refresh level supply_warned routine = if supply_warned then false else not (is_flat level)

-- An array of `kSteps` counters, in the order of `kLadder`.
pub record PerStep : Type 0 where
  pub at_low : ℕ
  pub at_critical : ℕ
  pub at_flat : ℕ

abbrev pub no_runs : PerStep
no_runs = record { at_low = 0; at_critical = 0; at_flat = 0 }

-- Reading the array; the loops read at 0, 1 and 2 only.
abbrev pub entry : PerStep → ℕ → ℕ
entry a zero = a.at_low
entry a (suc zero) = a.at_critical
entry a (suc (suc i)) = a.at_flat

-- `kLadder[i].level`.
abbrev pub ladder_level : ℕ → PowerLevel
ladder_level zero = low
ladder_level (suc zero) = critical
ladder_level (suc (suc i)) = flat

-- How many steps down the ladder a level stands: the loop over `kLadder`.
abbrev pub depth : PowerLevel → ℕ
depth low = 1
depth critical = 2
depth flat = 3
depth _ = 0

abbrev pub lengthened : ℕ → ℕ
lengthened run = if ltb run level_samples then u8 (run + 1) else run

pub record CutoffMonitor : Type 0 where
  pub level : PowerLevel
  pub below : PerStep
  pub cleared : PerStep
  pub implausible : ℕ
  pub supply_warnings : ℕ
  pub supply_warned : Bool

abbrev pub monitor : CutoffMonitor
monitor = record {
  level = unknown;
  below = no_runs;
  cleared = no_runs;
  implausible = 0;
  supply_warnings = 0;
  supply_warned = false;
}

pub on_supply_warning : CutoffMonitor → CutoffMonitor
on_supply_warning m = record m {
  supply_warnings = u32 (m.supply_warnings + 1);
  supply_warned = true;
}

abbrev pub forget_runs : CutoffMonitor → CutoffMonitor
forget_runs m = record m { below = no_runs; cleared = no_runs }

-- One step's counters under a reading: what the body of the loop in `count` does.
abbrev pub count_below : ℕ → ℕ → ℕ → ℕ
count_below entered divider run = if ltb divider entered then lengthened run else 0

abbrev pub count_cleared : ℕ → ℕ → ℕ → ℕ
count_cleared entered divider run =
    if leb (entered + recovery_margin_mv) divider then lengthened run else 0

pub count : ℕ → CutoffMonitor → CutoffMonitor
count divider m = record m {
  below = record {
    at_low = count_below low_mv divider m.below.at_low;
    at_critical = count_below critical_mv divider m.below.at_critical;
    at_flat = count_below flat_mv divider m.below.at_flat;
  };
  cleared = record {
    at_low = count_cleared low_mv divider m.cleared.at_low;
    at_critical = count_cleared critical_mv divider m.cleared.at_critical;
    at_flat = count_cleared flat_mv divider m.cleared.at_flat;
  };
}

-- `for (i = kSteps - 1; i >= current; i--)`, called with `i + 1`.
pub fallen : PerStep → ℕ → ℕ → Option PowerLevel
fallen below current zero = none
fallen below current (suc i) =
    let rest = fallen below current i in
    if ltb i current
    then none
    else if leb level_samples (entry below i)
    then some (ladder_level i)
    else rest

-- `while (risen > 0 && cleared_[risen - 1] >= kLevelSamples) risen--`.
pub rise : PerStep → ℕ → ℕ
rise cleared zero = 0
rise cleared (suc r) =
    let rest = rise cleared r in if leb level_samples (entry cleared r) then rest else suc r

-- `risen == 0 ? Normal : kLadder[risen - 1].level`.
abbrev pub level_at : ℕ → PowerLevel
level_at zero = normal
level_at (suc r) = ladder_level r

abbrev pub settled_above : CutoffMonitor → ℕ → PowerLevel
settled_above m divider =
    if is_unknown m.level
    then if leb low_mv divider then normal else unknown
    else level_at (rise m.cleared (depth m.level))

pub settled : CutoffMonitor → ℕ → PowerLevel
unfolding fallen rise
settled m divider = elim (fallen m.below (depth m.level) 3) [
  | some level ↦ level
  | none ↦ settled_above m divider
]

pub apply : BatterySample → CutoffMonitor → CutoffMonitor
unfolding count settled
apply sample m =
    if is_flat m.level
    then m
    else if leb sample.divider_mv implausible_floor_mv
    then forget_runs (record m { implausible = u32 (m.implausible + 1) })
    else if sample.external_power
    then record (forget_runs m) { level = normal }
    else let counted = count sample.divider_mv m in
      record counted { level = settled counted sample.divider_mv }

-- What reaches the monitor: a sample, or the power-failure comparator.
pub data Event : Type 0 where
  sampled : BatterySample → Event
  supply_warning : Event

abbrev pub step : Event → CutoffMonitor → CutoffMonitor
step (sampled s) m = apply s m
step supply_warning m = on_supply_warning m

-- A history, newest event first.
abbrev pub run : List Event → CutoffMonitor
run [] = monitor
run (e ∷ es) = step e (run es)
