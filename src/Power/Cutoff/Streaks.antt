-- ===== src/Power/Cutoff/Streaks.antt =====
-- The history that the monitor's counters stand for: runs of consecutive believable readings.
use skyblip.Base.{
  ℕ, zero, suc, ◌+◌, ◌≡◌, refl, Bool, true, false, ◌&&◌, ◌||◌, not, List, [], ◌∷◌, min, ap, ◌∙◌,
  ltb, leb, if◌then◌else◌, arith,
}
use skyblip.Power.Cutoff.{
  BatterySample, Event, sampled, supply_warning, CutoffMonitor, step, run, apply, is_flat, flat_mv,
  critical_mv, low_mv, recovery_margin_mv, implausible_floor_mv, on_supply_warning, count, no_runs,
  PerStep, count_below, count_cleared,
}

-- A reading that counts: above the sanity floor, and taken with no charger.
abbrev pub counts : BatterySample → Bool
counts s = ltb implausible_floor_mv s.divider_mv && not s.external_power

-- Where the step at depth `i` is entered.
abbrev pub entry_mv : ℕ → ℕ
entry_mv zero = 0
entry_mv (suc zero) = low_mv
entry_mv (suc (suc zero)) = critical_mv
entry_mv (suc (suc (suc i))) = flat_mv

-- How many consecutive samples, the newest among them, count and read below `mv`.
abbrev pub below_streak : ℕ → List Event → ℕ
below_streak mv [] = 0
below_streak mv (supply_warning ∷ es) = below_streak mv es
below_streak mv (sampled s ∷ es) =
    if counts s && ltb s.divider_mv mv then suc (below_streak mv es) else 0

-- The same for readings at least the recovery margin above `mv`.
abbrev pub cleared_streak : ℕ → List Event → ℕ
cleared_streak mv [] = 0
cleared_streak mv (supply_warning ∷ es) = cleared_streak mv es
cleared_streak mv (sampled s ∷ es) =
    if counts s && leb (mv + recovery_margin_mv) s.divider_mv then suc (cleared_streak mv es) else 0

-- Whether at some moment of the history three such readings in a row lay below the flat step.
abbrev pub ran_flat : List Event → Bool
ran_flat [] = false
ran_flat (e ∷ es) = leb 3 (below_streak flat_mv (e ∷ es)) || ran_flat es

abbrev pub warned : List Event → Bool
warned [] = false
warned (supply_warning ∷ es) = true
warned (sampled s ∷ es) = warned es

-- The counters of a running monitor are those streaks, saturated at three.
pub record IsCounted (es : List Event) (m : CutoffMonitor) : Type 0 where
  pub below_low : m.below.at_low ≡ min 3 (below_streak low_mv es)
  pub below_critical : m.below.at_critical ≡ min 3 (below_streak critical_mv es)
  pub below_flat : m.below.at_flat ≡ min 3 (below_streak flat_mv es)
  pub cleared_low : m.cleared.at_low ≡ min 3 (cleared_streak low_mv es)
  pub cleared_critical : m.cleared.at_critical ≡ min 3 (cleared_streak critical_mv es)
  pub cleared_flat : m.cleared.at_flat ≡ min 3 (cleared_streak flat_mv es)

pub flat-apply : (s : BatterySample) (m : CutoffMonitor) → is_flat m.level ≡ true → apply s m ≡ m
unfolding apply
flat-apply s m h = ground arith

pub not_flat_before :
    (e : Event) (m : CutoffMonitor) → is_flat (step e m).level ≡ false → is_flat m.level ≡ false
unfolding on_supply_warning
not_flat_before (sampled s) m h = ground (arith, flat-apply s m)
not_flat_before supply_warning m h = h

-- The counters after a sample, with the policy of `settled` left shut.
apply_runs :
    (s : BatterySample) (m : CutoffMonitor)
    → is_flat m.level ≡ false
    → ((apply s m).below ≡ (if counts s then (count s.divider_mv m).below else no_runs))
      × ((apply s m).cleared ≡ (if counts s then (count s.divider_mv m).cleared else no_runs))
unfolding apply
apply_runs s m h = ground arith

module _ (s : BatterySample) (es : List Event) where
  below_lem :
      (mv n : ℕ)
      → n ≡ min 3 (below_streak mv es)
      → (if counts s then count_below mv s.divider_mv n else 0)
        ≡ min 3 (below_streak mv (sampled s ∷ es))
  below_lem mv n e = ground arith

  cleared_lem :
      (mv n : ℕ)
      → n ≡ min 3 (cleared_streak mv es)
      → (if counts s then count_cleared mv s.divider_mv n else 0)
        ≡ min 3 (cleared_streak mv (sampled s ∷ es))
  cleared_lem mv n e = ground arith

-- A field of a conditional of records.
if-field :
    (f : PerStep → ℕ) (b : Bool) (x y : PerStep) → f (if b then x else y) ≡ (if b then f x else f y)
if-field f true x y = refl
if-field f false x y = refl

pub apply-IsCounted :
    (s : BatterySample) (es : List Event) (m : CutoffMonitor)
    → is_flat m.level ≡ false
    → IsCounted es m
    → IsCounted (sampled s ∷ es) (apply s m)
unfolding count
apply-IsCounted s es m h c =
    let runs = apply_runs s m h in
    let low = λ (a : PerStep). a.at_low in
    let critical = λ (a : PerStep). a.at_critical in
    let flat = λ (a : PerStep). a.at_flat in
    record {
      below_low = ap low runs.0 ∙ if-field low (counts s) _ _ ∙ below_lem s es low_mv _ c.below_low;
      below_critical =
          ap critical runs.0
          ∙ if-field critical (counts s) _ _
          ∙ below_lem s es critical_mv _ c.below_critical;
      below_flat =
          ap flat runs.0 ∙ if-field flat (counts s) _ _ ∙ below_lem s es flat_mv _ c.below_flat;
      cleared_low =
          ap low runs.1 ∙ if-field low (counts s) _ _ ∙ cleared_lem s es low_mv _ c.cleared_low;
      cleared_critical =
          ap critical runs.1
          ∙ if-field critical (counts s) _ _
          ∙ cleared_lem s es critical_mv _ c.cleared_critical;
      cleared_flat =
          ap flat runs.1 ∙ if-field flat (counts s) _ _ ∙ cleared_lem s es flat_mv _ c.cleared_flat;
    }

pub warning-IsCounted :
    (es : List Event) (m : CutoffMonitor)
    → IsCounted es m
    → IsCounted (supply_warning ∷ es) (on_supply_warning m)
unfolding on_supply_warning
warning-IsCounted es m c = record {
  below_low = c.below_low;
  below_critical = c.below_critical;
  below_flat = c.below_flat;
  cleared_low = c.cleared_low;
  cleared_critical = c.cleared_critical;
  cleared_flat = c.cleared_flat;
}

pub run-IsCounted : (es : List Event) → is_flat (run es).level ≡ false → IsCounted es (run es)
run-IsCounted [] h = ground arith
run-IsCounted (sampled s ∷ es) h =
    let before = not_flat_before (sampled s) (run es) h in
    apply-IsCounted s es (run es) before (run-IsCounted es before)
run-IsCounted (supply_warning ∷ es) h =
    warning-IsCounted es (run es) (run-IsCounted es (not_flat_before supply_warning (run es) h))
