-- ===== src/Power/Cutoff/Latch.antt =====
-- What the monitor's level says of the history of readings.
use skyblip.Base.{
  ℕ, zero, suc, ◌≡◌, refl, ◌≤◌, ◌<◌, true, false, ◌&&◌, not, List, [], ◌∷◌, leb, arith, Bool-cases,
  inl, inr, ap, ◌∙◌,
}
use skyblip.Power.Cutoff.{
  BatterySample, Event, sampled, supply_warning, CutoffMonitor, step, run, apply, is_flat,
  is_critical, flat_mv, on_supply_warning, settled, count, depth, may_write, flight_record,
  settings, entry,
}
use skyblip.Power.Cutoff.Streaks.{
  counts, below_streak, cleared_streak, ran_flat, warned, IsCounted, apply-IsCounted, run-IsCounted,
  flat-apply, entry_mv,
}

-- The monitor reaches the flat step by its counter at that step alone.
is_flat-settled :
    (m : CutoffMonitor) (d : ℕ)
    → is_flat m.level ≡ false
    → is_flat (settled m d) ≡ leb 3 m.below.at_flat
unfolding settled
is_flat-settled m d h = ground arith

count-level : (d : ℕ) (m : CutoffMonitor) → (count d m).level ≡ m.level
unfolding count
count-level d m = refl

is_flat-apply :
    (s : BatterySample) (m : CutoffMonitor)
    → is_flat m.level ≡ false
    → is_flat (apply s m).level ≡ (counts s && leb 3 (apply s m).below.at_flat)
unfolding apply count
is_flat-apply s m h = ground (arith, is_flat-settled (count s.divider_mv m) s.divider_mv)

-- A latch that was set stays set.
flat-step :
    (e : Event) (m : CutoffMonitor) → is_flat m.level ≡ true → is_flat (step e m).level ≡ true
unfolding on_supply_warning
flat-step (sampled s) m h = rw (flat-apply s m h) h
flat-step supply_warning m h = h

level-warning : (m : CutoffMonitor) → (on_supply_warning m).level ≡ m.level
unfolding on_supply_warning
level-warning m = refl

streak_at_flat :
    (s : BatterySample) (es : List Event)
    → is_flat (run es).level ≡ false
    → (counts s && leb 3 (apply s (run es)).below.at_flat)
      ≡ leb 3 (below_streak flat_mv (sampled s ∷ es))
streak_at_flat s es h =
    ground (arith, (apply-IsCounted s es (run es) h (run-IsCounted es h)).below_flat)

-- While the monitor has not latched, no three in a row have been seen.
ran_flat-streak : (es : List Event) → ran_flat es ≡ false → leb 3 (below_streak flat_mv es) ≡ false
ran_flat-streak [] h = refl
ran_flat-streak (e ∷ es) h = ground arith

-- The monitor reads Flat exactly when, at some moment of the history, three consecutive believable
-- readings taken off the charger lay below the flat step; nothing after that takes it back.
pub run_flat_iff : (es : List Event) → is_flat (run es).level ≡ ran_flat es
run_flat_iff [] = refl
run_flat_iff (e ∷ es) = elim (Bool-cases (ran_flat es)) [
  | inl yet ↦ latched e es yet (flat-step e (run es) (run_flat_iff es ∙ yet))
  | inr new ↦ first e es new (run_flat_iff es ∙ new)
]
  where
    latched :
        (e : Event) (es : List Event)
        → ran_flat es ≡ true
        → is_flat (run (e ∷ es)).level ≡ true
        → is_flat (run (e ∷ es)).level ≡ ran_flat (e ∷ es)
    latched e es yet h = ground arith

    first :
        (e : Event) (es : List Event)
        → ran_flat es ≡ false
        → is_flat (run es).level ≡ false
        → is_flat (run (e ∷ es)).level ≡ ran_flat (e ∷ es)
    first (sampled s) es new h = is_flat-apply s (run es) h ∙ streak_at_flat s es h ∙ (ground arith)
    first supply_warning es new h =
        ap is_flat (level-warning (run es)) ∙ h ∙ (ground (arith, ran_flat-streak es new))

-- A fall or a rise of the ladder, read off the counters.
settled-fall :
    (m : CutoffMonitor) (d i : ℕ)
    → is_flat m.level ≡ false
    → depth m.level ≤ i
    → depth (settled m d) ≡ suc i
    → 3 ≤ entry m.below i
unfolding settled
settled-fall m d zero h le e = ground arith
settled-fall m d (suc zero) h le e = ground arith
settled-fall m d (suc (suc i)) h le e = ground arith

settled-rise :
    (m : CutoffMonitor) (d i : ℕ)
    → is_flat m.level ≡ false
    → depth (settled m d) ≤ i
    → i < depth m.level
    → 3 ≤ entry m.cleared i
unfolding settled
settled-rise m d zero h le lt = ground arith
settled-rise m d (suc zero) h le lt = ground arith
settled-rise m d (suc (suc i)) h le lt = ground arith

-- The same of a reading that counts, in terms of the counters that it leaves.
apply_counting :
    (s : BatterySample) (m : CutoffMonitor)
    → is_flat m.level ≡ false
    → counts s ≡ true
    → apply s m
      ≡ record (count s.divider_mv m) { level = settled (count s.divider_mv m) s.divider_mv }
unfolding apply
apply_counting s m h k = ground arith

below_entry :
    (es : List Event) (m : CutoffMonitor) (i : ℕ)
    → IsCounted es m
    → 3 ≤ entry m.below i
    → 3 ≤ below_streak (entry_mv (suc i)) es
below_entry es m zero c h = omega (arith, c.below_low)
below_entry es m (suc zero) c h = omega (arith, c.below_critical)
below_entry es m (suc (suc i)) c h = omega (arith, c.below_flat)

cleared_entry :
    (es : List Event) (m : CutoffMonitor) (i : ℕ)
    → IsCounted es m
    → 3 ≤ entry m.cleared i
    → 3 ≤ cleared_streak (entry_mv (suc i)) es
cleared_entry es m zero c h = omega (arith, c.cleared_low)
cleared_entry es m (suc zero) c h = omega (arith, c.cleared_critical)
cleared_entry es m (suc (suc i)) c h = omega (arith, c.cleared_flat)

module _ (s : BatterySample) (es : List Event) (m : CutoffMonitor) (h : is_flat m.level ≡ false)
    (k : counts s ≡ true) (c : IsCounted (sampled s ∷ es) (apply s m)) where
  pub fall_streak :
      (i : ℕ)
      → depth m.level ≤ i
      → depth (apply s m).level ≡ suc i
      → 3 ≤ below_streak (entry_mv (suc i)) (sampled s ∷ es)
  unfolding count
  fall_streak i le e =
      let eq = apply_counting s m h k in
      below_entry (sampled s ∷ es) (apply s m) i c
        (rw eq (settled-fall (count s.divider_mv m) s.divider_mv i h le (rw eq at e)))

  pub rise_streak :
      (i : ℕ)
      → depth (apply s m).level ≤ i
      → i < depth m.level
      → 3 ≤ cleared_streak (entry_mv (suc i)) (sampled s ∷ es)
  unfolding count
  rise_streak i le lt =
      let eq = apply_counting s m h k in
      cleared_entry (sampled s ∷ es) (apply s m) i c
        (rw eq (settled-rise (count s.divider_mv m) s.divider_mv i h (rw eq at le) lt))

-- After any history that has not run flat, a believable reading off the charger moves the level
-- down to a step only if the last three readings in a row, believable and off the charger, lay below
-- that step, and moves it up only if three such readings in a row lay at least the recovery margin
-- above every step that it leaves.
pub depth-apply :
    (s : BatterySample) (es : List Event)
    → ran_flat es ≡ false
    → counts s ≡ true
    → ((i : ℕ)
        → depth (run es).level ≤ i
        → depth (apply s (run es)).level ≡ suc i
        → 3 ≤ below_streak (entry_mv (suc i)) (sampled s ∷ es))
      × ((i : ℕ)
          → depth (apply s (run es)).level ≤ i
          → i < depth (run es).level
          → 3 ≤ cleared_streak (entry_mv (suc i)) (sampled s ∷ es))
depth-apply s es r k =
    let h = run_flat_iff es ∙ r in
    let c = apply-IsCounted s es (run es) h (run-IsCounted es h) in
    (fall_streak s es (run es) h k c, rise_streak s es (run es) h k c)

supply_warned-apply :
    (s : BatterySample) (m : CutoffMonitor) → (apply s m).supply_warned ≡ m.supply_warned
unfolding apply count
supply_warned-apply s m = ground arith

run-warned : (es : List Event) → (run es).supply_warned ≡ warned es
unfolding on_supply_warning
run-warned [] = refl
run-warned (sampled s ∷ es) = supply_warned-apply s (run es) ∙ run-warned es
run-warned (supply_warning ∷ es) = refl

-- After any history a flight record may be written, whatever the cell does; a settings write is let
-- through exactly when no supply warning ever fired, the cell never ran flat, and the level is not
-- Critical.
pub may_write-run :
    (es : List Event)
    → (may_write (run es).level (run es).supply_warned flight_record ≡ true)
      × (may_write (run es).level (run es).supply_warned settings
          ≡ (not (warned es) && (not (is_critical (run es).level) && not (ran_flat es))))
unfolding may_write
may_write-run es = ground (arith, run-warned es, run_flat_iff es)
