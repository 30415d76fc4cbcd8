-- ===== src/Timing/DurableWrite/Waiting.antt =====
-- How long a change may wait, and what a run of changes costs in writes.
use skyblip.Base.{
  ℕ, suc, ◌+◌, ◌^◌, ◌≤◌, ◌<◌, ◌≡◌, ◌⊎◌, Bool, true, false, arith, List, [], ◌∷◌, sub32, u32, not,
  ◌&&◌, inl, inr, sym, subst, Bool-cases,
}
use skyblip.Timing.Slot.{SlotPlan}
use skyblip.Timing.DurableWrite.{
  place, forced, DurableWriteVerdict, DurableWriteWindow, DwellPhase, decide, placeable, drain,
  request, Event, changed, passed, step, run,
}

abbrev pub changes : List Event → ℕ
changes [] = 0
changes (changed now_ms ∷ es) = suc (changes es)
changes (passed may_persist plan dwell clock_ms now_ms persisted ∷ es) = changes es

abbrev pub owed : Bool → ℕ
owed true = 1
owed false = 0

IsCoalesced : List Event → DurableWriteWindow → Type 0
IsCoalesced es w = (w.requests ≡ changes es) × (w.writes + owed w.pending ≤ changes es)

request-IsCoalesced :
    (now_ms : ℕ) (es : List Event) (w : DurableWriteWindow)
    → changes (changed now_ms ∷ es) < 2 ^ 32
    → IsCoalesced es w
    → IsCoalesced (changed now_ms ∷ es) (request now_ms w)
unfolding IsCoalesced request
request-IsCoalesced now_ms es w fits c = ground arith

drain-IsCoalesced :
    (may_persist : Bool) (plan : SlotPlan) (dwell : DwellPhase) (clock_ms now_ms : ℕ)
    (persisted : Bool) (es : List Event) (w : DurableWriteWindow)
    → changes es < 2 ^ 32
    → IsCoalesced es w
    → IsCoalesced
        (passed may_persist plan dwell clock_ms now_ms persisted ∷ es)
        (drain may_persist plan dwell clock_ms now_ms persisted w)
unfolding IsCoalesced drain
drain-IsCoalesced may_persist plan dwell clock_ms now_ms persisted es w fits c = ground arith

-- However fewer than 2 ^ 32 changes and any service passes interleave, every change is counted, and the writes that they
-- cost, with the one that is still owed, are never more than the changes.
pub run_coalesced :
    (es : List Event)
    → changes es < 2 ^ 32
    → ((run es).requests ≡ changes es) × ((run es).writes + owed (run es).pending ≤ changes es)
unfolding IsCoalesced
run_coalesced [] fits = ground arith
run_coalesced (changed now_ms ∷ es) fits =
    request-IsCoalesced now_ms es (run es) fits (run_coalesced es (omega arith))
run_coalesced (passed may_persist plan dwell clock_ms now_ms persisted ∷ es) fits =
    drain-IsCoalesced may_persist plan dwell clock_ms now_ms persisted es (run es) fits
      (run_coalesced es fits)

abbrev is_write : DurableWriteVerdict → Bool
is_write place = true
is_write forced = true
is_write _ = false

abbrev pub event_time : Event → ℕ
event_time (changed now_ms) = now_ms
event_time (passed may_persist plan dwell clock_ms now_ms persisted) = now_ms

-- An event starts the wait anew: a change while nothing was pending, or a write that the store refused.
abbrev pub opens : Event → DurableWriteWindow → Bool
opens (changed now_ms) w = not w.pending
opens (passed may_persist plan dwell clock_ms now_ms persisted) w =
    may_persist && (is_write (decide plan dwell clock_ms w) && not persisted)

-- An event starts the settling anew: any change, or a write that the store refused.
abbrev pub stirs : Event → DurableWriteWindow → Bool
stirs (changed now_ms) w = true
stirs e w = opens e w

-- The latest event of the history that passes a test stood at time `t`.
abbrev pub LatestAt : (Event → DurableWriteWindow → Bool) → ℕ → List Event → Type 0
LatestAt test t [] = ⊥
LatestAt test t (e ∷ es) =
    ((test e (run es) ≡ true) × (event_time e ≡ t))
    ⊎ ((test e (run es) ≡ false) × LatestAt test t es)

-- A field that such events set to their time, and that others keep while a change is pending.
module _ (test : Event → DurableWriteWindow → Bool) (field : DurableWriteWindow → ℕ)
    (sets : (e : Event) (w : DurableWriteWindow)
      → test e w ≡ true
      → field (step e w) ≡ event_time e)
    (keeps : (e : Event) (w : DurableWriteWindow)
      → test e w ≡ false
      → (step e w).pending ≡ true
      → (w.pending ≡ true) × (field (step e w) ≡ field w)) where
  run-LatestAt : (es : List Event) → (run es).pending ≡ true → LatestAt test (field (run es)) es
  run-LatestAt [] p = cc
  run-LatestAt (e ∷ es) p = elim (Bool-cases (test e (run es))) [
    | inl o ↦ inl (o, sym (sets e (run es) o))
    | inr k ↦
        let (before, same) = keeps e (run es) k p in
        inr (k, subst (λ t. LatestAt test t es) (sym same) (run-LatestAt es before))
  ]

opens-first :
    (e : Event) (w : DurableWriteWindow)
    → opens e w ≡ true
    → (step e w).first_request_ms ≡ event_time e
unfolding request drain
opens-first (changed now_ms) w o = ground arith
opens-first (passed may_persist plan dwell clock_ms now_ms persisted) w o = ground arith

keeps-first :
    (e : Event) (w : DurableWriteWindow)
    → opens e w ≡ false
    → (step e w).pending ≡ true
    → (w.pending ≡ true) × ((step e w).first_request_ms ≡ w.first_request_ms)
unfolding request drain
keeps-first (changed now_ms) w o p = ground arith
keeps-first (passed may_persist plan dwell clock_ms now_ms persisted) w o p = ground arith

stirs-last :
    (e : Event) (w : DurableWriteWindow)
    → stirs e w ≡ true
    → (step e w).last_request_ms ≡ event_time e
unfolding request drain
stirs-last (changed now_ms) w o = ground arith
stirs-last (passed may_persist plan dwell clock_ms now_ms persisted) w o = ground arith

keeps-last :
    (e : Event) (w : DurableWriteWindow)
    → stirs e w ≡ false
    → (step e w).pending ≡ true
    → (w.pending ≡ true) × ((step e w).last_request_ms ≡ w.last_request_ms)
unfolding request drain
keeps-last (changed now_ms) w o p = ground arith
keeps-last (passed may_persist plan dwell clock_ms now_ms persisted) w o p = ground arith

-- The write was tried: the store took it and the change is no longer owed, or it is still owed and
-- waits anew from the time of the pass.
abbrev pub Tried : ℕ → Bool → DurableWriteWindow → DurableWriteWindow → Type 0
Tried now_ms true w n = (n.pending ≡ false) × (n.writes ≡ u32 (w.writes + 1))
Tried now_ms false w n = (n.pending ≡ true) × (n.writes ≡ w.writes) × (n.first_request_ms ≡ now_ms)

-- A pass at a clock, of a change that has waited since `t` and settled since `q`.
pub record IsServed (plan : SlotPlan) (dwell : DwellPhase) (clock_ms now_ms : ℕ) (persisted : Bool)
    (t q : ℕ) (w n : DurableWriteWindow) : Type 0 where
  pub served :
      (Tried now_ms persisted w n
        × ((3000 ≤ sub32 clock_ms t)
            ⊎ ((placeable plan dwell clock_ms ≡ true) × (750 ≤ sub32 clock_ms q))))
      ⊎ ((n ≡ w)
          × (sub32 clock_ms t < 3000)
          × ((placeable plan dwell clock_ms ≡ false) ⊎ (sub32 clock_ms q < 750)))
  pub forced_only :
      (n.forced_writes ≡ w.forced_writes)
      ⊎ ((placeable plan dwell clock_ms ≡ false) × (3000 ≤ sub32 clock_ms t))

drain-IsServed :
    (plan : SlotPlan) (dwell : DwellPhase) (clock_ms now_ms : ℕ) (persisted : Bool)
    (w : DurableWriteWindow)
    → w.pending ≡ true
    → IsServed plan dwell clock_ms now_ms persisted w.first_request_ms w.last_request_ms w
        (drain true plan dwell clock_ms now_ms persisted w)
unfolding drain
drain-IsServed plan dwell clock_ms now_ms true w p = record {
  served = ground arith;
  forced_only = ground arith;
}
drain-IsServed plan dwell clock_ms now_ms false w p = record {
  served = ground arith;
  forced_only = ground arith;
}

-- However changes and passes interleave, a pending change waits since the latest change that found
-- nothing pending or the latest write that the store refused, and settles since the latest change or
-- refused write. A pass that power does not hold back tries the write exactly if the wait is three
-- seconds or more, or the window is free and the changes have settled for 750 ms; else it leaves
-- everything as it is. A write is counted as forced only when the three seconds are spent and no
-- window is free.
pub pending-IsServed :
    (plan : SlotPlan) (dwell : DwellPhase) (clock_ms now_ms : ℕ) (persisted : Bool)
    (es : List Event)
    → (run es).pending ≡ true
    → (t : ℕ) × (q : ℕ) × LatestAt opens t es
      × LatestAt stirs q es
      × IsServed plan dwell clock_ms now_ms persisted t q
          (run es)
          (run (passed true plan dwell clock_ms now_ms persisted ∷ es))
pending-IsServed plan dwell clock_ms now_ms persisted es p = (
  (run es).first_request_ms,
  (run es).last_request_ms,
  run-LatestAt opens (λ w. w.first_request_ms) opens-first keeps-first es p,
  run-LatestAt stirs (λ w. w.last_request_ms) stirs-last keeps-last es p,
  drain-IsServed plan dwell clock_ms now_ms persisted (run es) p,
)
