-- ===== src/Power/Shutdown/Phases.antt =====
-- The phases only advance, and the first reason stands.
use skyblip.Base.{ℕ, ◌+◌, ◌≤◌, ◌≡◌, refl, ◌∙◌, true, not, List, [], ◌∷◌, ◌++◌, arith}
use skyblip.Power.Shutdown.{
  ShutdownPhase, running, parking, await_release, off, ShutdownSequencer, Event, ticked, requested,
  step, run, tick, request, going_down, is_none,
}

abbrev pub phase_rank : ShutdownPhase → ℕ
phase_rank running = 0
phase_rank parking = 1
phase_rank await_release = 2
phase_rank off = 3

-- One event, from any state: the phase stays or moves on by one, and once the device is going down
-- its reason stands.
pub record Advances (s t : ShutdownSequencer) : Type 0 where
  pub forward : phase_rank s.phase ≤ phase_rank t.phase
  pub by_one : phase_rank t.phase ≤ phase_rank s.phase + 1
  pub reason_kept : going_down s ≡ true → t.reason ≡ s.reason

pub step-Advances : (e : Event) (s : ShutdownSequencer) → Advances s (step e s)
unfolding tick request
step-Advances (ticked now_ms down pad) s = ground arith
step-Advances (requested r now_ms) s = ground arith

IsReasoned : ShutdownSequencer → Type 0
IsReasoned s = going_down s ≡ not (is_none s.reason)

step-IsReasoned : (e : Event) (s : ShutdownSequencer) → IsReasoned s → IsReasoned (step e s)
unfolding IsReasoned tick request
step-IsReasoned (ticked now_ms down pad) s h = ground arith
step-IsReasoned (requested r now_ms) s h = ground arith

run-IsReasoned : (es : List Event) → IsReasoned (run es)
unfolding IsReasoned
run-IsReasoned [] = refl
run-IsReasoned (e ∷ es) = step-IsReasoned e (run es) (run-IsReasoned es)

going_down_later :
    (s t : ShutdownSequencer) → Advances s t → going_down s ≡ true → going_down t ≡ true
going_down_later s t a h = ground (arith, a.forward)

-- Over any history of ticks and requests: the device is going down exactly when it has a reason,
-- no event takes a phase back, and the reason it went down for at first is the one reported later.
pub run-reason :
    (es later : List Event)
    → (going_down (run es) ≡ not (is_none (run es).reason))
      × (phase_rank (run es).phase ≤ phase_rank (run (later ++ es)).phase)
      × (going_down (run es) ≡ true → (run (later ++ es)).reason ≡ (run es).reason)
run-reason es later = (unfold IsReasoned in run-IsReasoned es, go later, kept later)
  where
    go : (later : List Event) → phase_rank (run es).phase ≤ phase_rank (run (later ++ es)).phase
    go [] = omega arith
    go (e ∷ later) = omega (arith, go later, (step-Advances e (run (later ++ es))).forward)

    down : (later : List Event) → going_down (run es) ≡ true → going_down (run (later ++ es)) ≡ true
    down [] h = h
    down (e ∷ later) h =
        going_down_later (run (later ++ es)) (run (e ∷ later ++ es))
          (step-Advances e (run (later ++ es))) (down later h)

    kept :
        (later : List Event)
        → going_down (run es) ≡ true
        → (run (later ++ es)).reason ≡ (run es).reason
    kept [] h = refl
    kept (e ∷ later) h =
        (step-Advances e (run (later ++ es))).reason_kept (down later h) ∙ kept later h
