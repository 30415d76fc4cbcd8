-- ===== src/Power/Shutdown/Release.antt =====
-- The way out after parking: when the last phase may be entered.
use skyblip.Base.{
  ℕ, ◌≤◌, ◌≡◌, refl, ◌⊎◌, inl, inr, ◌≢◌, ◌↔◌, sym, subst, Bool, true, false, List, [], ◌∷◌, arith,
  sub32,
}
use skyblip.Power.Shutdown.{
  running, parking, await_release, off, ShutdownSequencer, Event, ticked, requested, step, run,
  tick, request, going_down,
}

-- Every tick of the history, back to and with one at time `t`, saw the button up.
abbrev pub UpSince : ℕ → List Event → Type 0
UpSince t [] = ⊥
UpSince t (ticked now_ms down pad ∷ es) = (down ≡ false) × ((now_ms ≡ t) ⊎ UpSince t es)
UpSince t (requested r now_ms ∷ es) = UpSince t es

abbrev pub time_of : Event → ℕ
time_of (ticked now_ms down pad) = now_ms
time_of (requested r now_ms) = now_ms

-- The event that took the device from running to parking stood at time `t`.
abbrev pub BeganAt : ℕ → List Event → Type 0
BeganAt t [] = ⊥
BeganAt t (e ∷ es) =
    ((time_of e ≡ t) × (going_down (run es) ≡ false) × (going_down (run (e ∷ es)) ≡ true))
    ⊎ BeganAt t es

record Follows (es : List Event) (s : ShutdownSequencer) : Type 0 where
  unreleased : s.phase ≡ parking → s.release.released ≡ false
  released :
      s.phase ≡ await_release → s.release.released ≡ true → UpSince s.release.released_at_ms es

step-Follows :
    (e : Event) (es : List Event) (s : ShutdownSequencer)
    → Follows es s
    → Follows (e ∷ es) (step e s)
unfolding tick request
step-Follows (ticked now_ms down pad) es s f = ground arith
step-Follows (requested r now_ms) es s f = ground arith

run-Follows : (es : List Event) → Follows es (run es)
run-Follows [] = record { unreleased = λ e. refl; released = λ e f. cc }
run-Follows (e ∷ es) = step-Follows e es (run es) (run-Follows es)

-- Parking is entered from running, at the time of the event, and keeps that time.
step_parking :
    (e : Event) (s : ShutdownSequencer)
    → (step e s).phase ≡ parking
    → ((s.phase ≡ running) × ((step e s).phase_since_ms ≡ time_of e))
      ⊎ ((s.phase ≡ parking) × ((step e s).phase_since_ms ≡ s.phase_since_ms))
unfolding tick request
step_parking (ticked now_ms down pad) s h = ground arith
step_parking (requested r now_ms) s h = ground arith

parking-BeganAt : (es : List Event) → (run es).phase ≡ parking → BeganAt (run es).phase_since_ms es
parking-BeganAt [] h = cc
parking-BeganAt (e ∷ es) h = elim (step_parking e (run es) h) [
  | inl (before, time) ↦ inl (sym time, rw (before, going_down) refl, rw (h, going_down) refl)
  | inr (before, time) ↦ inr (subst (λ t. BeganAt t es) (sym time) (parking-BeganAt es before))
]

tick_settled :
    (now_ms : ℕ) (down pad : Bool) (s : ShutdownSequencer)
    → s.phase ≡ parking
    → ((tick now_ms down pad s).phase ≡ await_release) ↔ (3000 ≤ sub32 now_ms s.phase_since_ms)
unfolding tick
tick_settled now_ms down pad s h = ground arith

-- A parking device goes on to wait for the button exactly at a tick that stands three seconds or
-- more after the event that took it out of running.
pub parking-settled :
    (now_ms : ℕ) (down pad : Bool) (es : List Event)
    → (run es).phase ≡ parking
    → (t : ℕ) × BeganAt t es
      × (((run (ticked now_ms down pad ∷ es)).phase ≡ await_release) ↔ (3000 ≤ sub32 now_ms t))
parking-settled now_ms down pad es h =
    ((run es).phase_since_ms, parking-BeganAt es h, tick_settled now_ms down pad (run es) h)

tick_off :
    (e : Event) (s : ShutdownSequencer)
    → s.phase ≢ off
    → (step e s).phase ≡ off
    → (s.phase ≡ await_release)
      × (s.release.released ≡ true)
      × (100 ≤ sub32 (time_of e) s.release.released_at_ms)
unfolding tick request
tick_off (ticked now_ms down pad) s h k = ground arith
tick_off (requested r now_ms) s h k = ground arith

-- The event that reaches Off is a tick that saw the button up.
off-up :
    (e : Event) (es : List Event) (s : ShutdownSequencer) (t : ℕ)
    → s.phase ≢ off
    → (step e s).phase ≡ off
    → UpSince t es
    → UpSince t (e ∷ es)
unfolding tick request
off-up (ticked now_ms down pad) es s t h k up = (ground arith, inr up)
off-up (requested r now_ms) es s t h k up = up

-- The rails may drop only once the button is really up: the event that reaches Off stands at least
-- 100 ms after a tick since which every tick of the history, with that event itself, saw the button
-- up.
pub off-UpSince :
    (e : Event) (es : List Event)
    → (run es).phase ≢ off
    → (run (e ∷ es)).phase ≡ off
    → (t : ℕ) × UpSince t (e ∷ es) × (100 ≤ sub32 (time_of e) t)
off-UpSince e es h k =
    let (waiting, up, long) = tick_off e (run es) h k in
    let t = (run es).release.released_at_ms in
    (t, off-up e es (run es) t h k ((run-Follows es).released waiting up), long)
