-- ===== src/Power/Shutdown/Hold.antt =====
-- The long press: what the sequencer remembers of a hold, and what a hold must have been to count.
use skyblip.Base.{
  ℕ, ◌≤◌, ◌≡◌, refl, ◌⊎◌, inl, inr, ◌∙◌, Bool, true, false, not, ◌||◌, List, [], ◌∷◌, arith, sub32,
}
use skyblip.Power.Shutdown.{
  ShutdownReason, stow, long_press, ShutdownSequencer, Event, ticked, requested, step, run, tick,
  request, going_down,
}

-- Whether a tick of the history saw the button up, or the pad untouched.
abbrev pub seen_up : List Event → Bool
seen_up [] = false
seen_up (ticked now_ms down pad ∷ es) = not down || seen_up es
seen_up (requested r now_ms ∷ es) = seen_up es

abbrev pub seen_untouched : List Event → Bool
seen_untouched [] = false
seen_untouched (ticked now_ms down pad ∷ es) = not pad || seen_untouched es
seen_untouched (requested r now_ms ∷ es) = seen_untouched es

-- Every tick of the history, back to and with one at time `t`, saw the button down.
abbrev pub HeldSince : ℕ → List Event → Type 0
HeldSince t [] = ⊥
HeldSince t (ticked now_ms down pad ∷ es) = (down ≡ true) × ((now_ms ≡ t) ⊎ HeldSince t es)
HeldSince t (requested r now_ms ∷ es) = HeldSince t es

-- The same, with the pad touched throughout.
abbrev pub StowedSince : ℕ → List Event → Type 0
StowedSince t [] = ⊥
StowedSince t (ticked now_ms down pad ∷ es) =
    (down ≡ true) × (pad ≡ true) × ((now_ms ≡ t) ⊎ StowedSince t es)
StowedSince t (requested r now_ms ∷ es) = StowedSince t es

-- What a running sequencer remembers is true of the ticks that it has seen.
record Remembers (es : List Event) (s : ShutdownSequencer) : Type 0 where
  armed : s.hold_armed ≡ seen_up es
  pad : s.pad_armed ≡ seen_untouched es
  held : s.holding ≡ true → HeldSince s.hold_since_ms es
  stowed :
      s.holding ≡ true
      → s.stowing ≡ true
      → StowedSince s.hold_since_ms es × (seen_untouched es ≡ true)

running_before :
    (e : Event) (s : ShutdownSequencer) → going_down (step e s) ≡ false → going_down s ≡ false
unfolding tick request
running_before (ticked now_ms down pad) s h = ground arith
running_before (requested r now_ms) s h = ground arith

tick-Remembers :
    (now_ms : ℕ) (down pad : Bool) (es : List Event) (s : ShutdownSequencer)
    → going_down (tick now_ms down pad s) ≡ false
    → Remembers es s
    → Remembers (ticked now_ms down pad ∷ es) (tick now_ms down pad s)
unfolding tick
tick-Remembers now_ms down pad es s h r = ground arith

requested-Remembers :
    (reason : ShutdownReason) (now_ms : ℕ) (es : List Event) (s : ShutdownSequencer)
    → going_down (request reason now_ms s) ≡ false
    → Remembers es s
    → Remembers (requested reason now_ms ∷ es) (request reason now_ms s)
unfolding request
requested-Remembers reason now_ms es s h r = ground arith

run-Remembers : (es : List Event) → going_down (run es) ≡ false → Remembers es (run es)
run-Remembers [] h = record { armed = refl; pad = refl; held = λ e. cc; stowed = λ e f. cc }
run-Remembers (ticked now_ms down pad ∷ es) h =
    tick-Remembers now_ms down pad es (run es) h
      (run-Remembers es (running_before (ticked now_ms down pad) (run es) h))
run-Remembers (requested r now_ms ∷ es) h =
    requested-Remembers r now_ms es (run es) h
      (run-Remembers es (running_before (requested r now_ms) (run es) h))

-- What a tick that takes the device down stands on.
pub record WasHeld (now_ms : ℕ) (down pad : Bool) (es : List Event) (reason : ShutdownReason)
    (t : ℕ) : Type 0 where
  pub still_down : down ≡ true
  pub armed : seen_up es ≡ true
  pub held : HeldSince t es
  pub long_enough : 2000 ≤ sub32 now_ms t
  pub stowed :
      (reason ≡ long_press)
      ⊎ ((reason ≡ stow) × (pad ≡ true) × StowedSince t es × (seen_untouched es ≡ true))

tick-WasHeld :
    (now_ms : ℕ) (down pad : Bool) (es : List Event) (s : ShutdownSequencer)
    → Remembers es s
    → going_down s ≡ false
    → going_down (tick now_ms down pad s) ≡ true
    → WasHeld now_ms down pad es (tick now_ms down pad s).reason s.hold_since_ms
unfolding tick
tick-WasHeld now_ms down pad es s r h k = ground arith

-- A running device that a tick takes down was held: the button is down at that tick, it was seen up
-- since the device woke, and every tick since one at least two seconds back saw it down. The reason
-- is a stow only if the pad was touched throughout and had been seen untouched before.
pub tick_down-WasHeld :
    (now_ms : ℕ) (down pad : Bool) (es : List Event)
    → going_down (run es) ≡ false
    → going_down (run (ticked now_ms down pad ∷ es)) ≡ true
    → (t : ℕ) × WasHeld now_ms down pad es (run (ticked now_ms down pad ∷ es)).reason t
tick_down-WasHeld now_ms down pad es h k =
    ((run es).hold_since_ms, tick-WasHeld now_ms down pad es (run es) (run-Remembers es h) h k)

-- The newest tick saw the button up.
abbrev pub just_up : List Event → Bool
just_up [] = false
just_up (ticked now_ms down pad ∷ es) = not down
just_up (requested r now_ms ∷ es) = just_up es

-- The hold under way began at time `t`: every tick since saw the button down, the one before it up.
abbrev pub HoldFrom : ℕ → List Event → Type 0
HoldFrom t [] = ⊥
HoldFrom t (ticked now_ms down pad ∷ es) =
    (down ≡ true) × (((now_ms ≡ t) × (just_up es ≡ true)) ⊎ HoldFrom t es)
HoldFrom t (requested r now_ms ∷ es) = HoldFrom t es

just_up-holding :
    (es : List Event) → going_down (run es) ≡ false → just_up es ≡ true → (run es).holding ≡ false
unfolding tick request
just_up-holding [] h u = refl
just_up-holding (ticked now_ms down pad ∷ es) h u = ground arith
just_up-holding (requested r now_ms ∷ es) h u = ground (arith, just_up-holding es)

just_up-seen_up : (es : List Event) → just_up es ≡ true → seen_up es ≡ true
just_up-seen_up [] u = u
just_up-seen_up (ticked now_ms down pad ∷ es) u = ground arith
just_up-seen_up (requested r now_ms ∷ es) u = just_up-seen_up es u

HoldFrom-seen_up : (t : ℕ) (es : List Event) → HoldFrom t es → seen_up es ≡ true
HoldFrom-seen_up t [] f = absurd f
HoldFrom-seen_up t (ticked now_ms down pad ∷ es) f =
    ground (arith, HoldFrom-seen_up t es, just_up-seen_up es)
HoldFrom-seen_up t (requested r now_ms ∷ es) f = HoldFrom-seen_up t es f

IsHolding : ℕ → ShutdownSequencer → Type 0
IsHolding t s = (s.holding ≡ true) × (s.hold_since_ms ≡ t)

tick-IsHolding :
    (t now_ms : ℕ) (down pad : Bool) (s : ShutdownSequencer)
    → going_down (tick now_ms down pad s) ≡ false
    → down ≡ true
    → ((now_ms ≡ t) × (s.holding ≡ false)) ⊎ IsHolding t s
    → IsHolding t (tick now_ms down pad s)
unfolding IsHolding tick
tick-IsHolding t now_ms down pad s h d c = ground arith

request-IsHolding :
    (t now_ms : ℕ) (r : ShutdownReason) (s : ShutdownSequencer)
    → going_down (request r now_ms s) ≡ false
    → IsHolding t s
    → IsHolding t (request r now_ms s)
unfolding IsHolding request
request-IsHolding t now_ms r s h c = ground arith

run-IsHolding :
    (t : ℕ) (es : List Event) → going_down (run es) ≡ false → HoldFrom t es → IsHolding t (run es)
run-IsHolding t [] h f = absurd f
run-IsHolding t (ticked now_ms down pad ∷ es) h (d, inl (e, u)) =
    let before = running_before (ticked now_ms down pad) (run es) h in
    tick-IsHolding t now_ms down pad (run es) h d (inl (e, just_up-holding es before u))
run-IsHolding t (ticked now_ms down pad ∷ es) h (d, inr f) =
    let before = running_before (ticked now_ms down pad) (run es) h in
    tick-IsHolding t now_ms down pad (run es) h d (inr (run-IsHolding t es before f))
run-IsHolding t (requested r now_ms ∷ es) h f =
    request-IsHolding t now_ms r (run es) h
      (run-IsHolding t es (running_before (requested r now_ms) (run es) h) f)

tick_held_down :
    (t now_ms : ℕ) (pad : Bool) (s : ShutdownSequencer)
    → IsHolding t s
    → s.hold_armed ≡ true
    → 2000 ≤ sub32 now_ms t
    → going_down (tick now_ms true pad s) ≡ true
unfolding IsHolding tick
tick_held_down t now_ms pad s h a e = ground arith

-- A running device whose button was pressed at time `t`, after a tick that saw it up, and held at
-- every tick since is taken down by the first tick at least two seconds later that sees it held.
pub hold-going_down :
    (t now_ms : ℕ) (pad : Bool) (es : List Event)
    → going_down (run es) ≡ false
    → HoldFrom t es
    → 2000 ≤ sub32 now_ms t
    → going_down (run (ticked now_ms true pad ∷ es)) ≡ true
hold-going_down t now_ms pad es h f e =
    tick_held_down t now_ms pad (run es) (run-IsHolding t es h f)
      ((run-Remembers es h).armed ∙ HoldFrom-seen_up t es f) e
