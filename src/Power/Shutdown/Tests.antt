-- ===== src/Power/Shutdown/Tests.antt =====
-- Presses, releases and requests that can be followed in the source.
use skyblip.Base.{ℕ, ◌≤◌, ◌≡◌, refl, ◌↔◌, inl, true, false, List, [], ◌∷◌, arith, sub32}
use skyblip.Power.Shutdown.{
  low_battery, long_press, await_release, Event, ticked, requested, run, tick, request, going_down,
}
use skyblip.Power.Shutdown.Hold.{WasHeld, tick_down-WasHeld, hold-going_down}
use skyblip.Power.Shutdown.Release.{BeganAt, UpSince, parking-settled, off-UpSince}

-- The button goes down at 10 ms after a tick that saw it up.
abbrev pressed : List Event
pressed = ticked 10 true false ∷ ticked 0 false false ∷ []

held_down : (run (ticked 2010 true false ∷ pressed)).reason ≡ long_press
unfolding tick
held_down = refl

short : going_down (run (ticked 2009 true false ∷ pressed)) ≡ false
unfolding tick
short = refl

-- A device that wakes with the button down is not taken down by it.
woken_pressed : going_down (run (ticked 9000 true false ∷ ticked 0 true false ∷ [])) ≡ false
unfolding tick
woken_pressed = refl

-- A hold across the wrap of the millisecond clock.
wrapped :
    going_down (
      run (
        ticked 1000 true true ∷ ticked 0xffff_fc00 true true ∷ ticked 0xffff_fb00 false false ∷ []))
    ≡ true
unfolding tick
wrapped = refl

tick_down-WasHeld_example :
    (t : ℕ) × WasHeld 2010 true false pressed (run (ticked 2010 true false ∷ pressed)).reason t
unfolding tick
tick_down-WasHeld_example = tick_down-WasHeld 2010 true false pressed refl refl

hold-going_down_example : going_down (run (ticked 2500 true false ∷ pressed)) ≡ true
unfolding tick
hold-going_down_example =
    hold-going_down 10 2500 false pressed refl (refl, inl (refl, refl)) (omega arith)

abbrev asked : List Event
asked = requested low_battery 50 ∷ []

parking-settled_example :
    (t : ℕ) × BeganAt t asked
    × (((run (ticked 3050 false false ∷ asked)).phase ≡ await_release) ↔ (3000 ≤ sub32 3050 t))
unfolding request
parking-settled_example = parking-settled 3050 false false asked refl

abbrev released : List Event
released = ticked 3060 false false ∷ ticked 3050 false false ∷ asked

off-UpSince_example :
    (t : ℕ) × UpSince t (ticked 3160 false false ∷ released) × (100 ≤ sub32 3160 t)
unfolding tick request
off-UpSince_example = off-UpSince (ticked 3160 false false) released (ground arith) refl
