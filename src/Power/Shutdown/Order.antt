-- ===== src/Power/Shutdown/Order.antt =====
-- The trace that `power_down` leaves on a sink that records what it is told.
use skyblip.Base.{◌≡◌, refl, ◌∙◌, sym, List, [], ◌∷◌, ◌++◌, some, get_elem?, length}
use skyblip.Power.Shutdown.{
  PowerDownStep, radio_sleep, power_down_order, step_code, perform_all, power_down,
}
use mathlib.Core.List.{append_assoc, append-nil}

abbrev pub log : PowerDownStep → List PowerDownStep → List PowerDownStep
log step trace = trace ++ step ∷ []

perform_all-log : (steps trace : List PowerDownStep) → perform_all log steps trace ≡ trace ++ steps
unfolding perform_all
perform_all-log [] trace = sym (append-nil trace)
perform_all-log (s ∷ steps) trace =
    perform_all-log steps (trace ++ s ∷ []) ∙ append_assoc trace (s ∷ []) steps

order_place : (p : PowerDownStep) → get_elem? power_down_order (step_code p) ≡ some p
order_place radio_sleep = refl
order_place _ = refl

-- Any sink is driven through exactly the eleven steps, each once: a recording sink that starts
-- empty ends with a trace of length eleven in which every step stands at its own place of the order.
pub power_down-log :
    (p : PowerDownStep)
    → (get_elem? (power_down log []) (step_code p) ≡ some p) × (length (power_down log []) ≡ 11)
unfolding power_down perform_all
power_down-log p = (order_place p, refl)
