-- ===== src/Timing/Transmit/Rates.antt =====
-- How often bursts leave: never twice in a second, in turn on the two slots, one in ten grounded.
use skyblip.Base.{
  ℕ, ◌+◌, ◌%◌, ◌/◌, ◌≡◌, ◌≢◌, refl, ◌∙◌, sym, ap, inl, inr, Bool, true, false, arith, bit_and-one,
  ◌==◌, if◌then◌else◌, Bool-cases,
}
use skyblip.Base.Int.{ℤ}
use skyblip.Timing.Slot.{SlotPlan}
use skyblip.Timing.Transmit.{
  Transmitter, Payload, position, callsign, attempt, sent, due, no_attempt, ground_second, hash,
}
use skyblip.Timing.Transmit.Instants.{go-tests}

-- After a burst, its payload is no longer due in its second.
not_due :
    (t : Transmitter) (p : SlotPlan) (utc_s sent_ms : ℕ) (airborne : Bool) (fix : ℤ)
    (payload : Payload)
    → due (sent utc_s sent_ms payload t) p utc_s airborne fix payload ≡ false
unfolding sent
not_due t p utc_s sent_ms airborne fix position = ground arith
not_due t p utc_s sent_ms airborne fix callsign = ground arith

-- Once a burst of a payload has left in a second, no attempt at that payload is made in the same
-- second again, on any plan: it neither goes nor is refused for the budget.
pub attempt-sent :
    (t : Transmitter) (p : SlotPlan) (utc_s sent_ms now_ms : ℕ) (airborne : Bool) (fix : ℤ)
    (payload : Payload)
    → attempt (sent utc_s sent_ms payload t) p utc_s now_ms airborne fix payload
      ≡ no_attempt payload
unfolding attempt
attempt-sent t p utc_s sent_ms now_ms airborne fix payload = elim (Bool-cases p.tx_allowed) [
  | inr n ↦ rw n refl
  | inl allowed ↦ rw (allowed, not_due t p utc_s sent_ms airborne fix payload) refl
]

-- The channel of a burst that goes, and its second.
position_cadence :
    (t : Transmitter) (p : SlotPlan) (utc_s now_ms : ℕ) (airborne : Bool) (fix : ℤ)
    → let a = attempt t p utc_s now_ms airborne fix position in
      a.go ≡ true
      → (airborne ≡ true → a.frequency_hz ≡ (if utc_s % 2 == 1 then 868400000 else 868200000))
        × (airborne ≡ false → utc_s % 10 ≡ ground_second t)
position_cadence t p utc_s now_ms airborne fix g =
    let (allowed, d, m, e) = go-tests t p utc_s now_ms airborne fix position g in
    rw e ((λ flying. ground (arith, bit_and-one (utc_s / 1))), (λ grounded. ground arith))

-- In flight, the position bursts of two consecutive seconds leave on the two channels in turn,
-- whatever the plans and fixes of the two attempts and the states of the transmitter.
pub attempt-alternates :
    (t u : Transmitter) (p q : SlotPlan) (utc_s now_ms later_ms : ℕ) (fix later_fix : ℤ)
    → (attempt t p utc_s now_ms true fix position).go ≡ true
    → (attempt u q (utc_s + 1) later_ms true later_fix position).go ≡ true
    → (attempt t p utc_s now_ms true fix position).frequency_hz
      ≢ (attempt u q (utc_s + 1) later_ms true later_fix position).frequency_hz
attempt-alternates t u p q utc_s now_ms later_ms fix later_fix g h =
    let first = (position_cadence t p utc_s now_ms true fix g).0 refl in
    let second = (position_cadence u q (utc_s + 1) later_ms true later_fix h).0 refl in
    λ same. ground (arith, first, second)

-- On the ground, a position burst leaves in the one second of ten that the unit's address gives,
-- and any two position bursts of one address are a multiple of ten seconds apart.
pub attempt-grounded :
    (t u : Transmitter) (p q : SlotPlan) (utc_s now_ms later_s later_ms : ℕ) (fix later_fix : ℤ)
    → u.address ≡ t.address
    → (attempt t p utc_s now_ms false fix position).go ≡ true
    → (attempt u q later_s later_ms false later_fix position).go ≡ true
    → (utc_s % 10 ≡ ground_second t) × (later_s % 10 ≡ utc_s % 10)
unfolding ground_second
attempt-grounded t u p q utc_s now_ms later_s later_ms fix later_fix same g h =
    let first = (position_cadence t p utc_s now_ms false fix g).1 refl in
    let second = (position_cadence u q later_s later_ms false later_fix h).1 refl in
    (first, second ∙ ap (λ a. hash a % 10) same ∙ sym first)
