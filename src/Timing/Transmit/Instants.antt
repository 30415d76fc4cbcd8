-- ===== src/Timing/Transmit/Instants.antt =====
-- Where in the second a burst lies.
use native.Mathlib.Nat.{mod-lt}
use skyblip.Base.{
  ℕ, ◌+◌, ◌-◌, ◌%◌, ◌≤◌, ◌<◌, ◌≡◌, refl, sym, ap, ◌∙◌, ◌⊎◌, inl, inr, Bool, true, ◌||◌, arith,
  bit_xor, Bool-cases,
}
use skyblip.Base.Int.{ℤ, pos, negsuc}
use skyblip.Timing.Slot.{ClockState, SlotPlan, plan, slot_of, anchored}
use skyblip.Timing.AirTime.{may_spend}
use skyblip.Timing.Transmit.{
  Transmitter, Attempt, Payload, position, callsign, attempt, attempt_owed, instant_between, hash,
  slot_in, is_slot, due, burst,
}

-- The chosen instant is one of the stretch, its ends included.
instant_between-range :
    (t : Transmitter) (first last utc_s : ℕ)
    → first ≤ last
    → (first ≤ instant_between t first last utc_s) × (instant_between t first last utc_s ≤ last)
unfolding instant_between
instant_between-range t first last utc_s le =
    let h = hash (bit_xor t.address (hash utc_s)) in
    let below : h % (last - first + 1) < last - first + 1 = mod-lt h (omega arith) in
    ground (arith, below)

-- What a burst that leaves promises about the second it leaves in.
pub record IsOnAir (plan : SlotPlan) (opens closes : ℕ) (a : Attempt) : Type 0 where
  -- With its own length and the guard, it lies in the stretch that its payload has to itself.
  pub in_stretch : (opens ≤ a.at_ms) × (a.at_ms + 5 + 2 ≤ closes)
  -- It also lies in the dwell of the plan, on the dwell's own channel.
  pub in_dwell : (plan.start_ms ≤ a.at_ms) × (a.at_ms + 5 + 2 ≤ plan.end_ms)
  pub channel : a.frequency_hz ≡ plan.frequency_hz

abbrev pub opens_of : Payload → ℕ
opens_of position = 450
opens_of callsign = 1000

abbrev pub closes_of : Payload → ℕ
closes_of position = 1000
closes_of callsign = 1200

-- An attempt goes only as the source's three tests pass.
pub go-tests :
    (t : Transmitter) (p : SlotPlan) (utc_s now_ms : ℕ) (airborne : Bool) (fix : ℤ)
    (payload : Payload)
    → (attempt t p utc_s now_ms airborne fix payload).go ≡ true
    → (p.tx_allowed ≡ true)
      × (due t p utc_s airborne fix payload ≡ true)
      × (may_spend now_ms 5 t.air ≡ true)
      × (attempt t p utc_s now_ms airborne fix payload ≡ burst t utc_s airborne payload)
unfolding attempt
go-tests t p utc_s now_ms airborne fix payload g = elim (Bool-cases p.tx_allowed) [
  | inr n ↦ absurd (ground arith)
  | inl allowed ↦ elim (Bool-cases (due t p utc_s airborne fix payload)) [
    | inr n ↦ absurd (ground arith)
    | inl d ↦ elim (Bool-cases (may_spend now_ms 5 t.air)) [
      | inr n ↦ absurd (ground arith)
      | inl m ↦ (allowed, d, m, rw (allowed, d, m) refl)
    ]
  ]
]

-- A plan's dwell in slot 0 or slot 1, by what the transmitter reads of its start.
slot_cases :
    (phase_ms : ℤ) (clock : ClockState) (slot : ℕ)
    → is_slot (slot_of (pos (plan phase_ms clock).start_ms)) slot ≡ true
    → let p = plan phase_ms clock in
      ((slot ≡ 0) × (p.start_ms ≡ 400) × (p.end_ms ≡ 798) × (p.frequency_hz ≡ 868200000))
      ⊎ ((slot ≡ 1) × (p.start_ms ≡ 800) × (p.end_ms ≡ 1200) × (p.frequency_hz ≡ 868400000))
unfolding plan slot_of
slot_cases (pos n) clock slot h = ground arith
slot_cases (negsuc n) clock slot h = ground arith

burst-IsOnAir :
    (t : Transmitter) (phase_ms : ℤ) (clock : ClockState) (utc_s : ℕ) (airborne : Bool) (fix : ℤ)
    (payload : Payload)
    → due t (plan phase_ms clock) utc_s airborne fix payload ≡ true
    → IsOnAir
        (plan phase_ms clock)
        (opens_of payload)
        (closes_of payload)
        (burst t utc_s airborne payload)
burst-IsOnAir t phase_ms clock utc_s airborne fix position d =
    elim (slot_cases phase_ms clock (slot_in utc_s airborne) (ground arith)) [
      | inl (s, from, to, hz) ↦
          let r = instant_between-range t 450 791 utc_s (omega arith) in
          rw s (record {
            in_stretch = ground (arith, r);
            in_dwell = ground (arith, r);
            channel = ground arith;
          })
      | inr (s, from, to, hz) ↦
          let r = instant_between-range t 800 993 utc_s (omega arith) in
          rw s (record {
            in_stretch = ground (arith, r);
            in_dwell = ground (arith, r);
            channel = ground arith;
          })
    ]
burst-IsOnAir t phase_ms clock utc_s airborne fix callsign d =
    elim (slot_cases phase_ms clock 1 (ground arith)) [
      | inl (s, from, to, hz) ↦ absurd (omega (arith, s))
      | inr (s, from, to, hz) ↦
          let r = instant_between-range t 1000 1193 utc_s (omega arith) in
          record {
            in_stretch = ground (arith, r);
            in_dwell = ground (arith, r);
            channel = ground arith;
          }
    ]

-- One attempt that goes, on a plan of the scheduler.
attempt-IsOnAir :
    (t : Transmitter) (phase_ms : ℤ) (clock : ClockState) (utc_s now_ms : ℕ) (airborne : Bool)
    (fix : ℤ) (payload : Payload)
    → let a = attempt t (plan phase_ms clock) utc_s now_ms airborne fix payload in
      a.go ≡ true
      → (anchored clock ≡ true)
        × (may_spend now_ms 5 t.air ≡ true)
        × IsOnAir (plan phase_ms clock) (opens_of a.payload) (closes_of a.payload) a
unfolding plan
attempt-IsOnAir t phase_ms clock utc_s now_ms airborne fix payload g =
    let (allowed, d, m, e) = go-tests t (plan phase_ms clock) utc_s now_ms airborne fix payload g in
    (ground arith, m, rw e (by_payload payload d))
  where
    by_payload :
        (x : Payload)
        → due t (plan phase_ms clock) utc_s airborne fix x ≡ true
        → IsOnAir
            (plan phase_ms clock)
            (opens_of (burst t utc_s airborne x).payload)
            (closes_of (burst t utc_s airborne x).payload)
            (burst t utc_s airborne x)
    by_payload position d = burst-IsOnAir t phase_ms clock utc_s airborne fix position d
    by_payload callsign d = burst-IsOnAir t phase_ms clock utc_s airborne fix callsign d

-- The burst that a dwell owes is one of the two attempts.
attempt_owed_cases :
    (t : Transmitter) (p : SlotPlan) (utc_s now_ms : ℕ) (airborne : Bool) (fix : ℤ)
    → (attempt_owed t p utc_s now_ms airborne fix).go ≡ true
    → (x : Payload) × (attempt_owed t p utc_s now_ms airborne fix
        ≡ attempt t p utc_s now_ms airborne fix x)
unfolding attempt_owed
attempt_owed_cases t p utc_s now_ms airborne fix g =
    let first = attempt t p utc_s now_ms airborne fix position in
    let second = attempt t p utc_s now_ms airborne fix callsign in
    elim (Bool-cases (first.go || first.over_budget)) [
      | inl f ↦ (position, rw f refl)
      | inr f ↦ elim (Bool-cases (second.go || second.over_budget)) [
        | inl s ↦ (callsign, rw (f, s) refl)
        | inr s ↦ absurd (ground arith)
      ]
    ]

-- The burst that a dwell of the scheduler's plan owes, when it goes, goes under a valid and locked
-- clock and inside the hour's air time. A position burst completes, guard included, inside the
-- direct slot, a callsign burst between 1000 and 1200 ms, and either inside the plan's dwell, on its
-- channel.
pub attempt_owed-IsOnAir :
    (t : Transmitter) (phase_ms : ℤ) (clock : ClockState) (utc_s now_ms : ℕ) (airborne : Bool)
    (fix : ℤ)
    → let a = attempt_owed t (plan phase_ms clock) utc_s now_ms airborne fix in
      a.go ≡ true
      → (anchored clock ≡ true)
        × (may_spend now_ms 5 t.air ≡ true)
        × IsOnAir (plan phase_ms clock) (opens_of a.payload) (closes_of a.payload) a
attempt_owed-IsOnAir t phase_ms clock utc_s now_ms airborne fix g =
    let (x, e) = attempt_owed_cases t (plan phase_ms clock) utc_s now_ms airborne fix g in
    rw e (attempt-IsOnAir t phase_ms clock utc_s now_ms airborne fix x (sym (ap (λ b. b.go) e) ∙ g))
