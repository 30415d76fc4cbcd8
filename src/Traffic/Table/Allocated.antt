-- ===== src/Traffic/Table/Allocated.antt =====
-- The slot that a new aircraft is given: a free one, or that of a target without an alarm.
use skyblip.Base.{
  ℕ, zero, suc, ◌+◌, ◌≤◌, ◌<◌, ◌≡◌, inl, inr, refl, Bool, true, false, not, ◌&&◌, if◌then◌else◌,
  Option, none, some, arith, Bool-cases,
}
use skyblip.Base.Scans.{first, first-some}
use skyblip.Traffic.Table.{
  Observation, TrafficTable, Plausibility, Weight, weight_of, victim_from, allocate_slot, better,
  displaced, given,
}

module _ {Own Rest : Type 0} (range_check : Own → Observation Rest → Plausibility × ℕ) where
  -- An index inside the table, of a target without an alarm.
  abbrev IsVictim : TrafficTable Own Rest → Option (ℕ × Weight) → Type 0
  IsVictim t none = Unit
  IsVictim t (some b) = (b.0 < 48) × ((t.slots b.0).alarmed ≡ false)

  either-IsVictim :
      (t : TrafficTable Own Rest) (b : Bool) (x y : Option (ℕ × Weight))
      → IsVictim t x
      → IsVictim t y
      → IsVictim t (if b then x else y)
  either-IsVictim t true x y vx vy = vx
  either-IsVictim t false x y vx vy = vy

  victim_from-IsVictim :
      (t : TrafficTable Own Rest) (now_s i rounds : ℕ) (best : Option (ℕ × Weight))
      → i + rounds ≤ 48
      → IsVictim t best
      → IsVictim t (victim_from range_check t now_s i rounds best)
  unfolding victim_from
  victim_from-IsVictim t now_s i zero best le v = v
  victim_from-IsVictim t now_s i (suc rounds) best le v = elim (Bool-cases (t.slots i).alarmed) [
    | inl on ↦ rw on (victim_from-IsVictim t now_s (i + 1) rounds best (omega arith) v)
    | inr off ↦
        let weight = weight_of range_check t.own (t.slots i).observation now_s in
        let next = if better weight best then some (i, weight) else best in
        rw off (
          victim_from-IsVictim t now_s (i + 1) rounds next (omega arith)
            (either-IsVictim t (better weight best) (some (i, weight)) best (omega arith, off) v))
  ]

  displaced-some :
      (t : TrafficTable Own Rest) (incoming : Weight) (best : Option (ℕ × Weight)) (i : ℕ)
      → IsVictim t best
      → displaced incoming best ≡ some i
      → (i < 48) × ((t.slots i).alarmed ≡ false)
  displaced-some t incoming none i v e = ground arith
  displaced-some t incoming (some b) i v e = ground arith

  given-some :
      (t : TrafficTable Own Rest) (free : Option ℕ) (incoming : Weight) (best : Option (ℕ × Weight))
      (i : ℕ)
      → first (λ j. not (t.slots j).used) 48 ≡ free
      → IsVictim t best
      → given free incoming best ≡ some i
      → (i < 48) × (((t.slots i).used && (t.slots i).alarmed) ≡ false)
  given-some t (some j) incoming best i f v e =
      let found = first-some (λ k. not (t.slots k).used) 48 j f in ground (arith, found)
  given-some t none incoming best i f v e =
      let r = displaced-some t incoming best i v e in (r.0, ground (arith, r))

  -- The slot is inside the table, and free or of a target without an alarm.
  pub allocate_slot-some :
      (t : TrafficTable Own Rest) (o : Observation Rest) (now_s i : ℕ)
      → allocate_slot range_check t o now_s ≡ some i
      → (i < 48) × (((t.slots i).used && (t.slots i).alarmed) ≡ false)
  unfolding allocate_slot
  allocate_slot-some t o now_s i e =
      given-some t (first (λ j. not (t.slots j).used) 48) (weight_of range_check t.own o now_s)
        (victim_from range_check t now_s 0 48 none) i refl
        (victim_from-IsVictim t now_s 0 48 none (omega arith) tt) e
