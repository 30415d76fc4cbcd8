-- ===== src/Comms/LinkSessions/Slots.antt =====
-- What a write of one slot does to the table, each session standing in one slot.
use skyblip.Base.{
  ℕ, zero, suc, ◌<◌, ◌≡◌, ◌≢◌, inl, inr, true, ◌&&◌, not, Option, none, some, arith, ◌==◌,
  if◌then◌else◌, Option-cases,
}
use skyblip.Base.Scans.{write, first-some, first-none}
use skyblip.Comms.LinkSessions.{Slot, find, slot_for}

-- No session stands in two slots.
abbrev pub IsDistinct : (ℕ → Slot) → Type 0
IsDistinct slots =
    (i j : ℕ)
    → i < 3
    → j < 3
    → (slots i).used ≡ true
    → (slots j).used ≡ true
    → (slots i).session_id ≡ (slots j).session_id
    → i ≡ j

-- The payload of a session that is up.
abbrev pub current : (ℕ → Slot) → ℕ → Option ℕ
current slots id = elim (find id slots) [ none ↦ none | some i ↦ some (slots i).payload_bytes ]

-- A slot may be written for a session: it is the session's, or no one's while no other slot is.
abbrev pub IsSlotFor : (ℕ → Slot) → ℕ → ℕ → Type 0
IsSlotFor slots i id =
    (i < 3)
    × ((slots i).used ≡ true → (slots i).session_id ≡ id)
    × ((j : ℕ) → j < 3 → j ≢ i → (slots j).used ≡ true → (slots j).session_id ≢ id)

pub find-IsSlotFor :
    (slots : ℕ → Slot) (id i : ℕ) → IsDistinct slots → find id slots ≡ some i → IsSlotFor slots i id
find-IsSlotFor slots id i d e =
    let found = first-some (λ c. (slots c).used && ((slots c).session_id == id)) 3 i e in
    (found.0, (λ u. ground arith), λ j lt ne u same. ground (arith, d j i lt found.0 u))

pub slot_for-IsSlotFor :
    (slots : ℕ → Slot) (id i : ℕ)
    → IsDistinct slots
    → slot_for id slots ≡ some i
    → IsSlotFor slots i id
slot_for-IsSlotFor slots id i d e = elim (Option-cases (find id slots)) [
  | inr (j, found) ↦ find-IsSlotFor slots id i d (ground arith)
  | inl absent ↦
      let unused = first-some (λ c. not (slots c).used) 3 i (ground arith) in
      (
        unused.0,
        (λ u. absurd (ground arith)),
        λ j lt ne u same.
            ground (
              arith,
              first-none (λ c. (slots c).used && ((slots c).session_id == id)) 3 j absent lt,
            ),
      )
]

pub write-IsDistinct :
    (slots : ℕ → Slot) (i id : ℕ) (v : Slot)
    → IsDistinct slots
    → IsSlotFor slots i id
    → v.session_id ≡ id
    → IsDistinct (write slots i v)
write-IsDistinct slots i id v d (lt, own, others) e j k hj hk uj uk same =
    ground (arith, d j k hj hk, others j hj, others k hk)

pub current-write :
    (slots : ℕ → Slot) (i id q : ℕ) (v : Slot)
    → IsSlotFor slots i id
    → v.session_id ≡ id
    → current (write slots i v) q
      ≡ (if q == id then if v.used then some v.payload_bytes else none else current slots q)
current-write slots zero id q v (lt, own, others) e = ground (arith, others 1, others 2)
current-write slots (suc zero) id q v (lt, own, others) e = ground (arith, others 0, others 2)
current-write slots (suc (suc zero)) id q v (lt, own, others) e = ground (arith, others 0, others 1)
current-write slots (suc (suc (suc i))) id q v (lt, own, others) e = absurd (omega arith)

-- Writing a slot whose session, payload and use are as they were changes no payload.
pub current-write_same :
    (slots : ℕ → Slot) (i q : ℕ) (v : Slot)
    → i < 3
    → v.used ≡ (slots i).used
    → v.session_id ≡ (slots i).session_id
    → v.payload_bytes ≡ (slots i).payload_bytes
    → current (write slots i v) q ≡ current slots q
current-write_same slots zero q v lt u e p = ground arith
current-write_same slots (suc zero) q v lt u e p = ground arith
current-write_same slots (suc (suc zero)) q v lt u e p = ground arith
current-write_same slots (suc (suc (suc i))) q v lt u e p = absurd (omega arith)

-- A session that is found stands in a used slot.
pub find-some :
    (slots : ℕ → Slot) (id i : ℕ)
    → find id slots ≡ some i
    → (i < 3) × ((slots i).used ≡ true) × ((slots i).session_id ≡ id)
find-some slots id i e =
    let found = first-some (λ c. (slots c).used && ((slots c).session_id == id)) 3 i e in
    (found.0, ground arith, ground arith)
