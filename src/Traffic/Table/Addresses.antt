-- ===== src/Traffic/Table/Addresses.antt =====
-- One slot for an address, and none for own-ship's.
use skyblip.Base.{
  ℕ, ◌<◌, ◌≡◌, ◌≢◌, ◌⊎◌, inl, inr, refl, ◌∙◌, sym, Bool, true, false, ◌&&◌, ◌==◌, Option, none,
  some, arith, Bool-cases,
}
use skyblip.Base.Int.{ℤ}
use skyblip.Base.Scans.{write, first-some, first-none}
use skyblip.Traffic.Table.{
  Observation, Target, TrafficTable, Plausibility, too_far, no_reference, believable, checked,
  holds, find, is_own, prefer_new, refreshed, entered, refresh, place, settle, admit, update,
  age_out, clear, allocate_slot,
}

-- Two reports of one aircraft.
abbrev pub same : {Rest : Type 0} → Observation Rest → Observation Rest → Bool
same a b = (a.address == b.address) && (a.address_mapping_table == b.address_mapping_table)

same_comm : {Rest : Type 0} (a b : Observation Rest) → same a b ≡ same b a
same_comm a b = ground arith

-- The report's address is that of the target.
other_than :
    {Rest : Type 0} (a p o : Observation Rest)
    → same a p ≡ false
    → p.address ≡ o.address
    → p.address_mapping_table ≡ o.address_mapping_table
    → same a o ≡ false
other_than a p o differ e f = rw (sym e, sym f) differ

held :
    {Rest : Type 0} (slots : ℕ → Target Rest) (m address i : ℕ)
    → holds slots m address i ≡ true
    → ((slots i).used ≡ true)
      × ((slots i).observation.address ≡ address)
      × ((slots i).observation.address_mapping_table ≡ m)
held slots m address i h = ground (arith, h)

module _ {Own Rest : Type 0} where
  -- No aircraft stands in two slots, and own-ship in none.
  pub record IsTable (t : TrafficTable Own Rest) : Type 0 where
    pub distinct :
        (i j : ℕ)
        → i < 48
        → j < 48
        → i ≢ j
        → (t.slots i).used ≡ true
        → (t.slots j).used ≡ true
        → same (t.slots i).observation (t.slots j).observation ≡ false
    pub filtered :
        (i : ℕ) → i < 48 → (t.slots i).used ≡ true → is_own t (t.slots i).observation ≡ false

  written_distinct :
      (t : TrafficTable Own Rest) (i : ℕ) (v : Target Rest)
      → IsTable t
      → ((j : ℕ)
          → j < 48
          → j ≢ i
          → (t.slots j).used ≡ true
          → same (t.slots j).observation v.observation ≡ false)
      → (a b : ℕ) → a < 48
      → b < 48
      → a ≢ b
      → (write t.slots i v a).used ≡ true
      → (write t.slots i v b).used ≡ true
      → ((i == a) ≡ true) ⊎ ((i == a) ≡ false)
      → ((i == b) ≡ true) ⊎ ((i == b) ≡ false)
      → same (write t.slots i v a).observation (write t.slots i v b).observation ≡ false
  written_distinct t i v table alone a b ha hb ne ua ub (inl ea) (inl eb) = absurd (ground arith)
  written_distinct t i v table alone a b ha hb ne ua ub (inl ea) (inr eb) =
      rw (ea, eb)
        (same_comm v.observation (t.slots b).observation
          ∙ alone b hb (ground arith) (sym (rw eb refl) ∙ ub))
  written_distinct t i v table alone a b ha hb ne ua ub (inr ea) (inl eb) =
      rw (ea, eb) (alone a ha (ground arith) (sym (rw ea refl) ∙ ua))
  written_distinct t i v table alone a b ha hb ne ua ub (inr ea) (inr eb) =
      rw (ea, eb) (table.distinct a b ha hb ne (sym (rw ea refl) ∙ ua) (sym (rw eb refl) ∙ ub))

  written_filtered :
      (t : TrafficTable Own Rest) (i : ℕ) (v : Target Rest)
      → IsTable t
      → is_own t v.observation ≡ false
      → (a : ℕ) → a < 48
      → (write t.slots i v a).used ≡ true
      → ((i == a) ≡ true) ⊎ ((i == a) ≡ false)
      → is_own t (write t.slots i v a).observation ≡ false
  written_filtered t i v table foreign a ha ua (inl ea) = rw ea foreign
  written_filtered t i v table foreign a ha ua (inr ea) =
      rw ea (table.filtered a ha (sym (rw ea refl) ∙ ua))

  -- A slot may be written for a report that no other slot holds.
  write-IsTable :
      (t : TrafficTable Own Rest) (i : ℕ) (v : Target Rest)
      → IsTable t
      → ((j : ℕ)
          → j < 48
          → j ≢ i
          → (t.slots j).used ≡ true
          → same (t.slots j).observation v.observation ≡ false)
      → is_own t v.observation ≡ false
      → IsTable (record t { slots = write t.slots i v })
  write-IsTable t i v table alone foreign = record {
    distinct = λ a b ha hb ne ua ub.
        written_distinct t i v table alone a b ha hb ne ua ub (Bool-cases (i == a))
          (Bool-cases (i == b));
    filtered = λ a ha ua. written_filtered t i v table foreign a ha ua (Bool-cases (i == a));
  }

  age_out-IsTable : (now_s : ℕ) (t : TrafficTable Own Rest) → IsTable t → IsTable (age_out now_s t)
  age_out-IsTable now_s t table = record {
    distinct = λ a b ha hb ua ub same. ground (arith, table.distinct a b);
    filtered = λ a ha ua. ground (arith, table.filtered a);
  }

  pub clear-IsTable : (t : TrafficTable Own Rest) → IsTable (clear t)
  clear-IsTable t = record {
    distinct = λ a b ha hb ne ua ub. absurd (ground arith);
    filtered = λ a ha ua. absurd (ground arith);
  }

module _ {Own Rest : Type 0} (range_check : Own → Observation Rest → Plausibility × ℕ)
    (turn_rate_dps : ℕ → ℕ → ℕ → ℤ) where
  -- The slot that is found, or else given, may be written for the report.
  alone_found :
      (t : TrafficTable Own Rest) (o : Observation Rest) (i : ℕ)
      → IsTable t
      → find t.slots o.address_mapping_table o.address ≡ some i
      → (j : ℕ) → j < 48
      → j ≢ i
      → (t.slots j).used ≡ true
      → same (t.slots j).observation o ≡ false
  alone_found t o i table e j hj ne u =
      let found = first-some (holds t.slots o.address_mapping_table o.address) 48 i e in
      let at = held t.slots o.address_mapping_table o.address i found.1 in
      other_than (t.slots j).observation (t.slots i).observation o
        (table.distinct j i hj found.0 ne u at.0) at.1 at.2

  alone_new :
      (t : TrafficTable Own Rest) (o : Observation Rest) (i : ℕ)
      → find t.slots o.address_mapping_table o.address ≡ none
      → (j : ℕ) → j < 48
      → j ≢ i
      → (t.slots j).used ≡ true
      → same (t.slots j).observation o ≡ false
  alone_new t o i e j hj ne u =
      ground (arith, first-none (holds t.slots o.address_mapping_table o.address) 48 j e hj)

  place-IsTable :
      (o : Observation Rest) (t : TrafficTable Own Rest) (room : Option ℕ)
      → IsTable t
      → is_own t o ≡ false
      → find t.slots o.address_mapping_table o.address ≡ none
      → IsTable (place turn_rate_dps o t room).0
  place-IsTable o t none table foreign e = table
  place-IsTable o t (some i) table foreign e =
      write-IsTable t i (entered turn_rate_dps o) table (alone_new t o i e) foreign

  refresh-IsTable :
      (o : Observation Rest) (t : TrafficTable Own Rest) (i : ℕ)
      → IsTable t
      → is_own t o ≡ false
      → find t.slots o.address_mapping_table o.address ≡ some i
      → IsTable (refresh turn_rate_dps o t i).0
  refresh-IsTable o t i table foreign e = elim (Bool-cases (prefer_new o (t.slots i).observation)) [
    | inl newer ↦ simp newer (
        write-IsTable t i (refreshed turn_rate_dps (t.slots i) o) table (alone_found t o i table e)
          foreign)
    | inr old ↦ simp old table
  ]

  settle-IsTable :
      (o : Observation Rest) (t : TrafficTable Own Rest) (found room : Option ℕ)
      → IsTable t
      → is_own t o ≡ false
      → find t.slots o.address_mapping_table o.address ≡ found
      → IsTable (settle turn_rate_dps o t found room).0
  settle-IsTable o t (some i) room table foreign e = refresh-IsTable o t i table foreign e
  settle-IsTable o t none room table foreign e = place-IsTable o t room table foreign e

  admit-IsTable :
      (o : Observation Rest) (now_s : ℕ) (t : TrafficTable Own Rest)
      → IsTable t
      → is_own t o ≡ false
      → IsTable (admit range_check turn_rate_dps o now_s t).0
  unfolding admit
  admit-IsTable o now_s t table foreign =
      settle-IsTable o t (find t.slots o.address_mapping_table o.address)
        (allocate_slot range_check t o now_s) table foreign refl

  checked-IsTable :
      (o : Observation Rest) (now_s : ℕ) (t : TrafficTable Own Rest) (p : Plausibility)
      → IsTable t
      → is_own t o ≡ false
      → IsTable (checked range_check turn_rate_dps o now_s t p).0
  unfolding checked
  checked-IsTable o now_s t too_far table foreign = record {
    distinct = table.distinct;
    filtered = table.filtered;
  }
  checked-IsTable o now_s t no_reference table foreign = admit-IsTable o now_s t table foreign
  checked-IsTable o now_s t believable table foreign = admit-IsTable o now_s t table foreign

-- From a well-formed table, whatever report `update` is given, whatever the range check says of it, the
-- table stays well-formed: no two slots in use hold one address under one mapping table, and none
-- holds own-ship's.
pub update-IsTable :
    {Own Rest : Type 0} (range_check : Own → Observation Rest → Plausibility × ℕ)
    (turn_rate_dps : ℕ → ℕ → ℕ → ℤ) (o : Observation Rest) (now_s : ℕ) (t : TrafficTable Own Rest)
    → IsTable t
    → IsTable (update range_check turn_rate_dps o now_s t).0
unfolding update
update-IsTable range_check turn_rate_dps o now_s t table = elim (Bool-cases (is_own t o)) [
  | inl mine ↦ simp mine table
  | inr foreign ↦
      simp foreign (
        checked-IsTable range_check turn_rate_dps o now_s t ((range_check t.own o).0) table foreign)
]
