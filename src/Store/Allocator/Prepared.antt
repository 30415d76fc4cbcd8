-- ===== src/Store/Allocator/Prepared.antt =====
-- Preparing a spare, and the other ways in which the state changes: the invariant over any history.
use skyblip.Base.{
  ℕ, ◌+◌, ◌^◌, ◌<◌, ◌≡◌, ◌≢◌, refl, sym, subst, ◌⊎◌, inl, inr, true, false, not, ◌||◌, none, some,
  arith, Bool-cases, Option-cases,
}
use skyblip.Store.Sector.{SectorOwner, SectorHeader}
use skyblip.Store.Allocator.{
  SectorAllocator, Claim, Spare, no_claim, free, update, ring_of, configured, is_none, configure,
}
use skyblip.Store.Allocator.Search.{choose}
use skyblip.Store.Allocator.Moves.{
  note_taken, vacate, prepare, reserve, grant_spare, claim, note_sector, quarantine, release,
  note_erased,
}
use skyblip.Store.Allocator.Choice.{choose-Comes}
use skyblip.Store.Allocator.WellFormed.{
  IsWellFormed, IsUnreserved, in_ring, vacate-IsWellFormed, spares-IsWellFormed,
  configure-IsWellFormed, note_sector-IsWellFormed, quarantine-IsWellFormed, release-IsWellFormed,
  note_erased-IsWellFormed,
}
use skyblip.Store.Allocator.Claims.{
  note_taken_lem, note_taken-IsWellFormed, chosen, claim-IsWellFormed,
}

reserve-IsWellFormed :
    (s : ℕ) (owner : SectorOwner) (a : SectorAllocator)
    → s < a.sector_count
    → IsUnreserved a s
    → IsWellFormed a
    → IsWellFormed (reserve s owner a)
reserve-IsWellFormed s owner a lt u w =
    let n = note_taken s a in
    let spare : Spare = record (n.spares (ring_of owner)) { sector = s; reserved = true } in
    let empty = vacate-IsWellFormed s free n refl (inl refl) (note_taken-IsWellFormed s a w) in
    let at : update n.owner_of s free s ≡ 0 = ground arith in
    spares-IsWellFormed owner spare (vacate s free n)
      (λ _. (rw (note_taken_lem s a) lt, at, rw (note_taken_lem s a) u)) (λ _. refl) empty

-- The branches of `prepare`.
pub prepare_cases {ℓ} :
    (P : SectorAllocator × Claim → Type ℓ) (owner : SectorOwner) (a : SectorAllocator)
    → P (a, no_claim)
    → P (a, grant_spare (a.spares (ring_of owner)).sector)
    → ((s : ℕ)
        → 0 < a.sector_count
        → choose a owner ≡ some s
        → P (reserve s owner a, grant_spare s))
    → P (prepare owner a)
unfolding prepare
prepare_cases P owner a refused again fresh =
    elim (Bool-cases (not (configured a) || is_none owner)) [
      | inl out ↦ rw out refused
      | inr ready ↦ elim (Bool-cases (a.spares (ring_of owner)).erased) [
        | inl clean ↦ rw (ready, clean) refused
        | inr dirty ↦ elim (Bool-cases (a.spares (ring_of owner)).reserved) [
          | inl held ↦ rw (ready, dirty, held) again
          | inr none_held ↦
              rw (ready, dirty, none_held) (by_choice ready (Option-cases (choose a owner)))
        ]
      ]
    ]
  where
    by_choice :
        (not (configured a) || is_none owner) ≡ false
        → (choose a owner ≡ none) ⊎ ((s : ℕ) × (choose a owner ≡ some s))
        → P (elim (choose a owner) [
          | none ↦ (a, no_claim)
          | some s ↦ (reserve s owner a, grant_spare s)
        ])
    by_choice ready (inl e) = rw e refused
    by_choice ready (inr (s, e)) = rw e (fresh s (ground arith) e)

pub prepare-IsWellFormed :
    (owner : SectorOwner) (a : SectorAllocator) → IsWellFormed a → IsWellFormed (prepare owner a).0
prepare-IsWellFormed owner a w =
    prepare_cases (λ r. IsWellFormed r.0) owner a w w
      λ s pos e.
        let (lt, u) = chosen a w owner s (choose-Comes a owner s pos e) in
        reserve-IsWellFormed s owner a lt u w

-- The allocator's life: it is configured, reads labels and sets sectors aside while no ring holds
-- them back, and then claims, prepares, erases and gives back in any order.
pub data Reached : SectorAllocator → Type 0 where
  configured_at :
      (count floor : ℕ) (a b : SectorAllocator) → b ≡ (configure count floor a).0 → Reached b
  noted :
      {a : SectorAllocator} (s : ℕ) (h : SectorHeader) (b : SectorAllocator)
      → Reached a
      → IsUnreserved a s
      → ((c : ℕ) → c < a.sector_count → in_ring a c ≡ true → a.sequence_of c ≢ h.sequence)
      → b ≡ note_sector s h a
      → Reached b
  quarantined_at :
      {a : SectorAllocator} (s : ℕ) (b : SectorAllocator)
      → Reached a
      → IsUnreserved a s
      → b ≡ quarantine s a
      → Reached b
  claimed_by :
      {a : SectorAllocator} (owner : SectorOwner) (session : ℕ) (b : SectorAllocator)
      → Reached a
      → a.sequence + 1 < 2 ^ 32
      → b ≡ (claim owner session a).0
      → Reached b
  prepared_by :
      {a : SectorAllocator} (owner : SectorOwner) (b : SectorAllocator)
      → Reached a
      → b ≡ (prepare owner a).0
      → Reached b
  erased_by :
      {a : SectorAllocator} (owner : SectorOwner) (b : SectorAllocator)
      → Reached a
      → b ≡ note_erased owner a
      → Reached b
  released_by :
      {a : SectorAllocator} (owner : SectorOwner) (b : SectorAllocator)
      → Reached a
      → b ≡ release owner a
      → Reached b

-- From a configuration on, reading labels that do not repeat and setting aside sectors that no ring
-- holds back, then claiming below the end of the 32-bit counter, preparing, erasing and giving back
-- in any order, every state is well formed: labels in the pool are between one and the counter and
-- never repeat, and each spare is a free sector of the pool that belongs to one ring alone.
pub Reached-IsWellFormed : {a : SectorAllocator} → Reached a → IsWellFormed a
Reached-IsWellFormed (configured_at count floor a b e) =
    subst IsWellFormed (sym e) (configure-IsWellFormed count floor a)
Reached-IsWellFormed (noted {a = a} s h b r u new e) =
    subst IsWellFormed (sym e) (note_sector-IsWellFormed s h a u new (Reached-IsWellFormed r))
Reached-IsWellFormed (quarantined_at {a = a} s b r u e) =
    subst IsWellFormed (sym e) (quarantine-IsWellFormed s a u (Reached-IsWellFormed r))
Reached-IsWellFormed (claimed_by {a = a} owner session b r fits e) =
    subst IsWellFormed (sym e) (claim-IsWellFormed owner session a fits (Reached-IsWellFormed r))
Reached-IsWellFormed (prepared_by {a = a} owner b r e) =
    subst IsWellFormed (sym e) (prepare-IsWellFormed owner a (Reached-IsWellFormed r))
Reached-IsWellFormed (erased_by {a = a} owner b r e) =
    subst IsWellFormed (sym e) (note_erased-IsWellFormed owner a (Reached-IsWellFormed r))
Reached-IsWellFormed (released_by {a = a} owner b r e) =
    subst IsWellFormed (sym e) (release-IsWellFormed owner a (Reached-IsWellFormed r))
