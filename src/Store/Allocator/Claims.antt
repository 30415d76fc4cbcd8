-- ===== src/Store/Allocator/Claims.antt =====
-- A claim and a preparation: what they hand out, what they change, and that the invariant stands.
use skyblip.Base.{
  ℕ, zero, suc, ◌+◌, ◌^◌, ◌<◌, ◌≡◌, ◌≢◌, sym, subst, ◌⊎◌, inl, inr, Bool, true, false, not, ◌||◌,
  none, some, arith, Bool-cases, Option-cases,
}
use skyblip.Store.Sector.{SectorOwner, no_owner, flights, diagnostics}
use skyblip.Store.Allocator.{
  SectorAllocator, Claim, no_spare, no_claim, reserved, ring_of, configured, is_none,
}
use skyblip.Store.Allocator.Search.{choose}
use skyblip.Store.Allocator.Moves.{take, note_taken, claim, claim_sector, source_of, spend_spare}
use skyblip.Store.Allocator.Choice.{Comes, from_free, from_flights, from_diagnostics, choose-Comes}
use skyblip.Store.Allocator.WellFormed.{
  IsWellFormed, IsUnreserved, in_ring, take-IsWellFormed, lost-IsWellFormed, start-IsWellFormed,
  spares-IsWellFormed,
}

-- Counting a loss changes that counter alone.
pub note_taken_lem :
    (s : ℕ) (a : SectorAllocator)
    → note_taken s a ≡ record a { lost_sectors_of = (note_taken s a).lost_sectors_of }
unfolding note_taken
note_taken_lem s a = ground arith

pub note_taken-IsWellFormed :
    (s : ℕ) (a : SectorAllocator) → IsWellFormed a → IsWellFormed (note_taken s a)
note_taken-IsWellFormed s a w =
    subst IsWellFormed (sym (note_taken_lem s a))
      (lost-IsWellFormed (note_taken s a).lost_sectors_of a w)

module _ (a : SectorAllocator) (w : IsWellFormed a) where
  -- A sector that is no spare's.
  unreserved : (s : ℕ) → reserved a s ≡ false → IsUnreserved a s
  unreserved s h zero e = ground arith
  unreserved s h (suc zero) e = ground arith
  unreserved s h (suc (suc r)) e = ground (arith, w.two_rings (suc (suc r)))

  ringed : (s : ℕ) → in_ring a s ≡ true → IsUnreserved a s
  ringed s h r e = λ same. ground (arith, w.spare r e)

  pub chosen :
      (owner : SectorOwner) (s : ℕ) → Comes a owner s → (s < a.sector_count) × IsUnreserved a s
  chosen owner s (from_free lt u) = (lt, unreserved s (ground arith))
  chosen owner s (from_flights v why) = (v.in_pool, ringed s (ground (arith, v.owned)))
  chosen owner s (from_diagnostics v) = (v.in_pool, ringed s (ground (arith, v.owned)))

  spend-IsWellFormed : (owner : SectorOwner) → IsWellFormed (spend_spare owner a)
  spend-IsWellFormed owner = elim (Bool-cases (a.spares (ring_of owner)).reserved) [
    | inr none_held ↦ rw none_held w
    | inl held ↦ rw held (spares-IsWellFormed owner no_spare a (λ e. cc) (λ e. cc) w)
  ]

  -- Once a ring has given up its spare, no ring holds that sector back.
  spent :
      (owner : SectorOwner)
      → (a.spares (ring_of owner)).reserved ≡ true
      → IsUnreserved (spend_spare owner a) (a.spares (ring_of owner)).sector
  spent no_owner h zero e = ground arith
  spent no_owner h (suc zero) e = ground (arith, w.apart)
  spent no_owner h (suc (suc r)) e = ground (arith, w.two_rings (suc (suc r)))
  spent flights h zero e = ground arith
  spent flights h (suc zero) e = ground (arith, w.apart)
  spent flights h (suc (suc r)) e = ground (arith, w.two_rings (suc (suc r)))
  spent diagnostics h zero e = ground (arith, w.apart)
  spent diagnostics h (suc zero) e = ground arith
  spent diagnostics h (suc (suc r)) e = ground (arith, w.two_rings (suc (suc r)))

  pub source_free :
      (owner : SectorOwner) (s : ℕ) (erased : Bool)
      → 0 < a.sector_count
      → source_of a owner ≡ some (s, erased)
      → (s < a.sector_count) × IsUnreserved (spend_spare owner a) s
  source_free owner s erased pos e = elim (Bool-cases (a.spares (ring_of owner)).reserved) [
    | inl held ↦ from_spare held
    | inr none_held ↦ from_choice none_held (Option-cases (choose a owner))
  ]
    where
      from_spare :
          (a.spares (ring_of owner)).reserved ≡ true
          → (s < a.sector_count) × IsUnreserved (spend_spare owner a) s
      from_spare held =
          let same : (a.spares (ring_of owner)).sector ≡ s = ground arith in
          subst (λ c. (c < a.sector_count) × IsUnreserved (spend_spare owner a) c) same
            ((w.spare (ring_of owner) held).0, spent owner held)

      from_choice :
          (a.spares (ring_of owner)).reserved ≡ false
          → (choose a owner ≡ none) ⊎ ((c : ℕ) × (choose a owner ≡ some c))
          → (s < a.sector_count) × IsUnreserved (spend_spare owner a) s
      from_choice n (inl o) = absurd (ground arith)
      from_choice n (inr (c, o)) =
          let same : c ≡ s = ground arith in
          let (lt, u) = chosen owner c (choose-Comes a owner c pos o) in rw n (rw (← same) (lt, u))

-- The state after a claim of a sector that is free to take.
claim_sector-IsWellFormed :
    (s : ℕ) (erased : Bool) (owner : SectorOwner) (session : ℕ) (b : SectorAllocator)
    → s < b.sector_count
    → IsUnreserved b s
    → b.sequence + 1 < 2 ^ 32
    → IsWellFormed b
    → IsWellFormed (claim_sector s erased owner session b).0
claim_sector-IsWellFormed s erased owner session b lt u fits w =
    start-IsWellFormed _ (take s owner session (note_taken s b)) (
      take-IsWellFormed s owner session (note_taken s b) (rw (note_taken_lem s b) lt)
        (rw (note_taken_lem s b) u) (rw (note_taken_lem s b) fits) (note_taken-IsWellFormed s b w))

pub spend-same :
    (owner : SectorOwner) (a : SectorAllocator)
    → spend_spare owner a ≡ record a { spares = (spend_spare owner a).spares }
spend-same owner a = ground arith

pub claimed-IsWellFormed :
    (owner : SectorOwner) (session s : ℕ) (erased : Bool) (a : SectorAllocator)
    → 0 < a.sector_count
    → a.sequence + 1 < 2 ^ 32
    → IsWellFormed a
    → source_of a owner ≡ some (s, erased)
    → IsWellFormed (claim_sector s erased owner session (spend_spare owner a)).0
claimed-IsWellFormed owner session s erased a pos fits w e =
    let (lt, u) = source_free a w owner s erased pos e in
    claim_sector-IsWellFormed s erased owner session (spend_spare owner a)
      (rw (spend-same owner a) lt) u (rw (spend-same owner a) fits) (spend-IsWellFormed a w owner)

-- The branches of `claim`.
pub claim_cases {ℓ} :
    (P : SectorAllocator × Claim → Type ℓ) (owner : SectorOwner) (session : ℕ) (a : SectorAllocator)
    → P (a, no_claim)
    → ((s : ℕ) (erased : Bool)
        → 0 < a.sector_count
        → owner ≢ no_owner
        → source_of a owner ≡ some (s, erased)
        → P (claim_sector s erased owner session (spend_spare owner a)))
    → P (claim owner session a)
unfolding claim
claim_cases P owner session a refused granted =
    elim (Bool-cases (not (configured a) || is_none owner)) [
      | inl out ↦ rw out refused
      | inr ready ↦ rw ready (by_source ready (Option-cases (source_of a owner)))
    ]
  where
    by_source :
        (not (configured a) || is_none owner) ≡ false
        → (source_of a owner ≡ none) ⊎ ((p : ℕ × Bool) × (source_of a owner ≡ some p))
        → P (elim (source_of a owner) [
          | none ↦ (a, no_claim)
          | some (s, erased) ↦ claim_sector s erased owner session (spend_spare owner a)
        ])
    by_source ready (inl e) = rw e refused
    by_source ready (inr ((s, erased), e)) =
        rw e (granted s erased (ground arith) (λ z. ground arith) e)

-- A claim keeps the invariant, as long as the counter of labels has not run out.
pub claim-IsWellFormed :
    (owner : SectorOwner) (session : ℕ) (a : SectorAllocator)
    → a.sequence + 1 < 2 ^ 32
    → IsWellFormed a
    → IsWellFormed (claim owner session a).0
claim-IsWellFormed owner session a fits w =
    claim_cases (λ r. IsWellFormed r.0) owner session a w
      (λ s erased pos known e. claimed-IsWellFormed owner session s erased a pos fits w e)
