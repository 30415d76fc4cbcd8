-- ===== src/Store/Allocator/Floor.antt =====
-- The promise to the flights: a capture never takes their ring below the floor.
use skyblip.Base.{
  ℕ, zero, suc, ◌+◌, ◌^◌, ◌≤◌, ◌<◌, ◌≡◌, ◌≢◌, refl, sym, subst, ◌⊎◌, inl, inr, Bool, false, none,
  some, arith, ◌==◌, ==_iff, min, Bool-cases, Option-cases,
}
use skyblip.Store.Sector.{flights, diagnostics, code}
use skyblip.Store.Allocator.{SectorAllocator, update, owned, owned_by, tally, free}
use skyblip.Store.Allocator.Search.{choose}
use skyblip.Store.Allocator.Moves.{claim, source_of, prepare, reserve}
use skyblip.Store.Allocator.Choice.{Comes, from_free, from_flights, from_diagnostics, choose-Comes}
use skyblip.Store.Allocator.WellFormed.{IsWellFormed}
use skyblip.Store.Allocator.Claims.{note_taken_lem, claim_cases}
use skyblip.Store.Allocator.Granted.{sourced-IsGranted}
use skyblip.Store.Allocator.Prepared.{prepare_cases}

-- Counts of two tests that agree but at one sector.
module _ (s : ℕ) (p q : ℕ → Bool) (agree : (c : ℕ) → c ≢ s → p c ≡ q c) where
  tally-below : (n : ℕ) → n ≤ s → tally n p ≡ tally n q
  tally-below zero le = refl
  tally-below (suc n) le = ground (arith, agree n (λ e. omega arith), tally-below n (omega arith))

  tally-le_suc : (n : ℕ) → tally n p ≤ suc (tally n q)
  tally-le_suc zero = omega arith
  tally-le_suc (suc n) = elim (Bool-cases (n == s)) [
    | inl e ↦ ground (arith, tally-below n (ground arith))
    | inr e ↦ ground (arith, agree n (λ z. ground arith), tally-le_suc n)
  ]

  tally-le : (n : ℕ) → p s ≡ false → tally n p ≤ tally n q
  tally-le zero h = omega arith
  tally-le (suc n) h = elim (Bool-cases (n == s)) [
    | inl e ↦
        let at : p n ≡ false = subst (λ c. p c ≡ false) (sym ((==_iff n s).0 e)) h in
        ground (arith, tally-below n (ground arith))
    | inr e ↦ ground (arith, agree n (λ z. ground arith), tally-le n h)
  ]

-- A sector may be taken for the capture: it is not the flights', or they own more than the floor.
abbrev IsFair : SectorAllocator → ℕ → Type 0
IsFair a s = (owned_by a flights s ≡ false) ⊎ (a.floor_sectors < owned a flights)

Comes-IsFair : (a : SectorAllocator) (s : ℕ) → Comes a diagnostics s → IsFair a s
Comes-IsFair a s (from_free lt u) = inl (ground arith)
Comes-IsFair a s (from_flights v (inl e)) = cc
Comes-IsFair a s (from_flights v (inr more)) = inr more
Comes-IsFair a s (from_diagnostics v) = inl (ground (arith, v.owned))

-- Writing another owner over a fair sector keeps the floor.
fair_floor :
    (a b : SectorAllocator) (s k : ℕ)
    → IsFair a s
    → (k == 1) ≡ false
    → b.owner_of ≡ update a.owner_of s k
    → b.sector_count ≡ a.sector_count
    → min a.floor_sectors (owned a flights) ≤ owned b flights
unfolding owned
fair_floor a b s k fair other e n = rw (e, n) (kept fair)
  where
    after : ℕ → Bool
    after c = update a.owner_of s k c == code flights

    agree : (c : ℕ) → c ≢ s → owned_by a flights c ≡ after c
    agree c d = ground arith

    kept :
        IsFair a s
        → min a.floor_sectors (tally a.sector_count (owned_by a flights))
          ≤ tally a.sector_count after
    kept (inl f) =
        let le = tally-le s (owned_by a flights) after agree a.sector_count f in omega (arith, le)
    kept (inr more) =
        let le = tally-le_suc s (owned_by a flights) after agree a.sector_count in
        omega (arith, le, more)

source-IsFair :
    (a : SectorAllocator) (s : ℕ) (erased : Bool)
    → IsWellFormed a
    → 0 < a.sector_count
    → source_of a diagnostics ≡ some (s, erased)
    → IsFair a s
source-IsFair a s erased w pos e = elim (Bool-cases (a.spares 1).reserved) [
  | inl held ↦ inl (ground (arith, w.spare 1))
  | inr none_held ↦ from_choice none_held (Option-cases (choose a diagnostics))
]
  where
    from_choice :
        (a.spares 1).reserved ≡ false
        → (choose a diagnostics ≡ none) ⊎ ((c : ℕ) × (choose a diagnostics ≡ some c))
        → IsFair a s
    from_choice n (inl o) = absurd (ground arith)
    from_choice n (inr (c, o)) =
        let same : c ≡ s = ground arith in
        subst (IsFair a) same (Comes-IsFair a c (choose-Comes a diagnostics c pos o))

-- In a well-formed state below the end of the counter, a claim and a preparation for the capture leave the flights their floor: of the sectors that the
-- flights own before it, they own at least as many after it as the floor promises them.
pub capture_floor :
    (a : SectorAllocator) (session : ℕ)
    → a.sequence + 1 < 2 ^ 32
    → IsWellFormed a
    → (min a.floor_sectors (owned a flights) ≤ owned (claim diagnostics session a).0 flights)
      × (min a.floor_sectors (owned a flights) ≤ owned (prepare diagnostics a).0 flights)
capture_floor a session fits w = (
  claim_cases (λ r. min a.floor_sectors (owned a flights) ≤ owned r.0 flights) diagnostics session a
      unchanged
      λ s erased pos known e.
        let g = sourced-IsGranted diagnostics session s erased a pos fits w e in
        fair_floor a _ s 2 (source-IsFair a s erased w pos e) refl g.owners g.pool_kept,
  prepare_cases (λ r. min a.floor_sectors (owned a flights) ≤ owned r.0 flights) diagnostics a
      unchanged unchanged
      λ s pos e.
        fair_floor a (reserve s diagnostics a) s free
          (Comes-IsFair a s (choose-Comes a diagnostics s pos e)) refl
          (rw (note_taken_lem s a) refl) (rw (note_taken_lem s a) refl),
)
  where
    unchanged : min a.floor_sectors (owned a flights) ≤ owned a flights
    unchanged = omega arith
