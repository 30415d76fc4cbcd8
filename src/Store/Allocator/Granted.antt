-- ===== src/Store/Allocator/Granted.antt =====
-- What a granted claim hands out, what it writes down and what it leaves alone.
use skyblip.Base.{
  ℕ, ◌+◌, ◌^◌, ◌<◌, ◌≡◌, ◌≢◌, refl, ◌∙◌, sym, ap, subst, inl, inr, Bool, true, not, ◌&&◌, some,
  arith, u32, Option-cases,
}
use mathlib.Core.Bool.{false≢true}
use skyblip.Store.Sector.{SectorOwner, no_owner, code}
use skyblip.Store.Allocator.{
  SectorAllocator, Claim, Spare, Found, update, frontier, owned_by, ring_of,
}
use skyblip.Store.Allocator.Moves.{take, claim_sector, source_of, spend_spare, owns_session}
use skyblip.Store.Allocator.Scans.{IsHighest, frontier-IsHighest}
use skyblip.Store.Allocator.Choice.{frontier_of}
use skyblip.Store.Allocator.WellFormed.{IsWellFormed, in_ring}
use skyblip.Store.Allocator.Claims.{note_taken_lem, spend-same, source_free}

-- The entries after a claim, against the state before it.
pub record IsGranted (a : SectorAllocator) (owner : SectorOwner) (session : ℕ)
    (r : SectorAllocator × Claim) : Type 0 where
  pub granted : r.1.granted ≡ true
  pub in_pool : r.1.sector < a.sector_count
  pub label : r.1.sequence ≡ a.sequence + 1
  pub counter : r.0.sequence ≡ a.sequence + 1
  pub newest : r.0.newest ≡ r.1.sector
  pub owners : r.0.owner_of ≡ update a.owner_of r.1.sector (code owner)
  pub labels : r.0.sequence_of ≡ update a.sequence_of r.1.sector (a.sequence + 1)
  pub sessions : r.0.session_id_of ≡ update a.session_id_of r.1.sector session
  pub start : r.1.session_start ≡ not (owns_session a owner session)
  pub starts : r.0.session_start_of ≡ update a.session_start_of r.1.sector r.1.session_start
  pub pool_kept : r.0.sector_count ≡ a.sector_count

claim_sector-IsGranted :
    (s : ℕ) (erased : Bool) (owner : SectorOwner) (session : ℕ) (b : SectorAllocator)
    → s < b.sector_count
    → b.sequence + 1 < 2 ^ 32
    → IsGranted b owner session (claim_sector s erased owner session b)
unfolding take
claim_sector-IsGranted s erased owner session b lt fits =
    let wrap : u32 (b.sequence + 1) ≡ b.sequence + 1 = omega arith in
    rw (note_taken_lem s b) record {
      granted = refl;
      in_pool = lt;
      label = wrap;
      counter = wrap;
      newest = refl;
      owners = refl;
      labels = ap (update b.sequence_of s) wrap;
      sessions = refl;
      start = refl;
      starts = refl;
      pool_kept = refl;
    }

-- The spares are none of these entries.
IsGranted-spare :
    (f : ℕ → Spare) (a : SectorAllocator) (owner : SectorOwner) (session : ℕ)
    (r : SectorAllocator × Claim)
    → IsGranted (record a { spares = f }) owner session r
    → IsGranted a owner session r
unfolding owns_session
IsGranted-spare f a owner session r g = record {
  granted = g.granted;
  in_pool = g.in_pool;
  label = g.label;
  counter = g.counter;
  newest = g.newest;
  owners = g.owners;
  labels = g.labels;
  sessions = g.sessions;
  start = g.start;
  starts = g.starts;
  pool_kept = g.pool_kept;
}

pub sourced-IsGranted :
    (owner : SectorOwner) (session s : ℕ) (erased : Bool) (a : SectorAllocator)
    → 0 < a.sector_count
    → a.sequence + 1 < 2 ^ 32
    → IsWellFormed a
    → source_of a owner ≡ some (s, erased)
    → IsGranted a owner session (claim_sector s erased owner session (spend_spare owner a))
sourced-IsGranted owner session s erased a pos fits w e =
    let (lt, u) = source_free a w owner s erased pos e in
    let spares = (spend_spare owner a).spares in
    let granted =
      claim_sector-IsGranted s erased owner session (record a { spares = spares }) lt fits in
    rw (spend-same owner a) (IsGranted-spare spares a owner session _ granted)

-- The highest label of a ring is the counter's, wherever a claim of that ring has just written it.
module _ (a : SectorAllocator) (owner : SectorOwner) (session : ℕ) (r : SectorAllocator × Claim)
    (g : IsGranted a owner session r) (w : IsWellFormed r.0) (known : owner ≢ no_owner) where
  owned_there : owned_by r.0 owner r.1.sector ≡ true
  owned_there = rw g.owners (ground arith)

  in_ring_of : (c : ℕ) → owned_by r.0 owner c ≡ true → in_ring r.0 c ≡ true
  in_ring_of c h = by_owner owner known h
    where
      by_owner : (o : SectorOwner) → o ≢ no_owner → owned_by r.0 o c ≡ true → in_ring r.0 c ≡ true
      by_owner no_owner k h = absurd (k refl)
      by_owner o k h = ground arith

  label_there : r.0.sequence_of r.1.sector ≡ a.sequence + 1
  label_there = rw g.labels (ground arith)

  in_pool_there : r.1.sector < r.0.sector_count
  in_pool_there = omega (arith, g.pool_kept, g.in_pool)

  highest_there :
      (f : Found)
      → IsHighest (owned_by r.0 owner) r.0.sequence_of r.0.sector_count (some f)
      → f ≡ record { sector = r.1.sector; sequence = a.sequence + 1 }
  highest_there f (lt, o, l, h) =
      let top = (w.numbered f.sector lt (in_ring_of f.sector o)).1 in
      let seq : f.sequence ≡ a.sequence + 1 =
        omega (arith, h r.1.sector in_pool_there owned_there, label_there, top, g.counter, l) in
      let at =
        w.distinct f.sector r.1.sector lt in_pool_there (in_ring_of f.sector o)
          (in_ring_of r.1.sector owned_there) (sym l ∙ seq ∙ sym label_there) in
      ground arith

  pub new_frontier :
      frontier r.0 owner ≡ some (record { sector = r.1.sector; sequence = a.sequence + 1 })
  new_frontier = elim (Option-cases (frontier r.0 owner)) [
    | inl e ↦ absurd (
        false≢true (
          sym (
            subst (IsHighest (owned_by r.0 owner) r.0.sequence_of r.0.sector_count) e
              (frontier-IsHighest r.0 owner) r.1.sector in_pool_there)
          ∙ owned_there))
    | inr (f, e) ↦ e ∙ ap some (highest_there f (frontier_of r.0 owner f e))
  ]

-- What a granted claim answers and leaves behind.
abbrev pub IsHandedOut : SectorAllocator → SectorOwner → ℕ → SectorAllocator × Claim → Type 0
IsHandedOut a owner session r =
    IsGranted a owner session r
    × (frontier r.0 owner ≡ some (record { sector = r.1.sector; sequence = a.sequence + 1 }))
    × (r.1.erased ≡ ((a.spares (ring_of owner)).reserved && (a.spares (ring_of owner)).erased))
