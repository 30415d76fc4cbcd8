-- ===== src/Store/Allocator/Moves.antt =====
-- firmware/core/store/sector_allocator.cpp: the operations that change the state, but for
-- `configure` and `reset`.
use skyblip.Base.{
  ℕ, ◌+◌, Bool, true, false, ◌&&◌, ◌||◌, not, Option, none, some, ltb, leb, ◌==◌, if◌then◌else◌,
  u32,
}
use skyblip.Store.Sector.{SectorOwner, code, owner_of_code, SectorHeader}
use skyblip.Store.Allocator.{
  Claim, no_claim, no_spare, SectorAllocator, update, free, quarantined_code, ring_of, is_none,
  configured, scan, owned_by, frontier,
}
use skyblip.Store.Allocator.Search.{choose}

-- The entries of a sector that is nobody's.
abbrev pub vacate : ℕ → ℕ → SectorAllocator → SectorAllocator
vacate sector owner_code a = record a {
  owner_of = update a.owner_of sector owner_code;
  sequence_of = update a.sequence_of sector 0;
  session_id_of = update a.session_id_of sector 0;
  session_start_of = update a.session_start_of sector false;
}

-- The entries of a sector whose label is read, and the newest of the labels so far.
abbrev pub labelled_by : ℕ → SectorHeader → SectorAllocator → SectorAllocator
labelled_by sector header a =
    let newer = not a.claimed || ltb a.sequence header.sequence in
    record a {
      owner_of = update a.owner_of sector (code header.owner);
      sequence_of = update a.sequence_of sector header.sequence;
      session_id_of = update a.session_id_of sector header.session_id;
      session_start_of = update a.session_start_of sector header.session_start;
      sequence = if newer then header.sequence else a.sequence;
      newest = if newer then sector else a.newest;
      claimed = true;
    }

unfoldable pub note_sector : ℕ → SectorHeader → SectorAllocator → SectorAllocator
note_sector sector header a =
    if leb a.sector_count sector || is_none header.owner
    then a
    else if header.sequence == 0
    then a
    else labelled_by sector header a

unfoldable pub owns_session : SectorAllocator → SectorOwner → ℕ → Bool
owns_session a owner session_id =
    scan a.sector_count
      (λ c seen. seen || (owned_by a owner c && (a.session_id_of c == session_id))) false

abbrev pub count_loss : SectorOwner → SectorAllocator → SectorAllocator
count_loss owner a = record a {
  lost_sectors_of =
      update a.lost_sectors_of (ring_of owner) (u32 (a.lost_sectors_of (ring_of owner) + 1));
}

unfoldable pub note_taken : ℕ → SectorAllocator → SectorAllocator
note_taken sector a =
    let c = a.owner_of sector in
    if (c == free) || (c == quarantined_code) then a else elim (frontier a (owner_of_code c)) [
      | none ↦ a
      | some f ↦
          if not (a.session_id_of f.sector == a.session_id_of sector)
          then a
          else count_loss (owner_of_code c) a
    ]

unfoldable pub take : ℕ → SectorOwner → ℕ → SectorAllocator → SectorAllocator
take sector owner session_id a =
    let sequence = u32 (a.sequence + 1) in
    record a {
      sequence = sequence;
      owner_of = update a.owner_of sector (code owner);
      sequence_of = update a.sequence_of sector sequence;
      session_id_of = update a.session_id_of sector session_id;
      newest = sector;
      claimed = true;
    }

-- The sector that a claim is given: the ring's spare, whether that is erased, or a chosen one.
abbrev pub source_of : SectorAllocator → SectorOwner → Option (ℕ × Bool)
source_of a owner =
    let spare = a.spares (ring_of owner) in
    if spare.reserved
    then some (spare.sector, spare.erased)
    else elim (choose a owner) [ none ↦ none | some s ↦ some (s, false) ]

-- `spare = Spare{}` of the branch that takes the spare; the other has none reserved to lose.
abbrev pub spend_spare : SectorOwner → SectorAllocator → SectorAllocator
spend_spare owner a =
    let spare = a.spares (ring_of owner) in
    if spare.reserved then record a { spares = update a.spares (ring_of owner) no_spare } else a

-- The rest of a claim, once the sector is known.
abbrev pub claim_sector : ℕ → Bool → SectorOwner → ℕ → SectorAllocator → SectorAllocator × Claim
claim_sector sector erased owner session_id a =
    let start = not (owns_session a owner session_id) in
    let taken = take sector owner session_id (note_taken sector a) in
    let done = record taken { session_start_of = update taken.session_start_of sector start } in
    (
      done,
      record {
        sector = sector;
        sequence = done.sequence;
        granted = true;
        erased = erased;
        session_start = start;
      },
    )

unfoldable pub claim : SectorOwner → ℕ → SectorAllocator → SectorAllocator × Claim
claim owner session_id a =
    if not (configured a) || is_none owner then (a, no_claim) else elim (source_of a owner) [
      | none ↦ (a, no_claim)
      | some (sector, erased) ↦ claim_sector sector erased owner session_id (spend_spare owner a)
    ]

abbrev pub reserve : ℕ → SectorOwner → SectorAllocator → SectorAllocator
reserve sector owner a =
    let noted = note_taken sector a in
    let spare = record (noted.spares (ring_of owner)) { sector = sector; reserved = true } in
    vacate sector free (record noted { spares = update noted.spares (ring_of owner) spare })

abbrev pub grant_spare : ℕ → Claim
grant_spare sector = record no_claim { sector = sector; granted = true }

unfoldable pub prepare : SectorOwner → SectorAllocator → SectorAllocator × Claim
prepare owner a =
    let spare = a.spares (ring_of owner) in
    if not (configured a) || is_none owner
    then (a, no_claim)
    else if spare.erased
    then (a, no_claim)
    else if spare.reserved
    then (a, grant_spare spare.sector)
    else elim (choose a owner) [
      | none ↦ (a, no_claim)
      | some sector ↦ (reserve sector owner a, grant_spare sector)
    ]

unfoldable pub note_erased : SectorOwner → SectorAllocator → SectorAllocator
note_erased owner a =
    let spare = a.spares (ring_of owner) in
    if spare.reserved
    then record a { spares = update a.spares (ring_of owner) (record spare { erased = true }) }
    else a

-- The loop over the sectors writes each one's own entries.
unfoldable pub release : SectorOwner → SectorAllocator → SectorAllocator
release owner a =
    let given = λ (c : ℕ). ltb c a.sector_count && owned_by a owner c in
    if is_none owner then a else record a {
      owner_of = λ c. if given c then free else a.owner_of c;
      sequence_of = λ c. if given c then 0 else a.sequence_of c;
      session_id_of = λ c. if given c then 0 else a.session_id_of c;
      session_start_of = λ c. if given c then false else a.session_start_of c;
      spares = update a.spares (ring_of owner) no_spare;
    }

unfoldable pub quarantine : ℕ → SectorAllocator → SectorAllocator
quarantine sector a = if leb a.sector_count sector then a else vacate sector quarantined_code a
