-- ===== src/Store/Allocator.antt =====
-- firmware/core/store/sector_allocator.h and sector_allocator.cpp: which sector is next.
-- An array on the sectors, or on the two rings, is a function on the index; the source reads one
-- only at sectors below `sector_count_`, and at rings 0 and 1. A scan of the sectors goes upwards.
pub mod Search
pub mod Sessions
pub mod Moves
pub mod Scans
pub mod Choice
pub mod WellFormed
pub mod Claims
pub mod Granted
pub mod Prepared
pub mod Floor
mod Tests
use skyblip.Base.{
  ℕ, zero, suc, ◌+◌, ◌-◌, ◌*◌, ◌/◌, ◌%◌, ◌^◌, Bool, true, false, ◌&&◌, ◌||◌, not, Option, none,
  some, List, [], ◌∷◌, ltb, leb, ◌==◌, if◌then◌else◌, u32, max, min,
}
use skyblip.Store.Sector.{
  SectorOwner, no_owner, flights, diagnostics, code, owner_of_code, SectorHeader,
}

abbrev pub max_pool_sectors : ℕ
max_pool_sectors = 512

abbrev pub flights_floor_hours : ℕ
flights_floor_hours = 6

pub flights_floor_sectors : ℕ → ℕ
flights_floor_sectors seconds_per_sector =
    if seconds_per_sector == 0
    then 0
    else u32 (flights_floor_hours * 3600 + seconds_per_sector - 1) / seconds_per_sector

pub record SessionRun : Type 0 where
  pub session_id : ℕ
  pub sectors : ℕ
  pub last_sequence : ℕ

pub record Claim : Type 0 where
  pub sector : ℕ
  pub sequence : ℕ
  pub granted : Bool
  pub erased : Bool
  pub session_start : Bool

abbrev pub no_claim : Claim
no_claim = record {
  sector = 0;
  sequence = 0;
  granted = false;
  erased = false;
  session_start = false;
}

pub record Spare : Type 0 where
  pub sector : ℕ
  pub reserved : Bool
  pub erased : Bool

abbrev pub no_spare : Spare
no_spare = record { sector = 0; reserved = false; erased = false }

pub record Match : Type 0 where
  pub owner : SectorOwner
  pub any_session : Bool
  pub session_id : ℕ

pub record SectorAllocator : Type 0 where
  pub sequence_of : ℕ → ℕ
  pub session_id_of : ℕ → ℕ
  pub owner_of : ℕ → ℕ
  pub session_start_of : ℕ → Bool
  pub lost_sectors_of : ℕ → ℕ
  pub spares : ℕ → Spare
  pub sector_count : ℕ
  pub floor_sectors : ℕ
  pub sequence : ℕ
  pub newest : ℕ
  pub claimed : Bool

abbrev pub update {ℓ} : {A : Type ℓ} → (ℕ → A) → ℕ → A → ℕ → A
update f i v j = if i == j then v else f j

-- `kFree` and `kQuarantined`.
abbrev pub free : ℕ
free = 0

abbrev pub quarantined_code : ℕ
quarantined_code = 0xff

abbrev pub ring_of : SectorOwner → ℕ
ring_of diagnostics = 1
ring_of _ = 0

abbrev pub is_none : SectorOwner → Bool
is_none no_owner = true
is_none _ = false

abbrev pub configured : SectorAllocator → Bool
configured a = ltb 0 a.sector_count

pub reset : SectorAllocator → SectorAllocator
reset a = record a {
  sequence_of = λ _. 0;
  session_id_of = λ _. 0;
  owner_of = λ _. free;
  session_start_of = λ _. false;
  lost_sectors_of = λ _. 0;
  spares = λ _. no_spare;
  sequence = 0;
  newest = 0;
  claimed = false;
}

-- The new state, and whether it is configured.
pub configure : ℕ → ℕ → SectorAllocator → SectorAllocator × Bool
configure sector_count floor_sectors a =
    let sized = record a {
      sector_count = if ltb max_pool_sectors sector_count then 0 else sector_count;
      floor_sectors = floor_sectors;
    } in
    (reset sized, configured (reset sized))

-- A scan: `body` at each sector from 0 up to the count, over what it has so far.
abbrev pub scan {ℓ} : {S : Type ℓ} → ℕ → (ℕ → S → S) → S → S
scan zero body s = s
scan (suc n) body s = body n (scan n body s)

-- A counting scan.
abbrev pub tally : ℕ → (ℕ → Bool) → ℕ
tally n test = scan n (λ c count. if test c then suc count else count) 0

-- What `found`, `sector` and `sequence` of a scan hold once it has found one.
pub record Found : Type 0 where
  pub sector : ℕ
  pub sequence : ℕ

abbrev pub owned_by : SectorAllocator → SectorOwner → ℕ → Bool
owned_by a owner c = a.owner_of c == code owner

abbrev pub frontier_body : SectorAllocator → SectorOwner → ℕ → Option Found → Option Found
frontier_body a owner c acc = if not (owned_by a owner c) then acc else elim acc [
  | none ↦ some (record { sector = c; sequence = a.sequence_of c })
  | some f ↦
      if ltb (a.sequence_of c) f.sequence
      then some f
      else some (record { sector = c; sequence = a.sequence_of c })
]

pub frontier : SectorAllocator → SectorOwner → Option Found
frontier a owner = scan a.sector_count (frontier_body a owner) none

pub matches : SectorAllocator → Match → ℕ → Bool
matches a m sector =
    if not (a.owner_of sector == code m.owner)
    then false
    else m.any_session || (a.session_id_of sector == m.session_id)

abbrev pub lowest_body : SectorAllocator → Match → ℕ → ℕ → Option Found → Option Found
lowest_body a m above c acc =
    if not (matches a m c) || leb (a.sequence_of c) above then acc else elim acc [
      | none ↦ some (record { sector = c; sequence = a.sequence_of c })
      | some f ↦
          if ltb f.sequence (a.sequence_of c)
          then some f
          else some (record { sector = c; sequence = a.sequence_of c })
    ]

pub lowest_above : SectorAllocator → Match → ℕ → Option Found
lowest_above a m above = scan a.sector_count (lowest_body a m above) none

abbrev pub any_of : SectorOwner → Match
any_of owner = record { owner = owner; any_session = true; session_id = 0 }

pub oldest : SectorAllocator → SectorOwner → Option Found
oldest a owner = lowest_above a (any_of owner) 0

pub owned : SectorAllocator → SectorOwner → ℕ
owned a owner = tally a.sector_count (owned_by a owner)

pub quarantined_count : SectorAllocator → ℕ
quarantined_count a = tally a.sector_count (λ c. a.owner_of c == quarantined_code)

pub quarantined : SectorAllocator → ℕ → Bool
quarantined a sector = ltb sector a.sector_count && (a.owner_of sector == quarantined_code)

pub owner_at : SectorAllocator → ℕ → SectorOwner
owner_at a sector =
    if leb a.sector_count sector || (a.owner_of sector == quarantined_code)
    then no_owner
    else owner_of_code (a.owner_of sector)

pub session_of : SectorAllocator → ℕ → ℕ
session_of a sector = if ltb sector a.sector_count then a.session_id_of sector else 0

pub session_start_at : SectorAllocator → ℕ → Bool
session_start_at a sector = ltb sector a.sector_count && a.session_start_of sector

pub lost_sectors : SectorAllocator → SectorOwner → ℕ
lost_sectors a owner = if is_none owner then 0 else a.lost_sectors_of (ring_of owner)

abbrev pub reserves : Spare → ℕ → Bool
reserves s sector = s.reserved && (s.sector == sector)

abbrev pub reserved : SectorAllocator → ℕ → Bool
reserved a sector = reserves (a.spares 0) sector || reserves (a.spares 1) sector

pub matching_up_to : SectorAllocator → Match → ℕ → ℕ
matching_up_to a m sequence =
    tally a.sector_count (λ c. matches a m c && leb (a.sequence_of c) sequence)
