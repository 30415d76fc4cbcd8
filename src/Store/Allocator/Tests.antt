-- ===== src/Store/Allocator/Tests.antt =====
-- Tests on a pool of four sectors, a floor of one for the flights.
use skyblip.Base.{◌≤◌, ◌≡◌, refl, false, some, min, arith}
use skyblip.Store.Sector.{flights, diagnostics}
use skyblip.Store.Allocator.{
  SectorAllocator, Found, no_spare, configure, reset, oldest, lowest_above, matches, frontier,
  owned, flights_floor_sectors, lost_sectors, matching_up_to, SessionRun,
}
use skyblip.Store.Allocator.Search.{choose, next_free, next_free_from, evictable}
use skyblip.Store.Allocator.Moves.{claim, prepare, take, note_taken, owns_session}
use skyblip.Store.Allocator.Choice.{IsOffered, choose-frontier}
use skyblip.Store.Allocator.WellFormed.{IsWellFormed}
use skyblip.Store.Allocator.Prepared.{Reached, configured_at, claimed_by, Reached-IsWellFormed}
use skyblip.Store.Allocator.Floor.{capture_floor}
use skyblip.Store.Allocator.Sessions.{session_match, session_sector, session_run, bisect}
use skyblip.Store.Allocator.Sessions.Nth.{session_sector-IsNth}
use skyblip.Store.Allocator.Sessions.Bisected.{IsNth}
use skyblip.Store.Allocator.Sessions.Run.{IsNextRun, session_run-IsNextRun}

abbrev blank : SectorAllocator
blank = record {
  sequence_of = λ _. 0;
  session_id_of = λ _. 0;
  owner_of = λ _. 0;
  session_start_of = λ _. false;
  lost_sectors_of = λ _. 0;
  spares = λ _. no_spare;
  sector_count = 0;
  floor_sectors = 0;
  sequence = 0;
  newest = 0;
  claimed = false;
}

abbrev empty_pool : SectorAllocator
empty_pool = (configure 4 1 blank).0

-- A flight of two sectors, a capture of one, then the same flight again.
abbrev full_pool : SectorAllocator
full_pool =
    (claim flights 7 (claim diagnostics 9 (claim flights 7 (claim flights 7 empty_pool).0).0).0).0

abbrev full_pool_newest : Found
full_pool_newest = record { sector = 3; sequence = 4 }

empty_Reached : Reached empty_pool
empty_Reached = configured_at 4 1 blank _ refl

full_Reached : Reached full_pool
unfolding claim configure reset choose next_free next_free_from take note_taken owns_session
full_Reached =
    claimed_by flights 7 _
      (claimed_by diagnostics 9 _
        (claimed_by flights 7 _ (claimed_by flights 7 _ empty_Reached (omega arith) refl)
          (omega arith) refl)
        (omega arith) refl)
      (omega arith) refl

floor_at_a_record_a_second : flights_floor_sectors 170 ≡ 128
unfolding flights_floor_sectors
floor_at_a_record_a_second = refl

full_pool-frontier : frontier full_pool flights ≡ some full_pool_newest
unfolding claim configure reset choose next_free next_free_from take note_taken owns_session
    frontier
full_pool-frontier = refl

full_pool_choice : choose full_pool diagnostics ≡ some 0
unfolding claim configure reset choose next_free next_free_from take note_taken owns_session
    frontier evictable oldest lowest_above matches owned
full_pool_choice = refl

-- The fifth claim of the flight recycles its own oldest sector, and the loss is counted.
recycled : lost_sectors (claim flights 7 full_pool).0 flights ≡ 1
unfolding claim configure reset choose next_free next_free_from take note_taken owns_session
    frontier evictable oldest lowest_above matches owned lost_sectors
recycled = refl

choose-frontier_example : IsOffered full_pool 0
unfolding claim configure reset choose next_free next_free_from take note_taken owns_session
choose-frontier_example = choose-frontier full_pool diagnostics 0 (omega arith) full_pool_choice

Reached-IsWellFormed_example : IsWellFormed full_pool
Reached-IsWellFormed_example = Reached-IsWellFormed full_Reached

capture_floor_example :
    (min full_pool.floor_sectors (owned full_pool flights)
      ≤ owned (claim diagnostics 9 full_pool).0 flights)
    × (min full_pool.floor_sectors (owned full_pool flights)
        ≤ owned (prepare diagnostics full_pool).0 flights)
unfolding claim configure reset choose next_free next_free_from take note_taken owns_session
capture_floor_example = capture_floor full_pool 9 (omega arith) (Reached-IsWellFormed full_Reached)

-- The third sector of the flight stands behind the capture's.
third_of_flight : session_sector full_pool flights 7 2 ≡ some 3
unfolding claim configure reset choose next_free next_free_from take note_taken owns_session
    session_sector bisect matching_up_to matches
third_of_flight = refl

session_sector-IsNth_example :
    IsNth full_pool (session_match flights 7) 2 (session_sector full_pool flights 7 2)
unfolding claim configure reset choose next_free next_free_from take note_taken owns_session
session_sector-IsNth_example =
    session_sector-IsNth full_pool flights 7 2 (Reached-IsWellFormed full_Reached) (λ e. cc)
      (omega arith)

abbrev whole_flight : SessionRun
whole_flight = record { session_id = 7; sectors = 3; last_sequence = 4 }

run_of_flight : session_run full_pool flights 0 ≡ some whole_flight
unfolding claim configure reset choose next_free next_free_from take note_taken owns_session
    session_run lowest_above matches
run_of_flight = refl

session_run-IsNextRun_example : IsNextRun full_pool flights 0 (session_run full_pool flights 0)
unfolding claim configure reset choose next_free next_free_from take note_taken owns_session
session_run-IsNextRun_example =
    session_run-IsNextRun full_pool flights 0 (Reached-IsWellFormed full_Reached) (λ e. cc)
      (omega arith)
