-- ===== src/Store/Allocator/Search.antt =====
-- firmware/core/store/sector_allocator.cpp: `choose` and what it asks. The loop of `next_free` is
-- a recursion on the sectors left.
use skyblip.Base.{ℕ, zero, suc, ◌+◌, ◌%◌, ◌||◌, not, Option, none, some, ltb, ◌==◌, if◌then◌else◌}
use skyblip.Store.Sector.{SectorOwner, flights, diagnostics}
use skyblip.Store.Allocator.{SectorAllocator, free, frontier, oldest, owned, reserved}

-- The loop of `next_free` with `rounds` sectors left, at `start + step`.
unfoldable pub next_free_from : SectorAllocator → ℕ → ℕ → ℕ → Option ℕ
next_free_from a start step zero = none
next_free_from a start step (suc rounds) =
    let candidate = (start + step) % a.sector_count in
    let rest = next_free_from a start (step + 1) rounds in
    if not (a.owner_of candidate == free) || reserved a candidate then rest else some candidate

unfoldable pub next_free : SectorAllocator → Option ℕ
next_free a =
    let start = if a.claimed then (a.newest + 1) % a.sector_count else 0 in
    next_free_from a start 0 a.sector_count

unfoldable pub evictable : SectorAllocator → SectorOwner → Option ℕ
evictable a owner = elim (oldest a owner) [
  | none ↦ none
  | some o ↦ elim (frontier a owner) [
    | none ↦ none
    | some f ↦ if o.sector == f.sector then none else some o.sector
  ]
]

-- The first of two answers.
abbrev pub or_else : Option ℕ → Option ℕ → Option ℕ
or_else none second = second
or_else (some s) second = some s

unfoldable pub choose : SectorAllocator → SectorOwner → Option ℕ
choose a flights = or_else (next_free a) (or_else (evictable a diagnostics) (evictable a flights))
choose a owner = or_else (next_free a) (
    or_else (if ltb a.floor_sectors (owned a flights) then evictable a flights else none)
      (evictable a diagnostics))
