-- ===== src/Store/Allocator/Sessions.antt =====
-- firmware/core/store/sector_allocator.cpp: `session_run` and `session_sector`, the sectors of a
-- session in the order of their labels. The bisection is a recursion on fuel: its span is of words of
-- 32 bits and halves at each turn, so 32 turns are enough.
pub mod Counted
pub mod Bisected
pub mod Nth
pub mod Loops
pub mod Run
use skyblip.Base.{
  ℕ, zero, suc, ◌+◌, ◌-◌, ◌/◌, ◌%◌, ◌^◌, Bool, true, false, not, ◌||◌, ◌&&◌, Option, none, some,
  ltb, leb, ◌==◌, if◌then◌else◌, u32, sub32, max, min,
}
use skyblip.Base.Scans.{first}
use skyblip.Store.Sector.{SectorOwner}
use skyblip.Store.Allocator.{
  SectorAllocator, Match, SessionRun, Found, scan, matches, matching_up_to, lowest_above, any_of,
  owned_by,
}

abbrev pub uint32_max : ℕ
uint32_max = 0xffffffff

abbrev pub session_match : SectorOwner → ℕ → Match
session_match owner session_id = record {
  owner = owner;
  any_session = false;
  session_id = session_id;
}

-- The first loop of `session_run`: the lowest label above the bound of another session.
abbrev pub until_body : SectorAllocator → SectorOwner → ℕ → ℕ → ℕ → ℕ → ℕ
until_body a owner session_id above c until =
    if not (owned_by a owner c) || (a.session_id_of c == session_id)
    then until
    else if ltb above (a.sequence_of c) && ltb (a.sequence_of c) until
    then a.sequence_of c
    else until

-- The second: the sectors of the session between the two.
abbrev pub run_body : SectorAllocator → Match → ℕ → ℕ → ℕ → SessionRun → SessionRun
run_body a m above until c run =
    if not (matches a m c) || leb (a.sequence_of c) above || leb until (a.sequence_of c)
    then run
    else record run {
      sectors = run.sectors + 1;
      last_sequence = max run.last_sequence (a.sequence_of c);
    }

abbrev pub run_of : SectorAllocator → SectorOwner → ℕ → ℕ → SessionRun
run_of a owner above session_id =
    let until = scan a.sector_count (until_body a owner session_id above) uint32_max in
    scan a.sector_count (run_body a (session_match owner session_id) above until)
      (record { session_id = session_id; sectors = 0; last_sequence = 0 })

abbrev pub run_from : SectorAllocator → SectorOwner → ℕ → Option Found → Option SessionRun
run_from a owner above none = none
run_from a owner above (some f) = some (run_of a owner above (a.session_id_of f.sector))

unfoldable pub session_run : SectorAllocator → SectorOwner → ℕ → Option SessionRun
session_run a owner above = run_from a owner above (lowest_above a (any_of owner) above)

-- What the first loop of `session_sector` holds.
pub record Span : Type 0 where
  pub count : ℕ
  pub lowest : ℕ
  pub highest : ℕ

abbrev pub no_span : Span
no_span = record { count = 0; lowest = uint32_max; highest = 0 }

abbrev pub span_body : SectorAllocator → Match → ℕ → Span → Span
span_body a m c s = if not (matches a m c) then s else record {
  count = suc s.count;
  lowest = min s.lowest (a.sequence_of c);
  highest = max s.highest (a.sequence_of c);
}

abbrev pub span_of : SectorAllocator → Match → Span
span_of a m = scan a.sector_count (span_body a m) no_span

abbrev pub middle_of : ℕ → ℕ → ℕ
middle_of low high = low + (high - low) / 2

-- One turn of the bisection: `low` and `high` after it.
abbrev pub halved : SectorAllocator → Match → ℕ → ℕ → ℕ → ℕ × ℕ
halved a m index low high =
    let middle = middle_of low high in
    if ltb index (matching_up_to a m middle) then (low, middle) else (u32 (middle + 1), high)

unfoldable pub bisect : SectorAllocator → Match → ℕ → ℕ → ℕ → ℕ → ℕ
bisect a m index zero low high = low
bisect a m index (suc fuel) low high =
    let next = halved a m index low high in
    let go_on = bisect a m index fuel next.0 next.1 in if ltb low high then go_on else low

abbrev pub labelled : SectorAllocator → Match → ℕ → ℕ → Bool
labelled a m label c = matches a m c && (a.sequence_of c == label)

unfoldable pub session_sector : SectorAllocator → SectorOwner → ℕ → ℕ → Option ℕ
session_sector a owner session_id index =
    let m = session_match owner session_id in
    let span = span_of a m in
    let low = u32 (span.lowest + index) in
    let high = sub32 span.highest (span.count - 1 - index) in
    let label = bisect a m index 32 low high in
    if leb span.count index then none else first (labelled a m label) a.sector_count
