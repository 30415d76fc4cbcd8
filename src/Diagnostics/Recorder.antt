-- ===== src/Diagnostics/Recorder.antt =====
-- firmware/core/diagnostics/recorder.h and recorder.cpp: `Recorder`, the ring that records wait in
-- and the gap it announces when the ring was full. The array is a function on the index.
pub mod Account
pub mod Pushed
pub mod Announced
use skyblip.Base.{
  ℕ, zero, suc, ◌+◌, ◌-◌, ◌*◌, ◌%◌, Bool, true, false, not, ◌||◌, ltb, leb, ◌==◌, if◌then◌else◌,
  List, [], ◌∷◌, u32, u16,
}
use skyblip.Base.Scans.{write}
use skyblip.Diagnostics.Record.{Instant, Record, blank, instant}
use skyblip.Diagnostics.Payload.{Profile, lists, record_of_gap}

abbrev pub max_records : ℕ
max_records = 64

pub record Recorder : Type 0 where
  pub ring : ℕ → Record
  pub gap_from : Instant
  pub gap_to : Instant
  pub gap_dropped : ℕ
  pub written : ℕ
  pub dropped : ℕ
  pub head : ℕ
  pub count : ℕ
  pub profile : Profile
  pub armed : Bool

abbrev never : Instant
never = record { at_s = 0; into_ms = 0; phase_valid = false; utc_dated = false }

abbrev pub recorder : Recorder
recorder = record {
  ring = λ _. blank;
  gap_from = never;
  gap_to = never;
  gap_dropped = 0;
  written = 0;
  dropped = 0;
  head = 0;
  count = 0;
  profile = Profile.full;
  armed = false;
}

-- The signed difference in milliseconds, held between 0 and 2 ^ 32 - 1.
abbrev pub span_ms : Instant → Instant → ℕ
span_ms from to =
    let span = to.at_s * 1000 + to.into_ms - (from.at_s * 1000 + from.into_ms) in
    if leb (to.at_s * 1000 + to.into_ms) (from.at_s * 1000 + from.into_ms)
    then 0
    else if ltb 0xffffffff span
    then 0xffffffff
    else span

unfoldable pub arm : Profile → Recorder → Recorder
arm profile d = if d.armed then d else record d {
  head = 0;
  count = 0;
  written = 0;
  dropped = 0;
  gap_dropped = 0;
  profile = profile;
  armed = true;
}

abbrev pub disarm : Recorder → Recorder
disarm d = record d { armed = false }

abbrev pub is_full : Recorder → Bool
is_full d = d.count == max_records

abbrev pub store : Record → Recorder → Recorder
store r d = record d {
  ring = write d.ring ((d.head + d.count) % max_records) r;
  count = d.count + 1;
  written = u32 (d.written + 1);
}

abbrev pub note_drop : Record → Recorder → Recorder
note_drop r d = record d {
  gap_from = if d.gap_dropped == 0 then instant r else d.gap_from;
  gap_to = instant r;
  gap_dropped = u32 (d.gap_dropped + 1);
  dropped = u32 (d.dropped + 1);
}

abbrev pub gap_record : Recorder → Record
gap_record d =
    record_of_gap
      (record {
        dropped = d.gap_dropped;
        span_ms = span_ms d.gap_from d.gap_to;
        total = d.dropped;
        capacity = u16 max_records;
      })
      d.gap_from

unfoldable pub flush_gap : Recorder → Recorder
flush_gap d =
    if (d.gap_dropped == 0) || is_full d
    then d
    else store (gap_record d) (record d { gap_dropped = 0 })

unfoldable pub push : Record → Recorder → Recorder × Bool
push r d =
    if not (lists d.profile r.type)
    then (d, false)
    else let f = flush_gap d in if is_full f then (note_drop r f, false) else (store r f, true)

unfoldable pub offer : Record → Recorder → Recorder × Bool
unfolding push
offer r d = if not d.armed then (d, false) else push r d

-- The loop that copies the oldest records out, at the index `i`.
abbrev pub copied_out : Recorder → ℕ → ℕ → List Record
copied_out d i zero = []
copied_out d i (suc n) = d.ring ((d.head + i) % max_records) ∷ copied_out d (i + 1) n

unfoldable pub peek : ℕ → Recorder → Recorder × List Record
unfolding flush_gap
peek most d =
    let f = flush_gap d in (f, copied_out f 0 (if ltb f.count most then f.count else most))

unfoldable pub commit : Recorder → Recorder
commit d =
    if d.count == 0 then d else record d { head = (d.head + 1) % max_records; count = d.count - 1 }
