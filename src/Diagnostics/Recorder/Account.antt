-- ===== src/Diagnostics/Recorder/Account.antt =====
-- What the recorder's records tell of what it was offered: which were kept, and where some were lost.
use mathlib.Core.List.{append_assoc, append-nil}
use skyblip.Base.{
  ℕ, zero, suc, ◌+◌, ◌%◌, ◌^◌, ◌≤◌, ◌<◌, ◌≡◌, ◌≢◌, refl, ◌∙◌, sym, ap, inl, inr, false, ◌||◌, ◌==◌,
  if◌then◌else◌, List, [], ◌∷◌, ◌++◌, arith, Bool-cases,
}
use skyblip.Util.Fifo.Refine.{items, items-write}
use skyblip.Diagnostics.Record.{RecordType, Instant, Record}
use skyblip.Diagnostics.Payload.{
  Gap, no_gap, record_of_gap, read_gap, read_gap-dropped, read_gap-other,
}
use skyblip.Diagnostics.Recorder.{Recorder, gap_record, is_full, store, flush_gap, span_ms}

-- What became of a record that a profile lists.
pub data Event : Type 0 where
  kept : Record → Event
  lost : Event

abbrev pub losts : ℕ → List Event
losts zero = []
losts (suc n) = lost ∷ losts n

-- A gap tells of as many lost records as it counts, any other record of itself.
pub told : Record → List Event
unfolding read_gap
told r = let (is, g) = read_gap r no_gap in if is then losts g.dropped else kept r ∷ []

abbrev pub told_all : List Record → List Event
told_all [] = []
told_all (r ∷ rs) = told r ++ told_all rs

abbrev pub entries : Recorder → List Record
entries d = items 64 d.ring d.head d.count

-- What is in the ring, and the losses that no gap has told of yet.
abbrev pub account : Recorder → List Event
account d = told_all (entries d) ++ losts d.gap_dropped

pub record IsRecorder (d : Recorder) : Type 0 where
  pub head : d.head < 64
  pub count : d.count ≤ 64

pub losts-suc : (n : ℕ) → losts (n + 1) ≡ losts n ++ lost ∷ []
losts-suc zero = refl
losts-suc (suc n) =
    let next : suc n + 1 ≡ suc (n + 1) = omega arith in
    ap losts next ∙ ap (λ l. lost ∷ l) (losts-suc n)

pub told_all-++ : (xs ys : List Record) → told_all (xs ++ ys) ≡ told_all xs ++ told_all ys
told_all-++ [] ys = refl
told_all-++ (x ∷ xs) ys =
    ap (λ l. told x ++ l) (told_all-++ xs ys)
    ∙ sym (append_assoc (told x) (told_all xs) (told_all ys))

pub entries-store :
    (r : Record) (d : Recorder)
    → IsRecorder d
    → is_full d ≡ false
    → entries (store r d) ≡ entries d ++ r ∷ []
entries-store r d v room =
    let next : d.count + 1 ≡ suc d.count = omega arith in
    ap (items 64 (store r d).ring d.head) next
    ∙ items-write 64 d.ring d.head d.count ((d.head + d.count) % 64) r v.head (ground (arith, v))
        (ground (arith, v))

told-record_of_gap :
    (g : Gap) (at : Instant) → g.dropped < 2 ^ 32 → told (record_of_gap g at) ≡ losts g.dropped
unfolding told
told-record_of_gap g at fits =
    let (found, count) = read_gap-dropped g no_gap at fits in rw (found, count) refl

pub told_kept : (r : Record) → r.type ≢ RecordType.gap → told r ≡ kept r ∷ []
unfolding told
told_kept r ne = rw (read_gap-other r no_gap ne) refl

pub told_all-store :
    (r : Record) (d : Recorder)
    → IsRecorder d
    → is_full d ≡ false
    → told_all (entries (store r d)) ≡ told_all (entries d) ++ told r
told_all-store r d v room =
    ap told_all (entries-store r d v room)
    ∙ told_all-++ (entries d) (r ∷ [])
    ∙ ap (λ l. told_all (entries d) ++ l) (append-nil (told r))

pub store-IsRecorder :
    (r : Record) (d : Recorder) → IsRecorder d → is_full d ≡ false → IsRecorder (store r d)
store-IsRecorder r d v room = record { head = v.head; count = ground (arith, v) }

-- Announcing the gap changes where the losses stand, not what is told, and leaves none pending where
-- there is room.
pub record Flushed (d f : Recorder) : Type 0 where
  pub valid : IsRecorder f
  pub same : account f ≡ account d
  pub pending : f.gap_dropped ≤ d.gap_dropped
  pub announced : is_full f ≡ false → f.gap_dropped ≡ 0
  pub armed : f.armed ≡ d.armed

due-Flushed :
    (d : Recorder)
    → IsRecorder d
    → d.gap_dropped < 2 ^ 32
    → is_full d ≡ false
    → Flushed d (store (gap_record d) (record d { gap_dropped = 0 }))
due-Flushed d v fits room =
    let none_left = record d { gap_dropped = 0 } in
    let w : IsRecorder none_left = record { head = v.head; count = v.count } in
    record {
      valid = store-IsRecorder (gap_record d) none_left w room;
      same =
          append-nil (told_all (entries (store (gap_record d) none_left)))
          ∙ told_all-store (gap_record d) none_left w room
          ∙ ap (λ l. told_all (entries d) ++ l)
              (told-record_of_gap
                (record {
                  dropped = d.gap_dropped;
                  span_ms = span_ms d.gap_from d.gap_to;
                  total = d.dropped;
                  capacity = 64;
                })
                d.gap_from fits);
      pending = omega arith;
      announced = λ _. refl;
      armed = refl;
    }

pub flush_gap-Flushed :
    (d : Recorder) → IsRecorder d → d.gap_dropped < 2 ^ 32 → Flushed d (flush_gap d)
unfolding flush_gap
flush_gap-Flushed d v fits = elim (Bool-cases ((d.gap_dropped == 0) || is_full d)) [
  | inl idle ↦ simp idle (record {
    valid = v;
    same = refl;
    pending = omega arith;
    announced = ground (arith, idle);
    armed = refl;
  })
  | inr due ↦ simp due (due-Flushed d v fits (ground (arith, due)))
]
