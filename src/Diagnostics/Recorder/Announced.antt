-- ===== src/Diagnostics/Recorder/Announced.antt =====
-- Every record that the recorder was offered is told of, in order: kept, or lost in a gap.
use mathlib.Core.List.{append_assoc, append-nil}
use skyblip.Base.{
  ℕ, suc, ◌+◌, ◌-◌, ◌%◌, ◌^◌, ◌<◌, ◌≡◌, ◌≢◌, refl, ◌∙◌, sym, ap, inl, inr, true, false, ltb, ◌==◌,
  if◌then◌else◌, List, [], ◌∷◌, ◌++◌, length, arith, Bool-cases,
}
use skyblip.Util.Fifo.Refine.{items}
use skyblip.Diagnostics.Record.{RecordType, Record}
use skyblip.Diagnostics.Payload.{Profile}
use skyblip.Diagnostics.Recorder.{
  Recorder, recorder, arm, flush_gap, offer, peek, commit, copied_out,
}
use skyblip.Diagnostics.Recorder.Account.{
  Event, losts, told, told_all, entries, account, IsRecorder, told_all-++, flush_gap-Flushed,
}
use skyblip.Diagnostics.Recorder.Pushed.{event, Told, push-Told}

-- A client's calls: a record offered, a look at the oldest ones, and the oldest one taken, which is
-- looked at and committed.
pub data Call : Type 0 where
  record_it : Record → Call
  look : ℕ → Call
  take : Call

abbrev pub after : Recorder → Call → Recorder
after d (record_it r) = (offer r d).0
after d (look most) = (peek most d).0
after d take = commit (peek 1 d).0

-- What a call adds to the offered records, and to those that the client has taken.
abbrev pub offered : Recorder → Call → List Event
offered d (record_it r) = event d r (offer r d).1
offered d (look most) = []
offered d take = []

abbrev pub taken : Recorder → Call → List Record
taken d (record_it r) = []
taken d (look most) = []
taken d take = (peek 1 d).1

offer-Told :
    (r : Record) (d : Recorder)
    → IsRecorder d
    → d.armed ≡ true
    → d.gap_dropped + 1 < 2 ^ 32
    → r.type ≢ RecordType.gap
    → Told d (offer r d).0 (event d r (offer r d).1) []
unfolding offer
offer-Told r d v on fits ne = simp on (push-Told r d v fits ne)

peek-Told :
    (most : ℕ) (d : Recorder) → IsRecorder d → d.gap_dropped < 2 ^ 32 → Told d (peek most d).0 [] []
unfolding peek
peek-Told most d v fits =
    let flushed = flush_gap-Flushed d v fits in
    let less = flushed.pending in
    record {
      valid = flushed.valid;
      same = append-nil (account d) ∙ sym flushed.same;
      pending = omega (arith, less);
      armed = flushed.armed;
    }

-- The record that is looked at is the one that a commit drops.
none_out : (n : ℕ) → (n == 0) ≡ true → (if ltb n 1 then n else 1) ≡ 0
none_out n empty = ground arith

one_out : (n : ℕ) → (n == 0) ≡ false → (if ltb n 1 then n else 1) ≡ 1
one_out n some = ground arith

oldest_out : (f : Recorder) → IsRecorder f → copied_out f 0 1 ≡ f.ring f.head ∷ []
oldest_out f v = let h = v.head in ap (λ i. f.ring i ∷ []) (omega (arith, h))

entries-pred :
    (f : Recorder)
    → (f.count == 0) ≡ false
    → entries f
      ≡ f.ring f.head ∷ entries (record f { head = (f.head + 1) % 64; count = f.count - 1 })
entries-pred f some =
    let fewer : f.count ≡ suc (f.count - 1) = ground (arith, some) in
    ap (items 64 f.ring f.head) fewer

account-commit :
    (f : Recorder)
    → IsRecorder f
    → account f
      ≡ told_all (copied_out f 0 (if ltb f.count 1 then f.count else 1)) ++ account (commit f)
unfolding commit
account-commit f v = elim (Bool-cases (f.count == 0)) [
  | inl empty ↦
      let none = none_out f.count empty in
      simp empty (sym (ap (λ n. told_all (copied_out f 0 n) ++ account f) none))
  | inr some ↦
      let one = one_out f.count some in
      let rest = record f { head = (f.head + 1) % 64; count = f.count - 1 } in
      let oldest = told (f.ring f.head) in
      simp some (
        ap (λ l. told_all l ++ losts f.gap_dropped) (entries-pred f some)
        ∙ append_assoc oldest (told_all (entries rest)) (losts f.gap_dropped)
        ∙ ap (λ l. l ++ account rest) (sym (append-nil oldest))
        ∙ ap (λ l. told_all l ++ account rest) (sym (oldest_out f v))
        ∙ ap (λ n. told_all (copied_out f 0 n) ++ account rest) (sym one))
]

commit-IsRecorder : (f : Recorder) → IsRecorder f → IsRecorder (commit f)
unfolding commit
commit-IsRecorder f v = ground (arith, v)

commit-kept :
    (f : Recorder) → ((commit f).gap_dropped ≡ f.gap_dropped) × ((commit f).armed ≡ f.armed)
unfolding commit
commit-kept f = ground arith

take-Told :
    (d : Recorder)
    → IsRecorder d
    → d.gap_dropped < 2 ^ 32
    → Told d (commit (peek 1 d).0) [] (told_all (peek 1 d).1)
unfolding peek
take-Told d v fits =
    let flushed = flush_gap-Flushed d v fits in
    let less = flushed.pending in
    let (gap, on) = commit-kept (flush_gap d) in
    record {
      valid = commit-IsRecorder (flush_gap d) flushed.valid;
      same = append-nil (account d) ∙ sym flushed.same ∙ account-commit (flush_gap d) flushed.valid;
      pending = omega (arith, less, gap);
      armed = on ∙ flushed.armed;
    }

-- No client offers a gap of its own.
abbrev pub IsOwn : Call → Type 0
IsOwn (record_it r) = r.type ≢ RecordType.gap
IsOwn (look most) = Unit
IsOwn take = Unit

abbrev pub AllOwn : List Call → Type 0
AllOwn [] = Unit
AllOwn (call ∷ calls) = IsOwn call × AllOwn calls

after-Told :
    (call : Call) (d : Recorder)
    → IsRecorder d
    → d.armed ≡ true
    → d.gap_dropped + 1 < 2 ^ 32
    → IsOwn call
    → Told d (after d call) (offered d call) (told_all (taken d call))
after-Told (record_it r) d v on fits own = offer-Told r d v on fits own
after-Told (look most) d v on fits own = peek-Told most d v (omega arith)
after-Told take d v on fits own = take-Told d v (omega arith)

abbrev pub after_all : Recorder → List Call → Recorder
after_all d [] = d
after_all d (call ∷ calls) = after_all (after d call) calls

abbrev pub offered_all : Recorder → List Call → List Event
offered_all d [] = []
offered_all d (call ∷ calls) = offered d call ++ offered_all (after d call) calls

abbrev pub taken_all : Recorder → List Call → List Record
taken_all d [] = []
taken_all d (call ∷ calls) = taken d call ++ taken_all (after d call) calls

account-run :
    (calls : List Call) (d : Recorder)
    → IsRecorder d
    → d.armed ≡ true
    → d.gap_dropped + length calls < 2 ^ 32
    → AllOwn calls
    → account d ++ offered_all d calls ≡ told_all (taken_all d calls) ++ account (after_all d calls)
account-run [] d v on fits own = append-nil (account d)
account-run (call ∷ calls) d v on fits own =
    let one = after-Told call d v on (omega arith) own.0 in
    let less = one.pending in
    let e = after d call in
    let rest = account-run calls e one.valid (one.armed ∙ on) (omega (arith, less)) own.1 in
    sym (append_assoc (account d) (offered d call) (offered_all e calls))
    ∙ ap (λ l. l ++ offered_all e calls) one.same
    ∙ append_assoc (told_all (taken d call)) (account e) (offered_all e calls)
    ∙ ap (λ l. told_all (taken d call) ++ l) rest
    ∙ sym (
        append_assoc (told_all (taken d call)) (told_all (taken_all e calls))
          (account (after_all e calls)))
    ∙ ap (λ l. l ++ account (after_all e calls))
        (sym (told_all-++ (taken d call) (taken_all e calls)))

-- After a new recorder is armed, and through fewer than 2 ^ 32 calls of a client that offers no gap of
-- its own, what the records taken so far and then those in the ring tell, with the losses that wait
-- for a gap behind them, is what was offered: each listed record in its order, kept if it was
-- accepted and otherwise counted, at its place, by a gap.
pub offered_all-told :
    (profile : Profile) (calls : List Call)
    → length calls < 2 ^ 32
    → AllOwn calls
    → offered_all (arm profile recorder) calls
      ≡ told_all (taken_all (arm profile recorder) calls)
        ++ account (after_all (arm profile recorder) calls)
unfolding arm
offered_all-told profile calls fits own =
    account-run calls (arm profile recorder) (record { head = omega arith; count = omega arith })
      refl (omega arith) own
