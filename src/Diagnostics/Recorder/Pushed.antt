-- ===== src/Diagnostics/Recorder/Pushed.antt =====
-- One push: the record is kept, or counted among the losses.
use mathlib.Core.List.{append_assoc, append-nil}
use skyblip.Base.{
  ◌+◌, ◌^◌, ◌≤◌, ◌<◌, ◌≡◌, ◌≢◌, refl, ◌∙◌, sym, ap, inl, inr, Bool, true, false, if◌then◌else◌,
  List, [], ◌∷◌, ◌++◌, arith, Bool-cases, u32,
}
use skyblip.Diagnostics.Record.{RecordType, Record}
use skyblip.Diagnostics.Payload.{lists}
use skyblip.Diagnostics.Recorder.{Recorder, is_full, store, note_drop, flush_gap, push}
use skyblip.Diagnostics.Recorder.Account.{
  Event, kept, lost, losts, told_all, entries, account, IsRecorder, losts-suc, told_kept,
  told_all-store, store-IsRecorder, flush_gap-Flushed,
}

-- What a push does to the account, by what it answers.
abbrev pub event : Recorder → Record → Bool → List Event
event d r true = kept r ∷ []
event d r false = if lists d.profile r.type then lost ∷ [] else []

pub record Told (d e : Recorder) (before after : List Event) : Type 0 where
  pub valid : IsRecorder e
  pub same : account d ++ before ≡ after ++ account e
  pub pending : e.gap_dropped ≤ d.gap_dropped + 1
  pub armed : e.armed ≡ d.armed

account-note_drop :
    (r : Record) (d : Recorder)
    → d.gap_dropped + 1 < 2 ^ 32
    → account (note_drop r d) ≡ account d ++ lost ∷ []
account-note_drop r d fits =
    let fit : u32 (d.gap_dropped + 1) ≡ d.gap_dropped + 1 = omega arith in
    ap (λ n. told_all (entries d) ++ losts n) fit
    ∙ ap (λ l. told_all (entries d) ++ l) (losts-suc d.gap_dropped)
    ∙ sym (append_assoc (told_all (entries d)) (losts d.gap_dropped) (lost ∷ []))

account-store :
    (r : Record) (d : Recorder)
    → IsRecorder d
    → is_full d ≡ false
    → d.gap_dropped ≡ 0
    → r.type ≢ RecordType.gap
    → account (store r d) ≡ account d ++ kept r ∷ []
account-store r d v room none_left ne =
    ap (λ n. told_all (entries (store r d)) ++ losts n) none_left
    ∙ append-nil (told_all (entries (store r d)))
    ∙ told_all-store r d v room
    ∙ ap (λ l. told_all (entries d) ++ l) (told_kept r ne)
    ∙ ap (λ l. l ++ kept r ∷ []) (sym (append-nil (told_all (entries d))))
    ∙ ap (λ n. (told_all (entries d) ++ losts n) ++ kept r ∷ []) (sym none_left)

pub push-Told :
    (r : Record) (d : Recorder)
    → IsRecorder d
    → d.gap_dropped + 1 < 2 ^ 32
    → r.type ≢ RecordType.gap
    → Told d (push r d).0 (event d r (push r d).1) []
unfolding push
push-Told r d v fits ne = elim (Bool-cases (lists d.profile r.type)) [
  | inr unlisted ↦
      simp unlisted
        (record { valid = v; same = append-nil (account d); pending = omega arith; armed = refl })
  | inl listed ↦
      let f = flush_gap d in
      let flushed = flush_gap-Flushed d v (omega arith) in
      let less = flushed.pending in
      elim (Bool-cases (is_full f)) [
        | inl full ↦
            simp (listed, full)
              (record {
                valid = record { head = flushed.valid.head; count = flushed.valid.count };
                same =
                    ap (λ l. l ++ lost ∷ []) (sym flushed.same)
                    ∙ sym (account-note_drop r f (omega arith));
                pending = omega (arith, less);
                armed = flushed.armed;
              })
        | inr room ↦
            simp (listed, room)
              (record {
                valid = store-IsRecorder r f flushed.valid room;
                same =
                    ap (λ l. l ++ kept r ∷ []) (sym flushed.same)
                    ∙ sym (account-store r f flushed.valid room (flushed.announced room) ne);
                pending = omega (arith, less);
                armed = flushed.armed;
              })
      ]
]
