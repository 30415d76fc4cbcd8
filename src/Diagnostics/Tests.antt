-- ===== src/Diagnostics/Tests.antt =====
-- Tests: a record's bytes, and a ring that overflows.
use skyblip.Base.{◌≡◌, refl, true, List, [], ◌∷◌, ◌++◌, arith}
use skyblip.Util.Status.{ok}
use skyblip.Diagnostics.Record.{
  RecordType, Instant, Record, blank, framed, encode_record, decode_record, instant,
}
use skyblip.Diagnostics.Record.RoundTrip.{Fits, decode_record-encode_record}
use skyblip.Diagnostics.Payload.{Profile}
use skyblip.Diagnostics.Recorder.{recorder, arm}
use skyblip.Diagnostics.Recorder.Account.{told_all, account}
use skyblip.Diagnostics.Recorder.Announced.{
  Call, record_it, look, take, after_all, offered_all, taken_all, offered_all-told,
}

abbrev noon : Instant
noon = record { at_s = 43200; into_ms = 250; phase_valid = true; utc_dated = true }

abbrev fix : Record
fix = framed RecordType.gnss noon

at_noon : instant fix ≡ noon
at_noon = refl

fix-Fits : Fits fix
fix-Fits = record { typed = ground arith; ms = omega arith; s = omega arith; sixteen = refl }

decode_record-encode_record_example : decode_record (encode_record fix) blank ≡ (ok, fix)
decode_record-encode_record_example = decode_record-encode_record fix blank fix-Fits

abbrev calls : List Call
calls = record_it fix ∷ look 4 ∷ record_it fix ∷ take ∷ []

offered_all-told_example :
    offered_all (arm Profile.full recorder) calls
    ≡ told_all (taken_all (arm Profile.full recorder) calls)
      ++ account (after_all (arm Profile.full recorder) calls)
offered_all-told_example =
    offered_all-told Profile.full calls (omega arith) (ground arith, (tt, (ground arith, (tt, tt))))
