-- ===== src/Diagnostics/Record/RoundTrip.antt =====
-- A record and its 24 bytes.
use skyblip.Base.{
  ℕ, zero, suc, ◌+◌, ◌^◌, ◌≤◌, ◌<◌, ◌≡◌, ◌≢◌, refl, ◌∙◌, sym, ap, false, ◌||◌, ltb, ◌==◌, List, [],
  ◌∷◌, length, arith,
}
use skyblip.Util.Status.{Status, ok}
use skyblip.Util.LittleEndian.{
  put_uint16, put_uint32, get_uint16, get_uint32, byte_at, uint16_bytes, uint32_bytes,
}
use skyblip.Diagnostics.Record.{
  RecordType, none, code, type_of, Record, encode_record, decode_record, copied,
}

pub type_of-code : (t : RecordType) → type_of (code t) ≡ t
type_of-code RecordType.none = refl
type_of-code RecordType.boot = refl
type_of-code RecordType.config = refl
type_of-code RecordType.gnss = refl
type_of-code RecordType.pps = refl
type_of-code RecordType.burst = refl
type_of-code RecordType.dwell = refl
type_of-code RecordType.flight = refl
type_of-code RecordType.power = refl
type_of-code RecordType.barometer = refl
type_of-code RecordType.motion = refl
type_of-code RecordType.contact = refl
type_of-code RecordType.link = refl
type_of-code RecordType.traffic = refl
type_of-code RecordType.write = refl
type_of-code RecordType.screen = refl
type_of-code RecordType.gap = refl
type_of-code RecordType.end = refl
type_of-code RecordType.duty = refl
type_of-code RecordType.switch = refl
type_of-code RecordType.loop = refl

code-le : (t : RecordType) → code t ≤ 20
code-le t = ground arith

code-pos : (t : RecordType) → t ≢ none → 0 < code t
code-pos t ne = ground arith

-- A record that its bytes can hold.
pub record Fits (r : Record) : Type 0 where
  pub typed : r.type ≢ none
  pub ms : r.into_ms < 2 ^ 16
  pub s : r.at_s < 2 ^ 32
  pub sixteen : length r.payload ≡ 16

copied-∷ : (x : ℕ) (raw : List ℕ) (at n : ℕ) → copied (x ∷ raw) (suc at) n ≡ copied raw at n
copied-∷ x raw at zero = refl
copied-∷ x raw at (suc n) =
    let next : suc at + 1 ≡ suc (at + 1) = omega arith in
    ap (λ k. byte_at raw at ∷ k) (ap (λ i. copied (x ∷ raw) i n) next ∙ copied-∷ x raw (at + 1) n)

copied_all : (raw : List ℕ) → copied raw 0 (length raw) ≡ raw
copied_all [] = refl
copied_all (x ∷ raw) = ap (λ k. x ∷ k) (copied-∷ x raw 0 (length raw) ∙ copied_all raw)

same_record :
    (r : Record) {t : RecordType} {ms at : ℕ} {p : List ℕ}
    → t ≡ r.type
    → ms ≡ r.into_ms
    → at ≡ r.at_s
    → p ≡ r.payload
    → Path
        (Status × Record)
        (ok, record { type = t; flags = r.flags; into_ms = ms; at_s = at; payload = p })
        (ok, r)
same_record r ht hms hat hp = λ i.
    (ok, record { type = ht i; flags = r.flags; into_ms = hms i; at_s = hat i; payload = hp i })

-- A record with a type, an `into_ms` below 2 ^ 16, an `at_s` below 2 ^ 32 and a payload of sixteen
-- bytes is what `decode_record` reads from its encoding, whatever `out` held.
pub decode_record-encode_record :
    (r out : Record) → Fits r → decode_record (encode_record r) out ≡ (ok, r)
unfolding decode_record encode_record put_uint16 put_uint32 get_uint16 get_uint32
decode_record-encode_record r out fits =
    let le = code-le r.type in
    let first : (code r.type == 0xff) ≡ false = ground arith in
    let known : ((code r.type == 0) || ltb 20 (code r.type)) ≡ false =
      ground (arith, code-pos r.type fits.typed) in
    rw (first, known)
      (same_record r (type_of-code r.type) (uint16_bytes r.into_ms fits.ms)
        (uint32_bytes r.at_s fits.s)
        (ap (copied r.payload 0) (sym fits.sixteen) ∙ copied_all r.payload))
