-- ===== src/Diagnostics/Payload.antt =====
-- firmware/core/diagnostics/payload.h, payload_decided.cpp and profile.h: the records that tell of
-- the log itself, and which types a profile lists.
use skyblip.Base.{
  ℕ, ◌^◌, ◌<◌, ◌≡◌, ◌≢◌, refl, Bool, true, false, if◌then◌else◌, [], ◌∷◌, ◌++◌, arith,
}
use skyblip.Util.LittleEndian.{put_uint16, put_uint32, get_uint16, get_uint32, uint32_bytes}
use skyblip.Diagnostics.Record.{RecordType, Instant, Record, framed}

pub data Profile : Type 0 where
  full power_run flight_run : Profile

-- The types that every profile but the full one lists.
abbrev pub listed : RecordType → Bool
listed RecordType.boot = true
listed RecordType.config = true
listed RecordType.power = true
listed RecordType.duty = true
listed RecordType.gap = true
listed RecordType.end = true
listed t = false

abbrev pub is_typed : RecordType → Bool
is_typed RecordType.none = false
is_typed t = true

abbrev pub lists : Profile → RecordType → Bool
lists Profile.full t = is_typed t
lists profile t = listed t

pub record Gap : Type 0 where
  pub dropped : ℕ
  pub span_ms : ℕ
  pub total : ℕ
  pub capacity : ℕ

abbrev pub no_gap : Gap
no_gap = record { dropped = 0; span_ms = 0; total = 0; capacity = 0 }

unfoldable pub record_of_gap : Gap → Instant → Record
record_of_gap g at = record (framed RecordType.gap at) {
  payload =
      put_uint32 g.dropped
      ++ put_uint32 g.span_ms
      ++ put_uint32 g.total
      ++ put_uint16 g.capacity
      ++ 0 ∷ 0 ∷ [];
}

abbrev is_gap : RecordType → Bool
is_gap RecordType.gap = true
is_gap t = false

unfoldable pub read_gap : Record → Gap → Bool × Gap
read_gap r out =
    if is_gap r.type
    then (
      true,
      record {
        dropped = get_uint32 r.payload 0;
        span_ms = get_uint32 r.payload 4;
        total = get_uint32 r.payload 8;
        capacity = get_uint16 r.payload 12;
      },
    )
    else (false, out)

-- What a gap tells fits its record.
pub read_gap-dropped :
    (g out : Gap) (at : Instant)
    → g.dropped < 2 ^ 32
    → ((read_gap (record_of_gap g at) out).0 ≡ true)
      × ((read_gap (record_of_gap g at) out).1.dropped ≡ g.dropped)
unfolding read_gap record_of_gap put_uint16 put_uint32 get_uint16 get_uint32
read_gap-dropped g out at fits = (refl, uint32_bytes g.dropped fits)

pub read_gap-other : (r : Record) (out : Gap) → r.type ≢ RecordType.gap → (read_gap r out).0 ≡ false
unfolding read_gap
read_gap-other r out ne = let other : is_gap r.type ≡ false = ground arith in rw other refl
