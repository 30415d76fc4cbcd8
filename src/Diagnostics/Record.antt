-- ===== src/Diagnostics/Record.antt =====
-- firmware/core/diagnostics/record.h and record.cpp: a record of 24 bytes. `out` of the source is an
-- argument and a result, and the payload's array is a list of 16 bytes.
pub mod RoundTrip
use skyblip.Base.{
  ℕ, zero, suc, ◌+◌, ◌/◌, ◌%◌, Bool, true, false, not, ◌||◌, ltb, ◌==◌, if◌then◌else◌, List, [],
  ◌∷◌, ◌++◌, get_or, bit_and, bit_or,
}
use skyblip.Util.Status.{Status, ok, empty, unsupported}
use skyblip.Util.LittleEndian.{put_uint16, put_uint32, get_uint16, get_uint32, byte_at}
use skyblip.Store.Sector.{erased}

abbrev pub record_bytes : ℕ
record_bytes = 24

abbrev pub payload_bytes : ℕ
payload_bytes = 16

abbrev pub payload_offset : ℕ
payload_offset = 8

pub data RecordType : Type 0 where
  none boot config gnss pps burst dwell flight power barometer motion contact link traffic write
        screen gap end duty switch loop :
      RecordType

-- The enumerators in their order, and back from a byte, as `static_cast` gives them.
abbrev pub code : RecordType → ℕ
code none = 0
code boot = 1
code config = 2
code gnss = 3
code pps = 4
code burst = 5
code dwell = 6
code flight = 7
code power = 8
code barometer = 9
code motion = 10
code contact = 11
code link = 12
code traffic = 13
code write = 14
code screen = 15
code gap = 16
code end = 17
code duty = 18
code switch = 19
code loop = 20

abbrev pub types : List RecordType
types =
    none ∷ boot ∷ config ∷ gnss ∷ pps ∷ burst ∷ dwell ∷ flight ∷ power ∷ barometer ∷ motion
    ∷ contact ∷ link ∷ traffic ∷ write ∷ screen ∷ gap ∷ end ∷ duty ∷ switch ∷ loop ∷ []

abbrev pub type_of : ℕ → RecordType
type_of byte = get_or types byte none

abbrev pub highest_type : ℕ
highest_type = code loop

abbrev pub flag_phase_valid : ℕ
flag_phase_valid = 1

abbrev pub flag_utc_dated : ℕ
flag_utc_dated = 2

pub record Instant : Type 0 where
  pub at_s : ℕ
  pub into_ms : ℕ
  pub phase_valid : Bool
  pub utc_dated : Bool

pub record Record : Type 0 where
  pub type : RecordType
  pub flags : ℕ
  pub into_ms : ℕ
  pub at_s : ℕ
  pub payload : List ℕ

abbrev zeros : ℕ → List ℕ
zeros zero = []
zeros (suc n) = 0 ∷ zeros n

abbrev pub blank : Record
blank = record { type = none; flags = 0; into_ms = 0; at_s = 0; payload = zeros payload_bytes }

abbrev pub flagged : Record → ℕ → Bool
flagged r bit = not (bit_and r.flags bit == 0)

abbrev pub instant : Record → Instant
instant r = record {
  at_s = r.at_s;
  into_ms = r.into_ms;
  phase_valid = flagged r flag_phase_valid;
  utc_dated = flagged r flag_utc_dated;
}

abbrev pub set_flag : ℕ → ℕ → Bool → ℕ
set_flag flags bit on = if on then bit_or flags bit else flags

abbrev pub framed : RecordType → Instant → Record
framed type at = record blank {
  type = type;
  at_s = at.at_s;
  into_ms = at.into_ms;
  flags = set_flag (set_flag 0 flag_phase_valid at.phase_valid) flag_utc_dated at.utc_dated;
}

unfoldable pub encode_record : Record → List ℕ
encode_record r = code r.type ∷ r.flags ∷ put_uint16 r.into_ms ++ put_uint32 r.at_s ++ r.payload

-- The `n` bytes from an index on.
abbrev pub copied : List ℕ → ℕ → ℕ → List ℕ
copied raw at zero = []
copied raw at (suc n) = byte_at raw at ∷ copied raw (at + 1) n

unfoldable pub decode_record : List ℕ → Record → Status × Record
decode_record raw out =
    if erased raw record_bytes
    then (empty, out)
    else if (byte_at raw 0 == 0) || ltb highest_type (byte_at raw 0)
    then (unsupported, out)
    else (
      ok,
      record {
        type = type_of (byte_at raw 0);
        flags = byte_at raw 1;
        into_ms = get_uint16 raw 2;
        at_s = get_uint32 raw 4;
        payload = copied raw payload_offset payload_bytes;
      },
    )
