-- ===== src/Store/Sector/Tests.antt =====
-- Headers that can be followed in the source.
use skyblip.Base.{ℕ, ◌≡◌, refl, true, List, [], ◌∷◌, arith}
use skyblip.Util.Status.{ok, empty}
use skyblip.Util.LittleEndian.{put_uint16, put_uint32}
use skyblip.Fec.Crc.{crc16_ccitt}
use skyblip.Store.Sector.{
  flights, SectorHeader, sector_header, encode_sector_header, decode_sector_header,
}
use skyblip.Store.Sector.RoundTrip.{IsStorable, decode-encode}

abbrev first : SectorHeader
first = record {
  sequence = 0x01020304;
  session_id = 7;
  owner = flights;
  version = 2;
  record_bytes = 24;
  session_start = true;
}

abbrev blank : List ℕ
blank =
    0xff ∷ 0xff ∷ 0xff ∷ 0xff ∷ 0xff ∷ 0xff ∷ 0xff ∷ 0xff ∷ 0xff ∷ 0xff ∷ 0xff ∷ 0xff ∷ 0xff ∷ 0xff
    ∷ 0xff ∷ 0xff ∷ []

blank_is_empty : (decode_sector_header blank sector_header).0 ≡ empty
unfolding decode_sector_header
blank_is_empty = refl

abbrev written : List ℕ
unfolding encode_sector_header put_uint16 put_uint32 crc16_ccitt
written = encode_sector_header first

first-IsStorable : IsStorable first
first-IsStorable = record {
  sequence_fits = omega arith;
  session_fits = omega arith;
  record_fits = omega arith;
  version_is = refl;
  owned = λ e. cc;
}

decode-encode_example :
    decode_sector_header (encode_sector_header first) sector_header ≡ (ok, first)
decode-encode_example = decode-encode first sector_header first-IsStorable
