-- ===== src/Store/Sector.antt =====
-- firmware/core/store/sector.h and sector.cpp: the sixteen bytes at the head of every claimed sector.
pub mod RoundTrip
mod Tests
use skyblip.Base.{
  ℕ, zero, suc, ◌+◌, ◌*◌, ◌/◌, ◌%◌, Bool, true, false, ◌&&◌, ◌||◌, not, List, [], ◌∷◌, ◌++◌,
  bit_and, ltb, ◌==◌, if◌then◌else◌,
}
use skyblip.Util.Status.{Status, ok, invalid, crc, unsupported, empty}
use skyblip.Util.LittleEndian.{put_uint16, put_uint32, get_uint16, get_uint32, byte_at}
use skyblip.Fec.Crc.{crc16_ccitt}

abbrev pub sector_magic : ℕ
sector_magic = 0x5342

abbrev pub sector_version : ℕ
sector_version = 2

abbrev pub sector_header_bytes : ℕ
sector_header_bytes = 16

pub data SectorOwner : Type 0 where
  no_owner flights diagnostics : SectorOwner

-- The value of the enumerator.
abbrev pub code : SectorOwner → ℕ
code no_owner = 0
code flights = 1
code diagnostics = 2

pub record SectorHeader : Type 0 where
  pub sequence : ℕ
  pub session_id : ℕ
  pub owner : SectorOwner
  pub version : ℕ
  pub record_bytes : ℕ
  pub session_start : Bool

abbrev pub sector_header : SectorHeader
sector_header = record {
  sequence = 0;
  session_id = 0;
  owner = no_owner;
  version = sector_version;
  record_bytes = 0;
  session_start = false;
}

abbrev pub owner_known : ℕ → Bool
owner_known c = (c == code flights) || (c == code diagnostics)

-- static_cast<SectorOwner> of a known code.
abbrev pub owner_of_code : ℕ → SectorOwner
owner_of_code c =
    if c == code flights then flights else if c == code diagnostics then diagnostics else no_owner

-- The fourteen bytes under the checksum.
abbrev pub checksummed : SectorHeader → List ℕ
checksummed h =
    put_uint16 sector_magic
    ++ h.version
      ∷ code h.owner
      ∷ (put_uint32 h.sequence
          ++ (put_uint32 h.session_id ++ h.record_bytes ∷ (if h.session_start then 1 else 0) ∷ []))

unfoldable pub encode_sector_header : SectorHeader → List ℕ
encode_sector_header h = checksummed h ++ put_uint16 (crc16_ccitt (checksummed h))

-- `for (i = 0; i < bytes; i++) if (raw[i] != 0xFF) return false;`.
abbrev pub erased : List ℕ → ℕ → Bool
erased raw zero = true
erased [] (suc n) = false
erased (b ∷ raw) (suc n) = (b == 0xff) && erased raw n

-- The first `n` bytes of a buffer.
abbrev pub take : ℕ → List ℕ → List ℕ
take zero raw = []
take (suc n) [] = []
take (suc n) (b ∷ raw) = b ∷ take n raw

-- The fields that are read once magic and checksum hold, before version and owner are looked at.
abbrev pub read_fields : List ℕ → SectorHeader
read_fields raw = record {
  sequence = get_uint32 raw 4;
  session_id = get_uint32 raw 8;
  owner = no_owner;
  version = byte_at raw 2;
  record_bytes = byte_at raw 12;
  session_start = ltb 0 (bit_and (byte_at raw 13) 1);
}

-- The status, and what the out parameter holds afterwards.
unfoldable pub decode_sector_header : List ℕ → SectorHeader → Status × SectorHeader
decode_sector_header raw out =
    if erased raw sector_header_bytes
    then (empty, out)
    else if not (get_uint16 raw 0 == sector_magic)
    then (invalid, out)
    else if not (crc16_ccitt (take 14 raw) == get_uint16 raw 14)
    then (crc, out)
    else let h = read_fields raw in
      if not (h.version == sector_version) || not (owner_known (byte_at raw 3))
      then (unsupported, h)
      else (ok, record h { owner = owner_of_code (byte_at raw 3) })
