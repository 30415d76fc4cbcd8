-- ===== src/Store/Sector/RoundTrip.antt =====
-- A header that is written reads back, and a header that reads is one that was written.
use skyblip.Base.{
  ℕ, zero, suc, ◌+◌, ◌<<<◌, ◌^◌, ◌<◌, ◌≡◌, ◌≢◌, refl, ◌∙◌, sym, ap, Bool, true, false, ◌||◌, not,
  List, [], ◌∷◌, ◌++◌, arith, ltb, ◌==◌, ==_iff, bit_and, if◌then◌else◌, length, All,
}
use skyblip.Util.Status.{Status, ok, invalid, crc, unsupported, empty}
use skyblip.Util.LittleEndian.{
  put_uint16, put_uint32, get_uint16, get_uint32, byte_at, uint16_bytes, uint32_bytes,
}
use skyblip.Fec.Crc.{crc16_ccitt, crc16_ccitt-lt}
use skyblip.Store.Sector.{
  SectorOwner, no_owner, SectorHeader, encode_sector_header, decode_sector_header, checksummed,
  read_fields, erased, owner_known, owner_of_code, code, take,
}

-- What the firmware writes: this version, a known owner, and fields that fit their bytes.
pub record IsStorable (h : SectorHeader) : Type 0 where
  pub sequence_fits : h.sequence < 2 ^ 32
  pub session_fits : h.session_id < 2 ^ 32
  pub record_fits : h.record_bytes < 256
  pub version_is : h.version ≡ 2
  pub owned : h.owner ≢ no_owner

put_crc : (h : SectorHeader) → get_uint16 (encode_sector_header h) 14 ≡ crc16_ccitt (checksummed h)
unfolding encode_sector_header put_uint16 put_uint32 get_uint16
put_crc h = uint16_bytes (crc16_ccitt (checksummed h)) (crc16_ccitt-lt (checksummed h))

take-checksummed : (h : SectorHeader) → take 14 (encode_sector_header h) ≡ checksummed h
unfolding encode_sector_header put_uint16 put_uint32
take-checksummed h = refl

flag_bit : (b : Bool) → ltb 0 (bit_and (if b then 1 else 0) 1) ≡ b
flag_bit true = refl
flag_bit false = refl

owner_of_code-code : (o : SectorOwner) → owner_of_code (code o) ≡ o
owner_of_code-code no_owner = refl
owner_of_code-code o = refl

read_encoded :
    (h : SectorHeader)
    → IsStorable h
    → record (read_fields (encode_sector_header h)) { owner = owner_of_code (code h.owner) } ≡ h
unfolding encode_sector_header put_uint16 put_uint32 get_uint32
read_encoded h s =
    rw
      (
        uint32_bytes h.sequence s.sequence_fits,
        uint32_bytes h.session_id s.session_fits,
        flag_bit h.session_start,
        owner_of_code-code h.owner,
      )
      refl

encoded_bytes :
    (h : SectorHeader)
    → (erased (encode_sector_header h) 16 ≡ false)
      × (get_uint16 (encode_sector_header h) 0 ≡ 0x5342)
      × (byte_at (encode_sector_header h) 2 ≡ h.version)
      × (byte_at (encode_sector_header h) 3 ≡ code h.owner)
unfolding encode_sector_header put_uint16 put_uint32 get_uint16
encoded_bytes h = (refl, refl, refl, refl)

owner_known-code : (o : SectorOwner) → o ≢ no_owner → owner_known (code o) ≡ true
owner_known-code no_owner h = absurd (h refl)
owner_known-code o h = refl

-- Every header that the firmware writes reads back as it was, whatever the reader held before.
pub decode-encode :
    (h out : SectorHeader)
    → IsStorable h
    → decode_sector_header (encode_sector_header h) out ≡ (ok, h)
unfolding decode_sector_header
decode-encode h out s =
    let raw = encode_sector_header h in
    let bytes = encoded_bytes h in
    rw
      (
        bytes.0,
        bytes.1,
        bytes.3,
        take-checksummed h,
        put_crc h,
        owner_known-code h.owner s.owned,
        (==_iff (crc16_ccitt (checksummed h)) (crc16_ccitt (checksummed h))).1 refl,
        (==_iff (byte_at raw 2) 2).1 (bytes.2 ∙ s.version_is),
      )
      (ap (λ (x : SectorHeader). (ok, x)) (read_encoded h s))

-- Reading the other way.
uint32_read :
    (a b c d : ℕ)
    → a < 256
    → b < 256
    → c < 256
    → d < 256
    → put_uint32 (a + b <<< 8 + c <<< 16 + d <<< 24) ≡ a ∷ b ∷ c ∷ d ∷ []
unfolding put_uint32
uint32_read a b c d ha hb hc hd = ground arith

uint16_read : (a b : ℕ) → a < 256 → b < 256 → put_uint16 (a + b <<< 8) ≡ a ∷ b ∷ []
unfolding put_uint16
uint16_read a b ha hb = ground arith

-- What an accepted header says of its sixteen bytes.
record IsAccepted (raw : List ℕ) (h : SectorHeader) : Type 0 where
  magic : get_uint16 raw 0 ≡ 0x5342
  checked : crc16_ccitt (take 14 raw) ≡ get_uint16 raw 14
  version : byte_at raw 2 ≡ 2
  known : owner_known (byte_at raw 3) ≡ true
  fields : h ≡ record (read_fields raw) { owner = owner_of_code (byte_at raw 3) }

-- The ladder of refusals, over any tests.
accepted :
    (blank m c v k : Bool) (out read h' h : SectorHeader)
    → ◌≡◌ {A = Status × SectorHeader}
        (if blank
          then (empty, out)
          else if not m
          then (invalid, out)
          else if not c
          then (crc, out)
          else if not v || not k
          then (unsupported, read)
          else (ok, h'))
        (ok, h)
    → (m ≡ true) × (c ≡ true) × (v ≡ true) × (k ≡ true) × (h ≡ h')
accepted blank m c v k out read h' h e = ground arith

decode-IsAccepted :
    (raw : List ℕ) (out h : SectorHeader)
    → decode_sector_header raw out ≡ (ok, h)
    → IsAccepted raw h
unfolding decode_sector_header
decode-IsAccepted raw out h e =
    let (m, c, v, k, f) =
      accepted (erased raw 16) (get_uint16 raw 0 == 0x5342)
        (crc16_ccitt (take 14 raw) == get_uint16 raw 14) (byte_at raw 2 == 2)
        (owner_known (byte_at raw 3)) out (read_fields raw) _ h e in
    record {
      magic = (==_iff _ _).0 m;
      checked = (==_iff _ _).0 c;
      version = (==_iff _ _).0 v;
      known = k;
      fields = f;
    }

-- A buffer of sixteen bytes.
abbrev pub IsSixteen : List ℕ → Type 0
IsSixteen raw = (length raw ≡ 16) × All (λ b. b < 256) raw

code-owner_of_code : (c : ℕ) → owner_known c ≡ true → code (owner_of_code c) ≡ c
code-owner_of_code c h = ground arith

flag_byte : (b : ℕ) → b < 2 → (if ltb 0 (bit_and b 1) then 1 else 0) ≡ b
flag_byte zero h = refl
flag_byte (suc zero) h = refl
flag_byte (suc (suc b)) h = absurd (omega arith)

-- A list is its bytes, read one by one.
abbrev reads_from : ℕ → ℕ → List ℕ → List ℕ
reads_from i zero raw = []
reads_from i (suc n) raw = byte_at raw i ∷ reads_from (suc i) n raw

reads_from-cons : (i n x : ℕ) (xs : List ℕ) → reads_from (suc i) n (x ∷ xs) ≡ reads_from i n xs
reads_from-cons i zero x xs = refl
reads_from-cons i (suc n) x xs = ap (λ l. byte_at xs i ∷ l) (reads_from-cons (suc i) n x xs)

reads_from-eq : (n : ℕ) (raw : List ℕ) → length raw ≡ n → reads_from 0 n raw ≡ raw
reads_from-eq zero [] e = refl
reads_from-eq zero (x ∷ xs) e = absurd (omega arith)
reads_from-eq (suc n) [] e = absurd (omega arith)
reads_from-eq (suc n) (x ∷ xs) e =
    ap (λ l. x ∷ l) (reads_from-cons 0 n x xs ∙ reads_from-eq n xs (omega arith))

byte_at-lt : (raw : List ℕ) (i : ℕ) → All (λ b. b < 256) raw → byte_at raw i < 256
byte_at-lt [] i h = omega arith
byte_at-lt (x ∷ xs) zero h = h.0
byte_at-lt (x ∷ xs) (suc i) h = byte_at-lt xs i h.1

module _ (raw : List ℕ) (s : IsSixteen raw) where
  byte-lt : (i : ℕ) → byte_at raw i < 256
  byte-lt i = byte_at-lt raw i s.1

  read_uint32 :
      (i : ℕ)
      → put_uint32 (get_uint32 raw i)
        ≡ byte_at raw i ∷ byte_at raw (i + 1) ∷ byte_at raw (i + 2) ∷ byte_at raw (i + 3) ∷ []
  unfolding get_uint32
  read_uint32 i =
      uint32_read (byte_at raw i) (byte_at raw (i + 1)) (byte_at raw (i + 2)) (byte_at raw (i + 3))
        (byte-lt i) (byte-lt (i + 1)) (byte-lt (i + 2)) (byte-lt (i + 3))

  read_uint16 : (i : ℕ) → put_uint16 (get_uint16 raw i) ≡ byte_at raw i ∷ byte_at raw (i + 1) ∷ []
  unfolding get_uint16
  read_uint16 i = uint16_read (byte_at raw i) (byte_at raw (i + 1)) (byte-lt i) (byte-lt (i + 1))

  -- The fourteen bytes are written back as they were read.
  checksummed_back :
      (h : SectorHeader) → byte_at raw 13 < 2 → IsAccepted raw h → checksummed h ≡ take 14 raw
  checksummed_back h f a =
      rw
        (
          a.fields,
          ← a.magic,
          read_uint16 0,
          code-owner_of_code (byte_at raw 3) a.known,
          read_uint32 4,
          read_uint32 8,
          flag_byte (byte_at raw 13) f,
        )
        (ap (take 14) (reads_from-eq 16 raw s.0))

-- Sixteen bytes that the reader accepts, with the reserved flag bits clear, are exactly those that
-- writing the header read from them gives.
pub encode-decode :
    (raw : List ℕ) (out h : SectorHeader)
    → IsSixteen raw
    → byte_at raw 13 < 2
    → decode_sector_header raw out ≡ (ok, h)
    → encode_sector_header h ≡ raw
unfolding encode_sector_header
encode-decode raw out h s f e =
    let a = decode-IsAccepted raw out h e in
    rw (checksummed_back raw s h f a, a.checked, read_uint16 raw s 14)
      (ap (λ (l : List ℕ). take 14 l ++ byte_at raw 14 ∷ byte_at raw 15 ∷ [])
          (sym (reads_from-eq 16 raw s.0))
        ∙ reads_from-eq 16 raw s.0)
