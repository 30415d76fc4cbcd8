-- ===== src/Dfu/Image.antt =====
-- firmware/core/dfu/image.h and image.cpp: the header of an image, and the hash of the signing key
-- in the entries behind it. A buffer is a list of bytes, a null pointer `none`. A read that would
-- leave the buffer faults, which is the `none` of `Read`; the loop faults when its fuel is out.
pub mod Bounds
mod Tests
use skyblip.Base.{
  ℕ, zero, suc, ◌+◌, ◌^◌, Bool, true, false, ◌&&◌, ◌||◌, not, Option, none, some, List, [], ◌∷◌,
  ltb, leb, ◌==◌, if◌then◌else◌, length,
}
use skyblip.Util.LittleEndian.{get_uint16, get_uint32, byte_at}

abbrev pub image_magic : ℕ
image_magic = 0x96f3b83d

abbrev pub tlv_magic : ℕ
tlv_magic = 0x6907

abbrev pub protected_tlv_magic : ℕ
protected_tlv_magic = 0x6908

abbrev pub tlv_key_hash : ℕ
tlv_key_hash = 1

abbrev pub tlv_info_bytes : ℕ
tlv_info_bytes = 4

abbrev pub tlv_entry_bytes : ℕ
tlv_entry_bytes = 4

abbrev pub image_header_bytes : ℕ
image_header_bytes = 32

abbrev pub signing_key_hash_bytes : ℕ
signing_key_hash_bytes = 32

pub record ImageVersion : Type 0 where
  pub major : ℕ
  pub minor : ℕ
  pub revision : ℕ
  pub build : ℕ

pub record ImageHeader : Type 0 where
  pub version : ImageVersion
  pub header_bytes : ℕ
  pub body_bytes : ℕ

abbrev pub Read {ℓ} : Type ℓ → Type ℓ
Read A = Option A

infixl 5 ◌>>=◌
abbrev pub ◌>>=◌ {ℓ κ} : {A : Type ℓ} {B : Type κ} → Read A → (A → Read B) → Read B
none >>= f = none
some a >>= f = f a

-- A read of two or four bytes, or of one.
abbrev pub word16 : List ℕ → ℕ → Read ℕ
word16 data_bytes at =
    if leb (at + 2) (length data_bytes) then some (get_uint16 data_bytes at) else none

abbrev pub word32 : List ℕ → ℕ → Read ℕ
word32 data_bytes at =
    if leb (at + 4) (length data_bytes) then some (get_uint32 data_bytes at) else none

abbrev pub byte : List ℕ → ℕ → Read ℕ
byte data_bytes at = if leb (at + 1) (length data_bytes) then some (byte_at data_bytes at) else none

-- `memcpy` of `n` bytes at an offset.
abbrev pub copied : List ℕ → ℕ → ℕ → List ℕ
copied data_bytes at zero = []
copied data_bytes at (suc n) = byte_at data_bytes at ∷ copied data_bytes (at + 1) n

abbrev pub copy : List ℕ → ℕ → ℕ → Read (List ℕ)
copy data_bytes at n =
    if leb (at + n) (length data_bytes) then some (copied data_bytes at n) else none

-- The fields behind the magic, and whether the header is one.
abbrev pub header_fields : List ℕ → Read (Option ImageHeader)
header_fields data_bytes = do
  header_bytes ← word16 data_bytes 8
  body_bytes ← word32 data_bytes 12
  major ← byte data_bytes 20
  minor ← byte data_bytes 21
  revision ← word16 data_bytes 22
  build ← word32 data_bytes 24
  some (
      if leb image_header_bytes header_bytes
      then some (record {
        version = record { major = major; minor = minor; revision = revision; build = build };
        header_bytes = header_bytes;
        body_bytes = body_bytes;
      })
      else none)

pub read_header : Option (List ℕ) → Read (Option ImageHeader)
read_header none = some none
read_header (some data_bytes) = if ltb (length data_bytes) image_header_bytes then some none else do
  magic ← word32 data_bytes 0
  if not (magic == image_magic) then some none else header_fields data_bytes

pub past_protected_area : List ℕ → Read ℕ
past_protected_area tlvs =
    if ltb (length tlvs) tlv_info_bytes
    then some 0
    else do magic ← word16 tlvs 0; if magic == protected_tlv_magic then word16 tlvs 2 else some 0

-- What the loop does with an entry that it has read, `rest` being its other turns.
abbrev pub entry_of : ℕ → ℕ → Read (Option (List ℕ)) → List ℕ → ℕ → ℕ → Read (Option (List ℕ))
entry_of type value_bytes rest tlvs at end =
    if ltb end (at + tlv_entry_bytes + value_bytes)
    then some none
    else if not (type == tlv_key_hash)
    then rest
    else if not (value_bytes == signing_key_hash_bytes)
    then some none
    else copy tlvs (at + tlv_entry_bytes) signing_key_hash_bytes >>= λ hash. some (some hash)

-- The loop over the entries, at one of them.
pub find_entry : ℕ → List ℕ → ℕ → ℕ → Read (Option (List ℕ))
find_entry zero tlvs at end = none
find_entry (suc fuel) tlvs at end =
    let rest = λ (value_bytes : ℕ). find_entry fuel tlvs (at + tlv_entry_bytes + value_bytes) end in
    if ltb end (at + tlv_entry_bytes) then some none else do
      type ← word16 tlvs at
      value_bytes ← word16 tlvs (at + 2)
      entry_of type value_bytes (rest value_bytes) tlvs at end

abbrev pub find_after : List ℕ → ℕ → ℕ → Read (Option (List ℕ))
find_after tlvs at area =
    if ltb (length tlvs) (at + area)
    then some none
    else find_entry (suc (length tlvs)) tlvs (at + tlv_info_bytes) (at + area)

-- From the area's own head on.
abbrev pub find_in : List ℕ → ℕ → Read (Option (List ℕ))
find_in tlvs at = if ltb (length tlvs) (at + tlv_info_bytes) then some none else do
  magic ← word16 tlvs at
  area ← word16 tlvs (at + 2)
  if not (magic == tlv_magic) then some none else find_after tlvs at area

pub find_key_hash : Option (List ℕ) → Read (Option (List ℕ))
unfolding past_protected_area find_entry
find_key_hash none = some none
find_key_hash (some tlvs) = do at ← past_protected_area tlvs; find_in tlvs at
