-- ===== src/Dfu/Update.antt =====
-- firmware/core/dfu/update.h and update.cpp: the record of an update, its outcome, and versions in
-- their order and as text, with format_unsigned of firmware/core/util/format.cpp at its defaults.
-- A text is the list of its characters up to the terminating zero.
pub mod Versions
pub mod Records
mod Tests
use skyblip.Base.{
  ℕ, zero, suc, ◌+◌, ◌-◌, ◌*◌, ◌/◌, ◌%◌, ◌^◌, Bool, true, false, ◌&&◌, ◌||◌, not, Option, none,
  some, List, [], ◌∷◌, ◌++◌, ltb, leb, ◌==◌, if◌then◌else◌, length, u8, u16, u32,
}
use skyblip.Util.LittleEndian.{put_uint16, put_uint32, get_uint16, get_uint32, byte_at}
use skyblip.Dfu.Image.{ImageVersion, copied}

abbrev pub hash_bytes : ℕ
hash_bytes = 8

-- `ports::ImageVersion{}` and `ports::ImageHash{}`.
abbrev pub image_version : ImageVersion
image_version = record { major = 0; minor = 0; revision = 0; build = 0 }

abbrev pub image_hash : List ℕ
image_hash = 0 ∷ 0 ∷ 0 ∷ 0 ∷ 0 ∷ 0 ∷ 0 ∷ 0 ∷ []

-- `operator==` of versions and of hashes.
abbrev pub same_version : ImageVersion → ImageVersion → Bool
same_version a b =
    (a.major == b.major)
    && ((a.minor == b.minor) && ((a.revision == b.revision) && (a.build == b.build)))

abbrev pub same_from : List ℕ → List ℕ → ℕ → ℕ → Bool
same_from a b at zero = true
same_from a b at (suc n) = if byte_at a at == byte_at b at then same_from a b (at + 1) n else false

abbrev pub same_hash : List ℕ → List ℕ → Bool
same_hash a b = same_from a b 0 hash_bytes

pub record UpdateRecord : Type 0 where
  pub from : ImageVersion
  pub to : ImageVersion
  pub from_hash : List ℕ
  pub to_hash : List ℕ
  pub hashed : Bool

abbrev pub versions_only_record_bytes : ℕ
versions_only_record_bytes = 16

abbrev pub update_record_bytes : ℕ
update_record_bytes = versions_only_record_bytes + 2 * hash_bytes

pub put_version : ImageVersion → List ℕ
unfolding put_uint16 put_uint32
put_version v = u8 v.major ∷ u8 v.minor ∷ put_uint16 v.revision ++ put_uint32 v.build

pub get_version : List ℕ → ℕ → ImageVersion
unfolding get_uint16 get_uint32
get_version blob at = record {
  major = byte_at blob at;
  minor = byte_at blob (at + 1);
  revision = get_uint16 blob (at + 2);
  build = get_uint32 blob (at + 4);
}

-- The bytes that are written; none of them, for the count of zero, if they do not fit.
pub to_blob : UpdateRecord → ℕ → List ℕ
unfolding put_version
to_blob r capacity =
    let record_bytes = if r.hashed then update_record_bytes else versions_only_record_bytes in
    let versions = put_version r.from ++ put_version r.to in
    if ltb capacity record_bytes
    then []
    else if not r.hashed
    then versions
    else versions ++ (copied r.from_hash 0 hash_bytes ++ copied r.to_hash 0 hash_bytes)

pub from_blob : List ℕ → Option UpdateRecord
unfolding get_version
from_blob blob =
    let versions : UpdateRecord = record {
      from = get_version blob 0;
      to = get_version blob 8;
      from_hash = image_hash;
      to_hash = image_hash;
      hashed = false;
    } in
    if not (length blob == versions_only_record_bytes) && not (length blob == update_record_bytes)
    then none
    else if length blob == versions_only_record_bytes
    then some versions
    else some (record versions {
      from_hash = copied blob versions_only_record_bytes hash_bytes;
      to_hash = copied blob (versions_only_record_bytes + hash_bytes) hash_bytes;
      hashed = true;
    })

pub data Outcome : Type 0 where
  landed reverted refused unrelated : Outcome

pub record SlotImage : Type 0 where
  pub version : ImageVersion
  pub hash : List ℕ
  pub hashed : Bool

pub is_image : SlotImage → ImageVersion → List ℕ → Bool → Bool
is_image slot version hash hashed =
    if hashed && slot.hashed then same_hash slot.hash hash else same_version slot.version version

pub outcome : UpdateRecord → SlotImage → Option SlotImage → Outcome
outcome r running staged =
    let swapped_back : Bool = elim staged [
      | none ↦ false
      | some slot ↦ is_image slot r.to r.to_hash r.hashed
    ] in
    if is_image running r.to r.to_hash r.hashed
    then landed
    else if not (is_image running r.from r.from_hash r.hashed)
    then unrelated
    else if swapped_back
    then reverted
    else refused

-- The result's sign: -1, 0 or 1 of the source.
pub data Order : Type 0 where
  older same newer : Order

abbrev pub older_if : Bool → Order
older_if true = older
older_if false = newer

pub compare_versions : ImageVersion → ImageVersion → Order
compare_versions left right =
    if not (left.major == right.major)
    then older_if (ltb left.major right.major)
    else if not (left.minor == right.minor)
    then older_if (ltb left.minor right.minor)
    else if not (left.revision == right.revision)
    then older_if (ltb left.revision right.revision)
    else if not (left.build == right.build)
    then older_if (ltb left.build right.build)
    else same

abbrev pub is_older : Order → Bool
is_older older = true
is_older _ = false

-- Whether "older" is the refusal.
pub version_refusal : ImageVersion → ImageVersion → Bool → Bool
version_refusal running incoming downgrade_allowed =
    not downgrade_allowed && is_older (compare_versions incoming running)

abbrev pub widest_version : ImageVersion
widest_version = record { major = 9; minor = 99; revision = 99; build = 99999 }

abbrev pub version_text_bytes : ℕ
version_text_bytes = 14

abbrev pub within_widest : ImageVersion → Bool
within_widest v =
    leb v.major widest_version.major
    && (leb v.minor widest_version.minor
        && (leb v.revision widest_version.revision && leb v.build widest_version.build))

-- `format_unsigned`, at one digit and no fraction: the digits that `reversed` holds, the last first,
-- before what they stand in front of. Ten digits are enough for a uint32_t.
pub digits_before : ℕ → ℕ → List ℕ → List ℕ
digits_before zero value tail = tail
digits_before (suc rounds) value tail =
    let shown = (b'0' + value % 10) ∷ tail in
    let rest = digits_before rounds (value / 10) shown in if value / 10 == 0 then shown else rest

abbrev pub format_unsigned : ℕ → List ℕ → List ℕ
format_unsigned value tail = digits_before 10 value tail

abbrev pub version_text : ImageVersion → List ℕ
version_text v = format_unsigned v.major (
    b'.'
    ∷ format_unsigned v.minor
        (b'.' ∷ format_unsigned v.revision (b'+' ∷ format_unsigned v.build [])))

-- The text that is written; none for the count of zero.
pub format_version : ImageVersion → ℕ → Option (List ℕ)
unfolding digits_before
format_version v capacity =
    if ltb capacity version_text_bytes || not (within_widest v) then none else some (version_text v)

abbrev pub is_digit : ℕ → Bool
is_digit c = leb b'0' c && leb c b'9'

-- The loop over the digits, and where it stops. A sum over the ceiling is refused at once.
pub parse_digits : ℕ → ℕ → List ℕ → Option (ℕ × List ℕ)
parse_digits ceiling value [] = some (value, [])
parse_digits ceiling value (c ∷ text) =
    let next = value * 10 + (c - b'0') in
    let rest = parse_digits ceiling next text in
    if is_digit c then if ltb ceiling next then none else rest else some (value, c ∷ text)

abbrev pub starts_with_digit : List ℕ → Bool
starts_with_digit [] = false
starts_with_digit (c ∷ text) = is_digit c

-- Behind the digits stands the terminator, which is passed over; the end is `none`.
abbrev pub after_terminator : Option ℕ → List ℕ → Option (List ℕ)
after_terminator none [] = some []
after_terminator none (c ∷ text) = none
after_terminator (some t) [] = none
after_terminator (some t) (c ∷ text) = if c == t then some text else none

abbrev pub terminated : Option ℕ → Option (ℕ × List ℕ) → Option (ℕ × List ℕ)
terminated terminator none = none
terminated terminator (some (value, text)) = elim (after_terminator terminator text) [
  | none ↦ none
  | some rest ↦ some (value, rest)
]

pub parse_field : List ℕ → ℕ → Option ℕ → Option (ℕ × List ℕ)
unfolding parse_digits
parse_field text ceiling terminator =
    if not (starts_with_digit text)
    then none
    else terminated terminator (parse_digits ceiling 0 text)

infixl 5 ◌>>=◌
abbrev ◌>>=◌ {ℓ κ} : {A : Type ℓ} {B : Type κ} → Option A → (A → Option B) → Option B
none >>= f = none
some a >>= f = f a

pub parse_version : List ℕ → Option ImageVersion
unfolding parse_field
parse_version text = do
  (major, at) ← parse_field text widest_version.major (some b'.')
  (minor, at) ← parse_field at widest_version.minor (some b'.')
  (revision, at) ← parse_field at widest_version.revision (some b'+')
  (build, at) ← parse_field at widest_version.build none
  some (record { major = u8 major; minor = u8 minor; revision = u16 revision; build = build })
