-- ===== src/Dfu/Update/Versions.antt =====
-- The order of versions, and their text.
use skyblip.Base.{
  ℕ, zero, suc, ◌+◌, ◌-◌, ◌*◌, ◌/◌, ◌%◌, ◌^◌, ◌≤◌, ◌<◌, ◌≡◌, refl, ◌∙◌, ap, ◌⊎◌, inl, inr, Bool,
  true, false, ◌&&◌, ◌||◌, not, none, some, List, [], ◌∷◌, ltb, ◌==◌, if◌then◌else◌, arith,
  Bool-cases,
}
use skyblip.Dfu.Image.{ImageVersion}
use skyblip.Dfu.Update.{
  same, older_if, compare_versions, version_refusal, digits_before, parse_digits, is_digit,
  starts_with_digit, terminated, parse_field, parse_version, format_version, within_widest,
  version_text, format_unsigned,
}

-- Every field fits its own width.
pub record IsVersion (v : ImageVersion) : Type 0 where
  pub major_fits : v.major < 2 ^ 8
  pub minor_fits : v.minor < 2 ^ 8
  pub revision_fits : v.revision < 2 ^ 16
  pub build_fits : v.build < 2 ^ 32

-- The 64-bit number that the fields make up, the major one highest.
abbrev pub weight : ImageVersion → ℕ
weight v = ((v.major * 2 ^ 8 + v.minor) * 2 ^ 16 + v.revision) * 2 ^ 32 + v.build

-- The field-by-field comparison is the order of those numbers, and an incoming version is refused
-- exactly when downgrades are not allowed and its number is below the running one's.
pub compare_versions-weight :
    (a b : ImageVersion) (allowed : Bool)
    → IsVersion a
    → IsVersion b
    → (compare_versions a b
        ≡ (if weight a == weight b then same else older_if (ltb (weight a) (weight b))))
      × (version_refusal a b allowed ≡ not allowed && ltb (weight b) (weight a))
unfolding compare_versions version_refusal
compare_versions-weight a b allowed v w = (ground arith, ground arith)

-- A number of at most so many digits.
abbrev HasDigits : ℕ → ℕ → Type 0
HasDigits zero value = value < 1
HasDigits (suc rounds) value = HasDigits rounds (value / 10)

parse_digits-cons :
    (ceiling value digit : ℕ) (tail : List ℕ)
    → digit < 10
    → value * 10 + digit ≤ ceiling
    → parse_digits ceiling value ((48 + digit) ∷ tail)
      ≡ parse_digits ceiling (value * 10 + digit) tail
unfolding parse_digits
parse_digits-cons ceiling value digit tail small le =
    let is : is_digit (48 + digit) ≡ true = ground arith in
    let admitted : ltb ceiling (value * 10 + (48 + digit - 48)) ≡ false = ground arith in
    rw (is, admitted) (ap (λ n. parse_digits ceiling n tail) (omega arith))

-- What a text with the digits in front of it reads as, against the number itself.
abbrev Reads : ℕ → ℕ → List ℕ → List ℕ → Type 0
Reads ceiling value tail text =
    (parse_digits ceiling 0 text ≡ parse_digits ceiling value tail)
    × (starts_with_digit text ≡ true)

digit-Reads :
    (ceiling value : ℕ) (tail : List ℕ)
    → value < 10
    → value ≤ ceiling
    → Reads ceiling value tail ((48 + value % 10) ∷ tail)
digit-Reads ceiling value tail small le = (
  parse_digits-cons ceiling 0 (value % 10) tail (omega arith) (omega arith)
      ∙ ap (λ n. parse_digits ceiling n tail) (omega arith),
  ground arith,
)

-- The digits of a number that the ceiling admits read back, whatever stands behind them.
digits_before-Reads :
    (rounds ceiling value : ℕ) (tail : List ℕ)
    → HasDigits (suc rounds) value
    → value ≤ ceiling
    → Reads ceiling value tail (digits_before (suc rounds) value tail)
unfolding digits_before
digits_before-Reads zero ceiling value tail fits le =
    let last : (value / 10 == 0) ≡ true = ground arith in
    rw last (digit-Reads ceiling value tail (omega arith) le)
digits_before-Reads (suc rounds) ceiling value tail fits le = elim (Bool-cases (value / 10 == 0)) [
  | inl last ↦ rw last (digit-Reads ceiling value tail (ground arith) le)
  | inr more ↦
      let before =
        digits_before-Reads rounds ceiling (value / 10) ((48 + value % 10) ∷ tail) fits
          (omega arith) in
      rw more (
        before.0
            ∙ parse_digits-cons ceiling (value / 10) (value % 10) tail (omega arith) (omega arith)
            ∙ ap (λ n. parse_digits ceiling n tail) (omega arith),
        before.1,
      )
]

-- A field and its terminator, in front of a text.
parse_field-digits :
    (ceiling value t : ℕ) (rest : List ℕ)
    → HasDigits 10 value
    → value ≤ ceiling
    → is_digit t ≡ false
    → parse_field (digits_before 10 value (t ∷ rest)) ceiling (some t) ≡ some (value, rest)
unfolding parse_field parse_digits
parse_field-digits ceiling value t rest fits le stop =
    let r = digits_before-Reads 9 ceiling value (t ∷ rest) fits le in
    let here : (t == t) ≡ true = ground arith in rw (r.1, r.0, stop) (rw (terminated, here) refl)

parse_field-last :
    (ceiling value : ℕ)
    → HasDigits 10 value
    → value ≤ ceiling
    → parse_field (digits_before 10 value []) ceiling none ≡ some (value, [])
unfolding parse_field parse_digits
parse_field-last ceiling value fits le =
    let r = digits_before-Reads 9 ceiling value [] fits le in rw (r.1, r.0) refl

version_text-parsed :
    (v : ImageVersion) → within_widest v ≡ true → parse_version (version_text v) ≡ some v
unfolding parse_version
version_text-parsed v fits =
    let major =
      parse_field-digits 9 v.major b'.'
        (format_unsigned v.minor
          (b'.' ∷ format_unsigned v.revision (b'+' ∷ format_unsigned v.build [])))
        (ground arith) (ground arith) refl in
    let minor =
      parse_field-digits 99 v.minor b'.'
        (format_unsigned v.revision (b'+' ∷ format_unsigned v.build [])) (ground arith)
        (ground arith) refl in
    let revision =
      parse_field-digits 99 v.revision b'+' (format_unsigned v.build []) (ground arith)
        (ground arith) refl in
    let build = parse_field-last 99999 v.build (ground arith) (ground arith) in
    rw (major, minor, revision, build) (ground arith)

-- A version's text is written exactly if the version is no wider than the widest and the buffer
-- holds the widest text, and it then reads back as the version.
pub parse_version-format :
    (v : ImageVersion) (capacity : ℕ)
    → (((capacity < 14) ⊎ (within_widest v ≡ false)) × (format_version v capacity ≡ none))
      ⊎ ((14 ≤ capacity)
          × (within_widest v ≡ true)
          × (format_version v capacity ≡ some (version_text v))
          × (parse_version (version_text v) ≡ some v))
unfolding format_version
parse_version-format v capacity = elim (Bool-cases (ltb capacity 14 || not (within_widest v))) [
  | inl out ↦ inl (ground arith, rw out refl)
  | inr fits ↦
      let small : within_widest v ≡ true = ground arith in
      inr (ground arith, small, rw fits refl, version_text-parsed v small)
]
