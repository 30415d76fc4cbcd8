-- ===== src/Dfu/Image/Bounds.antt =====
-- No read leaves the buffer, whatever it holds, and the walk over the entries ends.
use skyblip.Base.{
  ℕ, zero, suc, ◌+◌, ◌≤◌, ◌<◌, ◌≡◌, refl, ◌⊎◌, inl, inr, true, false, Option, none, some, List, ltb,
  leb, ◌==◌, length, arith, Bool-cases,
}
use skyblip.Util.LittleEndian.{get_uint16, get_uint32}
use skyblip.Dfu.Image.{
  ImageHeader, Read, read_header, past_protected_area, find_entry, find_key_hash, word16, copied,
  entry_of, find_in, find_after, header_fields,
}

-- A hash stands behind an entry of its type and length, all of it inside the buffer.
pub record IsKeyHash (tlvs : List ℕ) (hash : List ℕ) : Type 0 where
  pub at : ℕ
  pub type_is : get_uint16 tlvs at ≡ 1
  pub length_is : get_uint16 tlvs (at + 2) ≡ 32
  pub inside : at + 4 + 32 ≤ length tlvs
  pub value_is : hash ≡ copied tlvs (at + 4) 32

-- A read that does not fault, and what it finds.
abbrev pub Finds : List ℕ → Read (Option (List ℕ)) → Type 0
Finds tlvs none = ⊥
Finds tlvs (some none) = Unit {0}
Finds tlvs (some (some hash)) = IsKeyHash tlvs hash

-- A word at an offset inside the buffer is read.
word16-some :
    (tlvs : List ℕ) (at : ℕ) → at + 2 ≤ length tlvs → word16 tlvs at ≡ some (get_uint16 tlvs at)
word16-some tlvs at inside = ground arith

entry_of-Finds :
    (rest : Read (Option (List ℕ))) (tlvs : List ℕ) (at end : ℕ)
    → end ≤ length tlvs
    → (at + 4 + get_uint16 tlvs (at + 2) ≤ end → Finds tlvs rest)
    → Finds tlvs (entry_of (get_uint16 tlvs at) (get_uint16 tlvs (at + 2)) rest tlvs at end)
entry_of-Finds rest tlvs at end inside next =
    elim (Bool-cases (ltb end (at + 4 + get_uint16 tlvs (at + 2)))) [
      | inl over ↦ rw over tt
      | inr within ↦ elim (Bool-cases (get_uint16 tlvs at == 1)) [
        | inr other ↦ rw (within, other) (next (ground arith))
        | inl key ↦ elim (Bool-cases (get_uint16 tlvs (at + 2) == 32)) [
          | inr short ↦ rw (within, key, short) tt
          | inl full ↦
              let fits : leb (at + 4 + 32) (length tlvs) ≡ true = ground arith in
              rw (within, key, full, fits)
                (record {
                  at = at;
                  type_is = ground arith;
                  length_is = ground arith;
                  inside = ground arith;
                  value_is = refl;
                })
        ]
      ]
    ]

find_entry-Finds :
    (fuel : ℕ) (tlvs : List ℕ) (at end : ℕ)
    → end ≤ length tlvs
    → 0 < fuel
    → end < at + fuel
    → Finds tlvs (find_entry fuel tlvs at end)
unfolding find_entry
find_entry-Finds zero tlvs at end inside some_fuel fits = absurd (omega arith)
find_entry-Finds (suc fuel) tlvs at end inside some_fuel fits =
    elim (Bool-cases (ltb end (at + 4))) [
      | inl done ↦ rw done tt
      | inr more ↦
          rw (more, word16-some tlvs at (ground arith), word16-some tlvs (at + 2) (ground arith))
            (entry_of-Finds (find_entry fuel tlvs (at + 4 + get_uint16 tlvs (at + 2)) end) tlvs at
              end inside
              (λ le.
                find_entry-Finds fuel tlvs (at + 4 + get_uint16 tlvs (at + 2)) end inside
                  (omega arith) (omega arith)))
    ]

-- From an offset that the first two bytes of the buffer may have set.
find_in-Finds : (tlvs : List ℕ) (at : ℕ) → Finds tlvs (find_in tlvs at)
unfolding find_entry
find_in-Finds tlvs at = elim (Bool-cases (ltb (length tlvs) (at + 4))) [
  | inl out ↦ rw out tt
  | inr room ↦ elim (Bool-cases (get_uint16 tlvs at == 0x6907)) [
    | inr other ↦
        rw
          (
            room,
            word16-some tlvs at (ground arith),
            word16-some tlvs (at + 2) (ground arith),
            other,
          )
          tt
    | inl magic ↦
        rw
          (
            room,
            word16-some tlvs at (ground arith),
            word16-some tlvs (at + 2) (ground arith),
            magic,
          )
          (after (Bool-cases (ltb (length tlvs) (at + get_uint16 tlvs (at + 2)))))
  ]
]
  where
    after :
        (ltb (length tlvs) (at + get_uint16 tlvs (at + 2)) ≡ true)
          ⊎ (ltb (length tlvs) (at + get_uint16 tlvs (at + 2)) ≡ false)
        → Finds tlvs (find_after tlvs at (get_uint16 tlvs (at + 2)))
    after (inl over) = rw over tt
    after (inr within) = rw within (
        find_entry-Finds (suc (length tlvs)) tlvs (at + 4) (at + get_uint16 tlvs (at + 2))
          (ground arith) (omega arith) (ground arith))

past_protected_area-some : (tlvs : List ℕ) → (at : ℕ) × (past_protected_area tlvs ≡ some at)
unfolding past_protected_area
past_protected_area-some tlvs = elim (Bool-cases (ltb (length tlvs) 4)) [
  | inl short ↦ (0, rw short refl)
  | inr room ↦ elim (Bool-cases (get_uint16 tlvs 0 == 0x6908)) [
    | inl protected ↦ (
      get_uint16 tlvs 2,
      rw (room, word16-some tlvs 0 (ground arith), protected, word16-some tlvs 2 (ground arith))
          refl,
    )
    | inr plain ↦ (0, rw (room, word16-some tlvs 0 (ground arith), plain) refl)
  ]
]

header_fields-some :
    (bytes : List ℕ)
    → 32 ≤ length bytes
    → (header : Option ImageHeader) × (header_fields bytes ≡ some header)
header_fields-some bytes long =
    let word8 : leb (8 + 2) (length bytes) ≡ true = ground arith in
    let word12 : leb (12 + 4) (length bytes) ≡ true = ground arith in
    let byte20 : leb (20 + 1) (length bytes) ≡ true = ground arith in
    let byte21 : leb (21 + 1) (length bytes) ≡ true = ground arith in
    let word22 : leb (22 + 2) (length bytes) ≡ true = ground arith in
    let word24 : leb (24 + 4) (length bytes) ≡ true = ground arith in
    rw (word8, word12, byte20, byte21, word22, word24) (_, refl)

read_header-some :
    (bytes : List ℕ) → (header : Option ImageHeader) × (read_header (some bytes) ≡ some header)
unfolding read_header
read_header-some bytes = elim (Bool-cases (ltb (length bytes) 32)) [
  | inl short ↦ (none, rw short refl)
  | inr room ↦
      let word0 : leb (0 + 4) (length bytes) ≡ true = ground arith in
      elim (Bool-cases (get_uint32 bytes 0 == 0x96f3b83d)) [
        | inr other ↦ (none, rw (room, word0, other) refl)
        | inl magic ↦ rw (room, word0, magic) (header_fields-some bytes (ground arith))
      ]
]

-- Whatever bytes a buffer holds, the search for the signing key reads none outside it and ends, and a
-- hash that it returns is the 32 bytes behind an entry of the key's type and of that length, with the
-- entry inside the buffer. The header reads none outside its buffer either.
pub find_key_hash-Finds :
    (tlvs : List ℕ)
    → Finds tlvs (find_key_hash (some tlvs))
      × ((header : Option ImageHeader) × (read_header (some tlvs) ≡ some header))
unfolding find_key_hash read_header past_protected_area
find_key_hash-Finds tlvs =
    let (at, e) = past_protected_area-some tlvs in
    (rw (e, find_key_hash) (find_in-Finds tlvs at), read_header-some tlvs)
