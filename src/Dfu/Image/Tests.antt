-- ===== src/Dfu/Image/Tests.antt =====
-- A trailer with one entry of another type before the key's.
use skyblip.Base.{ℕ, ◌≡◌, refl, Option, none, some, List, [], ◌∷◌}
use skyblip.Util.LittleEndian.{get_uint16}
use skyblip.Dfu.Image.{
  ImageHeader, find_key_hash, find_entry, past_protected_area, read_header, copied,
}
use skyblip.Dfu.Image.Bounds.{Finds, find_key_hash-Finds}

abbrev digest : List ℕ
digest = copied [] 0 32

abbrev trailer : List ℕ
trailer = 0x07 ∷ 0x69 ∷ 46 ∷ 0 ∷ 0x10 ∷ 0 ∷ 2 ∷ 0 ∷ 5 ∷ 5 ∷ 1 ∷ 0 ∷ 32 ∷ 0 ∷ digest

key_found : find_key_hash (some trailer) ≡ some (some digest)
unfolding find_key_hash find_entry past_protected_area get_uint16
key_found = refl

-- An entry longer than the area is refused, and one that is cut short is not read.
key_cut : find_key_hash (some (0x07 ∷ 0x69 ∷ 8 ∷ 0 ∷ 1 ∷ 0 ∷ 32 ∷ 0 ∷ [])) ≡ some none
unfolding find_key_hash find_entry past_protected_area get_uint16
key_cut = refl

find_key_hash-Finds_example :
    Finds trailer (find_key_hash (some trailer))
    × ((header : Option ImageHeader) × (read_header (some trailer) ≡ some header))
find_key_hash-Finds_example = find_key_hash-Finds trailer
