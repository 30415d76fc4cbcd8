-- ===== src/Protocol/Adsl/Callsign/RoundTrip.antt =====
-- The callsign that a receiver reads.
use skyblip.Base.{
  ℕ, zero, suc, ◌-◌, ◌<◌, ◌≡◌, refl, true, false, leb, ◌==◌, if◌then◌else◌, List, [], ◌∷◌, some,
  inl, inr, Bool-cases, arith,
}
use skyblip.Store.Sector.{take}
use skyblip.Protocol.Adsl.{set_address, set_address_mapping_table}
use skyblip.Protocol.Adsl.Callsign.{
  InformationPacket, is_callsign_character, text_of, read_text, from_own_callsign, callsign_of,
}

-- The characters before the first that no callsign has.
abbrev pub legible : List ℕ → List ℕ
legible [] = []
legible (c ∷ callsign) = if is_callsign_character c then c ∷ legible callsign else []

read_text-zeros : (room : ℕ) → read_text (text_of room []) ≡ some []
unfolding read_text text_of
read_text-zeros zero = refl
read_text-zeros (suc room) = refl

character_pos : (c : ℕ) → is_callsign_character c ≡ true → (c == 0) ≡ false
character_pos c h = ground arith

read_text-text_of :
    (room : ℕ) (callsign : List ℕ)
    → read_text (text_of room callsign) ≡ some (take room (legible callsign))
unfolding read_text text_of
read_text-text_of zero callsign = refl
read_text-text_of (suc room) [] = refl
read_text-text_of (suc room) (c ∷ callsign) = elim (Bool-cases (is_callsign_character c)) [
  | inl yes_char ↦
      let pos = character_pos c yes_char in
      let rest = read_text-text_of room callsign in rw (yes_char, pos, yes_char, rest) refl
  | inr other ↦ rw other refl
]

-- The callsign that a receiver with room for `capacity` bytes, two at least, reads from the packet of a
-- unit with an address is the one it sent: its characters up to the first that a callsign may not
-- have, fourteen of them at most, and one less than the room.
pub callsign_of-from_own_callsign :
    (a table : ℕ) (callsign : List ℕ) (before : InformationPacket) (capacity : ℕ)
    → 1 < capacity
    → callsign_of (from_own_callsign (some a) table callsign before).0 capacity
      ≡ take (capacity - 1) (take 14 (legible callsign))
unfolding from_own_callsign callsign_of set_address set_address_mapping_table
callsign_of-from_own_callsign a table callsign before capacity room =
    let enough : leb capacity 1 ≡ false = ground arith in
    rw (enough, read_text-text_of 14 callsign) refl
