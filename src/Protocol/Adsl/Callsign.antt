-- ===== src/Protocol/Adsl/Callsign.antt =====
-- firmware/core/protocol/adsl.h and adsl.cpp: the registration packet, which carries a callsign. A text
-- is its characters before the terminator, and `out` of the source is a result.
pub mod RoundTrip
use skyblip.Base.{
  ℕ, zero, suc, ◌+◌, ◌-◌, ◌*◌, ◌/◌, ◌%◌, ◌^◌, Bool, true, false, not, ◌&&◌, ◌||◌, ltb, leb, ◌==◌,
  if◌then◌else◌, List, [], ◌∷◌, length, Option, none, some,
}
use skyblip.Store.Sector.{take}
use skyblip.Protocol.Adsl.{
  AdslPacket, reset, set_address, set_address_mapping_table, payload_type_ogn_diagnostics,
}

abbrev pub telemetry_type_information : ℕ
telemetry_type_information = 1

abbrev pub information_type_registration : ℕ
information_type_registration = 5

abbrev pub information_text_bytes : ℕ
information_text_bytes = 14

-- The packet with the union's other view of what follows the address.
pub record InformationPacket : Type 0 where
  pub packet : AdslPacket
  pub information_header : ℕ
  pub information_text : List ℕ

abbrev pub information_header_of : ℕ → ℕ → ℕ
information_header_of telemetry_type information_type =
    telemetry_type % 4 * 2 ^ 6 + information_type % 2 ^ 6

abbrev pub is_registration : InformationPacket → Bool
is_registration p =
    (p.packet.payload_type == payload_type_ogn_diagnostics)
    && (p.information_header / 2 ^ 6 == telemetry_type_information)
    && (p.information_header % 2 ^ 6 == information_type_registration)

abbrev pub is_callsign_character : ℕ → Bool
is_callsign_character c =
    (c == b' ') || (c == b'-') || (leb b'A' c && leb c b'Z') || (leb b'0' c && leb c b'9')

-- The two loops that write the text: the callsign's characters, and zeros.
pub text_of : ℕ → List ℕ → List ℕ
text_of zero callsign = []
text_of (suc room) [] = 0 ∷ text_of room []
text_of (suc room) (c ∷ callsign) =
    let more = text_of room callsign in
    let padding = text_of room [] in if is_callsign_character c then c ∷ more else 0 ∷ padding

-- `packet` stays as it was without an address.
pub from_own_callsign : Option ℕ → ℕ → List ℕ → InformationPacket → InformationPacket × Bool
unfolding text_of
from_own_callsign none table callsign packet = (packet, false)
from_own_callsign (some address) table callsign packet =
    let fresh = reset payload_type_ogn_diagnostics in
    (
      record {
        packet = set_address_mapping_table table (set_address (address % 2 ^ 24) fresh);
        information_header =
            information_header_of telemetry_type_information information_type_registration;
        information_text = text_of information_text_bytes callsign;
      },
      true,
    )

-- The loop that reads the text up to a zero, or none where a character is no callsign's.
pub read_text : List ℕ → Option (List ℕ)
read_text [] = some []
read_text (c ∷ text) =
    let rest = read_text text in
    if c == 0
    then some []
    else if is_callsign_character c
    then elim rest [ none ↦ none | some cs ↦ some (c ∷ cs) ]
    else none

-- The callsign that `out` holds then.
pub callsign_of : InformationPacket → ℕ → List ℕ
unfolding read_text
callsign_of p capacity =
    if not (is_registration p) || leb capacity 1
    then []
    else elim (read_text p.information_text) [ none ↦ [] | some text ↦ take (capacity - 1) text ]
