-- ===== src/Protocol/Air.antt =====
-- firmware/core/protocol/air.h and air.cpp: the bursts of the two bands. A buffer is a list of bytes,
-- and `out` of the source is a result. `shift_left` reads at the index it writes or after it, so it
-- is a list made from the one before.
pub mod Received
use skyblip.Base.{
  ℕ, zero, suc, ◌+◌, ◌-◌, ◌*◌, ◌/◌, ◌%◌, ◌^◌, Bool, true, false, ltb, leb, ◌==◌, if◌then◌else◌,
  List, [], ◌∷◌, ◌++◌, length, bit_xor, u8, u16, ◌<<<◌, ◌>>>◌,
}
use skyblip.Util.LittleEndian.{byte_at}
use skyblip.Timing.Slot.{Band, m_band, o_band}
use skyblip.Fec.Manchester.{manchester_encode, manchester_decode, popcount}

pub data System : Type 0 where
  unknown adsl_direct alptas adsl_uplink : System

abbrev pub adsl_sync_word : ℕ
adsl_sync_word = 0xf5724b18

abbrev pub alptas_sync_word : ℕ
alptas_sync_word = 0xf531fab6

abbrev pub uplink_sync : List ℕ
uplink_sync = 0x2d ∷ 0xd4 ∷ 0xff ∷ []

abbrev pub sync_tail_bytes : ℕ
sync_tail_bytes = 3

abbrev pub sync_tail_bits : ℕ
sync_tail_bits = 24

abbrev pub frame_bytes : System → ℕ
frame_bytes adsl_direct = 24
frame_bytes alptas = 26
frame_bytes adsl_uplink = 255
frame_bytes unknown = 0

abbrev pub rx_frame_bytes : ℕ
rx_frame_bytes = sync_tail_bytes + frame_bytes alptas

abbrev pub rx_chip_bytes : ℕ
rx_chip_bytes = 2 * rx_frame_bytes

pub record Frame : Type 0 where
  pub system : System
  pub bytes : ℕ
  pub bad_chips : ℕ
  pub content : List ℕ
  pub erasures : List ℕ

abbrev zeros : ℕ → List ℕ
zeros zero = []
zeros (suc n) = 0 ∷ zeros n

abbrev pub no_frame : Frame
no_frame = record {
  system = unknown;
  bytes = 0;
  bad_chips = 0;
  content = zeros rx_frame_bytes;
  erasures = zeros rx_frame_bytes;
}

abbrev pub manchester_chips_bit : ℕ → ℕ
manchester_chips_bit bit = if bit == 1 then 1 else 2

-- The bits from `bits - 1` down, two chips for each.
abbrev pub manchester_chips : ℕ → ℕ → ℕ → ℕ
manchester_chips zero byte chips = chips
manchester_chips (suc bits) byte chips =
    manchester_chips bits byte (u16 (chips <<< 2) + manchester_chips_bit ((byte >>> bits) % 2))

-- The tail is all of the low 24 bits, so the mask and the shift by none change nothing.
abbrev pub sync_tail : ℕ → ℕ
sync_tail sync_word = sync_word % 2 ^ sync_tail_bits

abbrev pub tail_of : List ℕ → ℕ
tail_of raw = byte_at raw 0 <<< 16 + byte_at raw 1 <<< 8 + byte_at raw 2

abbrev pub tail_errors : List ℕ → ℕ → ℕ
tail_errors raw sync_word = popcount 24 (bit_xor (tail_of raw) (sync_tail sync_word))

pub system_of : List ℕ → System
system_of raw =
    if leb (tail_errors raw adsl_sync_word) 1
    then adsl_direct
    else if leb (tail_errors raw alptas_sync_word) 1
    then alptas
    else unknown

-- The bytes from the index `i` on, of a list shifted left by `bits`.
abbrev pub shifted : List ℕ → ℕ → ℕ → ℕ → List ℕ
shifted raw bits i zero = []
shifted raw bits i (suc rounds) =
    let source = i + bits / 8 in
    let rest = bits % 8 in
    u8 (
      byte_at raw source <<< rest
      + (if rest == 0 then 0 else byte_at raw (source + 1) >>> (8 - rest)))
    ∷ shifted raw bits (i + 1) rounds

pub shift_left : List ℕ → ℕ → ℕ → List ℕ
shift_left raw bytes bits = shifted raw bits 0 bytes

abbrev pub popcounts : List ℕ → ℕ → ℕ
popcounts masks zero = 0
popcounts [] (suc n) = 0
popcounts (mask ∷ masks) (suc n) = popcount 8 mask + popcounts masks n

-- The low three bytes of the sync word, the highest first.
abbrev pub tail_bytes : ℕ → List ℕ
tail_bytes sync_word = u8 (sync_word >>> 16) ∷ u8 (sync_word >>> 8) ∷ u8 sync_word ∷ []

unfoldable pub m_band_payload : ℕ → List ℕ → List ℕ
m_band_payload sync_word frame = manchester_encode (tail_bytes sync_word) ++ manchester_encode frame

pub encode_m_band : ℕ → List ℕ → List ℕ
unfolding m_band_payload
encode_m_band sync_word frame =
    manchester_encode (u8 (sync_word >>> 24) ∷ []) ++ m_band_payload sync_word frame

pub framed_noise : Frame → Bool
framed_noise f = elim (f.system) [ unknown ↦ leb 24 (popcounts f.erasures 12) | _ ↦ false ]

-- The frame behind the tail, once its system is known.
pub framed : System → List ℕ → List ℕ → Frame
framed system content erasures =
    let shifted_erasures = shift_left erasures rx_frame_bytes sync_tail_bits in
    record {
      system = system;
      bytes = frame_bytes system;
      bad_chips = u16 (popcounts shifted_erasures (frame_bytes system));
      content = shift_left content rx_frame_bytes sync_tail_bits;
      erasures = shifted_erasures;
    }

abbrev pub named : System → List ℕ → List ℕ → Bool × Frame
named unknown content erasures = (false, record no_frame { content = content; erasures = erasures })
named system content erasures = (true, framed system content erasures)

pub receive_m_band : List ℕ → Bool × Frame
unfolding framed
receive_m_band chips =
    let decoded = manchester_decode chips rx_frame_bytes in
    if ltb (length chips) rx_chip_bytes
    then (false, no_frame)
    else named (system_of decoded.out) decoded.out decoded.error_mask

pub encode_o_band : List ℕ → List ℕ
encode_o_band frame = uplink_sync ++ frame

pub receive_burst : Band → List ℕ → System × Frame
unfolding receive_m_band
receive_burst o_band raw =
    (if length raw == frame_bytes adsl_uplink then adsl_uplink else unknown, no_frame)
receive_burst m_band raw =
    let received = receive_m_band raw in
    (if received.0 then received.1.system else unknown, received.1)
