-- ===== src/Protocol/Tests.antt =====
-- Tests: a burst on the M band, the motion of a glider, and a callsign.
use skyblip.Base.{ℕ, zero, suc, ◌≤◌, length, ◌≡◌, refl, inl, List, [], ◌∷◌, ◌++◌, some, arith}
use skyblip.Base.Int.{pos, negsuc}
use skyblip.Store.Sector.{take}
use skyblip.Protocol.Air.{
  adsl_direct, adsl_sync_word, rx_chip_bytes, m_band_payload, receive_m_band,
}
use skyblip.Protocol.Air.Received.{IsReceived, receive_m_band-m_band_payload}
use skyblip.Fec.Manchester.{manchester_encode}
use skyblip.Protocol.Adsl.{reset}
use skyblip.Protocol.Adsl.Motion.{IsRead, set_motion, set_motion-IsRead}
use skyblip.Protocol.Adsl.Callsign.{InformationPacket, from_own_callsign, callsign_of}
use skyblip.Protocol.Adsl.Callsign.RoundTrip.{legible, callsign_of-from_own_callsign}

abbrev repeated : ℕ → ℕ → List ℕ
repeated zero byte = []
repeated (suc n) byte = byte ∷ repeated n byte

abbrev sent_frame : List ℕ
sent_frame = repeated 24 0x5a

enough : rx_chip_bytes ≤ length (m_band_payload adsl_sync_word sent_frame ++ repeated 4 0xff)
unfolding m_band_payload manchester_encode
enough = omega arith

-- Four bytes of noise behind the shorter of the two frames.
receive_m_band-m_band_payload_example :
    IsReceived adsl_direct sent_frame
      (receive_m_band (m_band_payload adsl_sync_word sent_frame ++ repeated 4 0xff))
receive_m_band-m_band_payload_example =
    receive_m_band-m_band_payload adsl_direct sent_frame (repeated 4 0xff) (inl refl) refl
      (omega arith) enough

set_motion-IsRead_example :
    IsRead (pos 1453) 120 (negsuc 23) 128 (set_motion (pos 1453) 120 (negsuc 23) 128 (reset 2))
set_motion-IsRead_example = set_motion-IsRead (pos 1453) 120 (negsuc 23) 128 (reset 2) (omega arith)

abbrev nothing_sent : InformationPacket
nothing_sent = record { packet = reset 0; information_header = 0; information_text = [] }

callsign_of-from_own_callsign_example :
    callsign_of (from_own_callsign (some 0x3ee001) 58 (b'D' ∷ b'-' ∷ b'1' ∷ []) nothing_sent).0 16
    ≡ take 15 (take 14 (legible (b'D' ∷ b'-' ∷ b'1' ∷ [])))
callsign_of-from_own_callsign_example =
    callsign_of-from_own_callsign 0x3ee001 58 (b'D' ∷ b'-' ∷ b'1' ∷ []) nothing_sent 16
      (omega arith)
