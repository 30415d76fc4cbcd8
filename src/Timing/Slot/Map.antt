-- ===== src/Timing/Slot/Map.antt =====
-- The dwell map as one map: its views agree, and a change of frequency always has a guard.
use skyblip.Base.{ℕ, ◌+◌, ◌≡◌, ◌↔◌, Bool, true, false, arith}
use skyblip.Base.Int.{ℤ, pos, negsuc}
use skyblip.Timing.Slot.{
  m_band, o_band, SlotState, uplink_rx_o_band, slot0, slot1, state_at, band_at, frequency_hz_at,
  in_own_tx_dwell, slot_of, slot_frequency_hz, in_direct_slot, in_uplink_rx, o_band_hz, is_m_band,
  folded,
}

-- The views of the map at one phase.
pub record IsOneMap (phase_ms : ℤ) : Type 0 where
  pub own_is_m_band : in_own_tx_dwell phase_ms ≡ is_m_band (band_at phase_ms)
  pub slot_is_m_band : (slot_of phase_ms ≡ negsuc 0) ↔ (band_at phase_ms ≡ o_band)
  pub slot_frequency :
      band_at phase_ms ≡ m_band → frequency_hz_at phase_ms ≡ slot_frequency_hz (slot_of phase_ms)
  pub o_frequency : band_at phase_ms ≡ o_band → frequency_hz_at phase_ms ≡ o_band_hz
  pub direct_is_own : in_direct_slot phase_ms ≡ true → in_own_tx_dwell phase_ms ≡ true
  pub uplink_is_o_band : in_uplink_rx phase_ms ≡ true → band_at phase_ms ≡ o_band

-- For every phase, in range or not, the views of the map agree: own-ship may have the dwell exactly
-- on the M band, which is exactly where a slot is named; the frequency is that slot's there and the
-- O band's elsewhere; the direct slot lies inside own-ship's dwells and the uplink window outside.
pub map-IsOneMap : (phase_ms : ℤ) → IsOneMap phase_ms
unfolding band_at frequency_hz_at in_own_tx_dwell slot_of
map-IsOneMap (pos n) = record {
  own_is_m_band = ground arith;
  slot_is_m_band = (ground arith, ground arith);
  slot_frequency = ground arith;
  o_frequency = ground arith;
  direct_is_own = ground arith;
  uplink_is_o_band = ground arith;
}
map-IsOneMap (negsuc n) = record {
  own_is_m_band = ground arith;
  slot_is_m_band = (ground arith, ground arith);
  slot_frequency = ground arith;
  o_frequency = ground arith;
  direct_is_own = ground arith;
  uplink_is_o_band = ground arith;
}

-- A state in which the radio listens; the others are guards.
abbrev pub listens : SlotState → Bool
listens uplink_rx_o_band = true
listens slot0 = true
listens slot1 = true
listens _ = false

-- From one millisecond to the next, across the top of the second too, the radio changes frequency
-- only out of a guard or into one: two listening milliseconds in a row share their frequency.
pub frequency-guarded :
    (phase_ms : ℕ)
    → listens (state_at (pos (folded (pos phase_ms)))) ≡ true
    → listens (state_at (pos (folded (pos (phase_ms + 1))))) ≡ true
    → frequency_hz_at (pos (folded (pos phase_ms)))
      ≡ frequency_hz_at (pos (folded (pos (phase_ms + 1))))
unfolding frequency_hz_at
frequency-guarded n h k = ground arith
