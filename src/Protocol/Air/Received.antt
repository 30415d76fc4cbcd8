-- ===== src/Protocol/Air/Received.antt =====
-- A burst of either system on the M band is received as it was sent.
use mathlib.Core.List.{append_assoc}
use skyblip.Base.{
  ℕ, zero, suc, ◌+◌, ◌-◌, ◌*◌, ◌/◌, ◌^◌, ◌≤◌, ◌≡◌, refl, ◌∙◌, sym, ap, subst, Bool, true, false,
  ltb, List, [], ◌∷◌, ◌++◌, length, All, ◌⊎◌, u8, u16, ◌<<<◌, arith,
}
use skyblip.Util.LittleEndian.{byte_at}
use skyblip.Store.Sector.{take}
use skyblip.Fec.Manchester.{manchester_encode, manchester_decode, popcount, Decoded}
use skyblip.Fec.Manchester.RoundTrip.{IsByte, zeros, before, manchester_decode-encode}
use skyblip.Protocol.Air.{
  System, unknown, adsl_direct, alptas, adsl_uplink, Frame, frame_bytes, rx_frame_bytes,
  rx_chip_bytes, adsl_sync_word, alptas_sync_word, tail_bytes, system_of, shifted, shift_left,
  popcounts, m_band_payload, framed, named, receive_m_band,
}

-- A shift by three bytes of what stands behind three bytes.
shifted-∷ : (x : ℕ) (raw : List ℕ) (i n : ℕ) → shifted (x ∷ raw) 24 (suc i) n ≡ shifted raw 24 i n
shifted-∷ x raw i zero = refl
shifted-∷ x raw i (suc n) =
    let next : suc i + 1 ≡ suc (i + 1) = omega arith in
    let source : suc i + 3 ≡ suc (i + 3) = omega arith in
    let here = ap (λ k. u8 (byte_at (x ∷ raw) k <<< 0 + 0)) source in
    let rest = ap (λ k. shifted (x ∷ raw) 24 k n) next ∙ shifted-∷ x raw (i + 1) n in
    λ j. here j ∷ rest j

take-shifted :
    (a b c : ℕ) (frame behind : List ℕ) (more : ℕ)
    → All IsByte frame
    → take (length frame) (shifted (a ∷ b ∷ c ∷ (frame ++ behind)) 24 0 (length frame + more))
      ≡ frame
take-shifted a b c [] behind more fit = refl
take-shifted a b c (f ∷ frame) behind more (lt, fit) =
    let count : length (f ∷ frame) + more ≡ suc (length frame + more) = omega arith in
    let whole : u8 (f <<< 0 + 0) ≡ f = omega arith in
    let rest =
      ap (take (length frame)) (shifted-∷ a (b ∷ c ∷ f ∷ (frame ++ behind)) 0 (length frame + more))
      ∙ take-shifted b c f frame behind more fit in
    ap (λ k. take (length (f ∷ frame)) (shifted (a ∷ b ∷ c ∷ f ∷ (frame ++ behind)) 24 0 k)) count
    ∙ (λ j. whole j ∷ rest j)

-- Masks without a bit.
zeros-IsByte : (n : ℕ) → All IsByte (zeros n)
zeros-IsByte zero = tt
zeros-IsByte (suc n) = (omega arith, zeros-IsByte n)

popcounts-take : (masks : List ℕ) (n : ℕ) → popcounts masks n ≡ popcounts (take n masks) n
popcounts-take masks zero = refl
popcounts-take [] (suc n) = refl
popcounts-take (m ∷ masks) (suc n) = ap (λ k. popcount 8 m + k) (popcounts-take masks n)

popcounts-zeros : (n : ℕ) → popcounts (zeros n) n ≡ 0
popcounts-zeros zero = refl
popcounts-zeros (suc n) = let r = popcounts-zeros n in omega (arith, r)

length-zeros : (n : ℕ) → length (zeros n) ≡ n
length-zeros zero = refl
length-zeros (suc n) = ap suc (length-zeros n)

-- What a receiver is to say of a frame that `system` sent.
pub record IsReceived (system : System) (frame : List ℕ) (r : Bool × Frame) : Type 0 where
  pub heard : r.0 ≡ true
  pub system_is : r.1.system ≡ system
  pub bytes_is : r.1.bytes ≡ length frame
  pub content_is : take (length frame) r.1.content ≡ frame
  pub no_erasures : take (length frame) r.1.erasures ≡ zeros (length frame)
  pub no_bad_chips : r.1.bad_chips ≡ 0

abbrev pub sync_word_of : System → ℕ
sync_word_of adsl_direct = adsl_sync_word
sync_word_of alptas = alptas_sync_word
sync_word_of system = 0

abbrev pub IsMBand : System → Type 0
IsMBand system = (system ≡ adsl_direct) ⊎ (system ≡ alptas)

take-shift_left :
    (a b c : ℕ) (frame behind : List ℕ)
    → length frame ≤ 26
    → All IsByte frame
    → take (length frame) (shift_left (a ∷ b ∷ c ∷ (frame ++ behind)) rx_frame_bytes 24) ≡ frame
unfolding shift_left
take-shift_left a b c frame behind le fit =
    let count : 29 ≡ length frame + (29 - length frame) = omega arith in
    ap (λ n. take (length frame) (shifted (a ∷ b ∷ c ∷ (frame ++ behind)) 24 0 n)) count
    ∙ take-shifted a b c frame behind (29 - length frame) fit

framed-IsReceived :
    (system : System) (a b c : ℕ) (frame behind masks : List ℕ)
    → length frame ≡ frame_bytes system
    → length frame ≤ 26
    → All IsByte frame
    → IsReceived system frame (
      true,
      framed system (a ∷ b ∷ c ∷ (frame ++ behind)) (0 ∷ 0 ∷ 0 ∷ (zeros (length frame) ++ masks)),
    )
unfolding framed
framed-IsReceived system a b c frame behind masks len le fit =
    let n = length frame in
    let size = length-zeros n in
    let shifted_masks = shift_left (0 ∷ 0 ∷ 0 ∷ (zeros n ++ masks)) rx_frame_bytes 24 in
    let clean : take n shifted_masks ≡ zeros n =
      subst (λ k. take k shifted_masks ≡ zeros n) size
        (take-shift_left 0 0 0 (zeros n) masks (omega arith) (zeros-IsByte n)) in
    record {
      heard = refl;
      system_is = refl;
      bytes_is = sym len;
      content_is = take-shift_left a b c frame behind le fit;
      no_erasures = clean;
      no_bad_chips =
          ap (λ k. u16 (popcounts shifted_masks k)) (sym len)
          ∙ ap u16
              (popcounts-take shifted_masks n ∙ ap (λ l. popcounts l n) clean ∙ popcounts-zeros n);
    }

-- The chips of a payload are decoded to the tail and the frame.
payload_decoded :
    (tail frame behind : List ℕ)
    → length tail ≡ 3
    → length frame ≤ 26
    → All IsByte tail
    → All IsByte frame
    → manchester_decode
        ((manchester_encode tail ++ manchester_encode frame) ++ behind)
        rx_frame_bytes
      ≡ before tail (before frame (manchester_decode behind (26 - length frame)))
payload_decoded tail frame behind three le tail_fit fit =
    let more = 26 - length frame in
    let count : 29 ≡ length tail + (length frame + more) = omega arith in
    ap (manchester_decode ((manchester_encode tail ++ manchester_encode frame) ++ behind)) count
    ∙ ap (λ l. manchester_decode l (length tail + (length frame + more)))
        (append_assoc (manchester_encode tail) (manchester_encode frame) behind)
    ∙ manchester_decode-encode tail (manchester_encode frame ++ behind) (length frame + more)
        tail_fit
    ∙ ap (before tail) (manchester_decode-encode frame behind more fit)

-- What `receive_m_band` makes of a decoded burst whose tail names the system.
receive_named :
    (system : System) (chips : List ℕ) (d : Decoded)
    → rx_frame_bytes * 2 ≤ length chips
    → manchester_decode chips rx_frame_bytes ≡ d
    → system_of d.out ≡ system
    → receive_m_band chips ≡ named system d.out d.error_mask
unfolding receive_m_band
receive_named system chips d enough e name =
    let long : ltb (length chips) 58 ≡ false = ground arith in rw (long, e, name) refl

named_whole :
    (system : System) (sync_word : ℕ) (frame behind : List ℕ)
    → named system ≡ (λ content erasures. (true, framed system content erasures))
    → ((rest : List ℕ) → system_of (tail_bytes sync_word ++ rest) ≡ system)
    → length frame ≡ frame_bytes system
    → length frame ≤ 26
    → All IsByte frame
    → rx_frame_bytes * 2 ≤ length (m_band_payload sync_word frame ++ behind)
    → IsReceived system frame (receive_m_band (m_band_payload sync_word frame ++ behind))
unfolding m_band_payload
named_whole system sync_word frame behind good name len le fit enough =
    let tail = tail_bytes sync_word in
    let more = manchester_decode behind (26 - length frame) in
    let d = before tail (before frame more) in
    let e =
      payload_decoded tail frame behind refl le (omega arith, (omega arith, (omega arith, tt)))
        fit in
    subst (IsReceived system frame)
      (sym (
        receive_named system (m_band_payload sync_word frame ++ behind) d enough e
          (name (frame ++ more.out))
        ∙ (λ i. good i d.out d.error_mask)))
      (framed-IsReceived system (u8 (sync_word / 2 ^ 16)) (u8 (sync_word / 2 ^ 8)) (u8 sync_word)
        frame more.out more.error_mask len le fit)

adsl_named : (rest : List ℕ) → system_of (tail_bytes adsl_sync_word ++ rest) ≡ adsl_direct
unfolding system_of
adsl_named rest = refl

alptas_named : (rest : List ℕ) → system_of (tail_bytes alptas_sync_word ++ rest) ≡ alptas
unfolding system_of
alptas_named rest = refl

-- A frame of bytes, as long as its system's frames are, that goes out behind the sync word of ADS-L
-- or of ALP-TAS is received as it was sent, whatever chips follow, where the receiver has the chips
-- of its whole window: the system is named, the bytes are the frame's, and none is marked as damaged.
pub receive_m_band-m_band_payload :
    (system : System) (frame behind : List ℕ)
    → IsMBand system
    → length frame ≡ frame_bytes system
    → All IsByte frame
    → rx_chip_bytes ≤ length (m_band_payload (sync_word_of system) frame ++ behind)
    → IsReceived system frame
        (receive_m_band (m_band_payload (sync_word_of system) frame ++ behind))
receive_m_band-m_band_payload adsl_direct frame behind m len fit enough =
    named_whole adsl_direct adsl_sync_word frame behind refl adsl_named len (omega arith) fit enough
receive_m_band-m_band_payload alptas frame behind m len fit enough =
    named_whole alptas alptas_sync_word frame behind refl alptas_named len (omega arith) fit enough
receive_m_band-m_band_payload unknown frame behind m len fit enough = absurd (ground arith)
receive_m_band-m_band_payload adsl_uplink frame behind m len fit enough = absurd (ground arith)
