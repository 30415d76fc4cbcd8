-- ===== src/Timing/Level.antt =====
-- NoiseFloor and ChannelLevel of firmware/core/timing/channel.h and channel.cpp: the average that
-- follows the channel, and the mean of a run of readings. A reading is an int8_t, the average an
-- int32_t in hundredths of a dBm, which stays far inside its range. A null pointer is an empty list.
pub mod Settles
pub mod Mean
mod Tests
use skyblip.Base.{
  ℕ, zero, suc, ◌+◌, ◌-◌, ◌*◌, ◌/◌, ◌&&◌, ltb, leb, ◌==◌, if◌then◌else◌, u32, min, List, [], ◌∷◌,
  length, get_or,
}
use skyblip.Base.Int.{ℤ, pos, negsuc, pos_part, neg_part, ltb_ℤ}

-- The difference of two natural numbers.
abbrev pub diff : ℕ → ℕ → ℤ
diff m n = if ltb m n then negsuc (n - m - 1) else pos (m - n)

abbrev pub seed_dbm : ℤ
seed_dbm = negsuc 104

abbrev pub weight_percent : ℕ
weight_percent = 5

pub record NoiseFloor : Type 0 where
  pub level_centi_dbm : ℤ
  pub samples : ℕ

abbrev pub noise_floor : NoiseFloor
noise_floor = record { level_centi_dbm = negsuc (100 * 105 - 1); samples = 0 }

-- `rssi_dbm * 100 - level`.
abbrev pub residual_of : ℤ → ℤ → ℤ
residual_of rssi level =
    diff (100 * pos_part rssi + neg_part level) (100 * neg_part rssi + pos_part level)

-- The size of the step at a residual that is not zero.
abbrev pub step_size : ℕ → ℕ
step_size residual = let step = residual * weight_percent / 100 in if step == 0 then 1 else step

-- The level moved by the step that the residual asks for.
abbrev pub moved : ℤ → ℤ → ℤ
moved level (pos zero) = level
moved level (pos (suc n)) = diff (pos_part level + step_size (suc n)) (neg_part level)
moved level (negsuc n) = diff (pos_part level) (neg_part level + step_size (suc n))

unfoldable pub sample : ℤ → NoiseFloor → NoiseFloor
sample rssi f = record {
  level_centi_dbm = moved f.level_centi_dbm (residual_of rssi f.level_centi_dbm);
  samples = u32 (f.samples + 1);
}

-- Rounded to whole decibels, away from zero at the half, and held to an int8_t.
unfoldable pub level_dbm : NoiseFloor → ℤ
level_dbm f =
    let above = (pos_part f.level_centi_dbm + 50) / 100 in
    let below = (neg_part f.level_centi_dbm + 50) / 100 in
    if leb 1 (neg_part f.level_centi_dbm) then diff 0 (min below 128) else pos (min above 127)

abbrev pub max_samples : ℕ
max_samples = 16

abbrev pub power_ratio_q20 : List ℕ
power_ratio_q20 =
    1048576 ∷ 832914 ∷ 661607 ∷ 525533 ∷ 417446 ∷ 331589 ∷ 263390 ∷ 209218 ∷ 166188 ∷ 132008
    ∷ 104858 ∷ 83291 ∷ 66161 ∷ 52553 ∷ 41745 ∷ 33159 ∷ 26339 ∷ []

abbrev pub power_ratio_span_db : ℕ
power_ratio_span_db = 17

abbrev pub ratio_at : ℕ → ℕ
ratio_at down = get_or power_ratio_q20 down 0

-- `std::max`.
abbrev pub louder : ℤ → ℤ → ℤ
louder a b = if ltb_ℤ b a then a else b

unfoldable pub peak_of : ℤ → List ℤ → ℤ
peak_of peak [] = peak
peak_of peak (s ∷ rest) = peak_of (louder s peak) rest

-- `peak - sample`, which is never negative.
abbrev pub down_from : ℤ → ℤ → ℕ
down_from peak s = pos_part peak + neg_part s - (neg_part peak + pos_part s)

unfoldable pub sum_from : ℤ → List ℤ → ℕ → ℕ
sum_from peak [] sum = sum
sum_from peak (s ∷ rest) sum =
    let down = down_from peak s in
    sum_from peak rest (if ltb down power_ratio_span_db then u32 (sum + ratio_at down) else sum)

-- The last loop at `down`, with the rounds that the span leaves.
unfoldable pub decibels_from : ℕ → ℕ → ℕ → ℕ
decibels_from mean down zero = down
decibels_from mean down (suc rounds) =
    let on = decibels_from mean (down + 1) rounds in
    if ltb (down + 1) power_ratio_span_db && leb mean (ratio_at (down + 1)) then on else down

-- At most sixteen readings.
abbrev pub mean_of : List ℤ → ℤ
mean_of [] = pos 0
mean_of (s ∷ rest) =
    let peak = peak_of s rest in
    let mean = sum_from peak (s ∷ rest) 0 / length (s ∷ rest) in
    diff (pos_part peak) (neg_part peak + decibels_from mean 0 power_ratio_span_db)

-- The first `count` readings.
abbrev pub kept_samples : ℕ → List ℤ → List ℤ
kept_samples zero samples = []
kept_samples (suc count) [] = []
kept_samples (suc count) (s ∷ rest) = s ∷ kept_samples count rest

unfoldable pub mean_dbm : List ℤ → ℤ
mean_dbm samples = mean_of (kept_samples max_samples samples)
