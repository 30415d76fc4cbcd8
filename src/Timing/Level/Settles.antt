-- ===== src/Timing/Level/Settles.antt =====
-- The average reaches a steady reading and stays there.
use skyblip.Base.{ℕ, zero, suc, ◌+◌, ◌-◌, ◌*◌, ◌≤◌, ◌<◌, ◌≡◌, refl, sym, ap, arith}
use skyblip.Base.Int.{ℤ, pos, negsuc, pos_part, neg_part}
use skyblip.Timing.Level.{NoiseFloor, diff, residual_of, step_size, moved, sample, level_dbm}

-- `rssi_dbm * 100`.
abbrev pub centi : ℤ → ℤ
centi rssi = diff (100 * pos_part rssi) (100 * neg_part rssi)

-- The size of the residual.
abbrev pub distance : ℤ → ℤ → ℕ
distance rssi level = pos_part (residual_of rssi level) + neg_part (residual_of rssi level)

step_size-le : (n : ℕ) → step_size (suc n) ≤ suc n
step_size-le n = ground arith

step_size-pos : (n : ℕ) → 0 < step_size (suc n)
step_size-pos n = ground arith

abbrev size_of : ℤ → ℕ
size_of z = pos_part z + neg_part z

pub diff-parts : (m n : ℕ) → pos_part (diff m n) + n ≡ neg_part (diff m n) + m
diff-parts m n = ground arith

diff-above : (m n k : ℕ) → m ≡ n + k → size_of (diff m n) ≡ k
diff-above m n k e = ground arith

diff-below : (m n k : ℕ) → n ≡ m + k → size_of (diff m n) ≡ k
diff-below m n k e = ground arith

diff-pos : (m n k : ℕ) → diff m n ≡ pos k → m ≡ n + k
diff-pos m n k e = ground (arith, e)

diff-negsuc : (m n k : ℕ) → diff m n ≡ negsuc k → n ≡ m + suc k
diff-negsuc m n k e = ground (arith, e)

-- A step takes the residual down by its size, and never past zero.
moved-distance :
    (rssi level residual : ℤ)
    → residual_of rssi level ≡ residual
    → (distance rssi (moved level residual) ≤ size_of residual - 1)
      × (size_of residual ≡ distance rssi level)
moved-distance rssi level (pos zero) e =
    let m = 100 * pos_part rssi + neg_part level in
    let n = 100 * neg_part rssi + pos_part level in
    let same = diff-above m n 0 (diff-pos m n 0 e) in (omega (arith, same), omega (arith, same))
moved-distance rssi level (pos (suc k)) e =
    let m = 100 * pos_part rssi + neg_part level in
    let n = 100 * neg_part rssi + pos_part level in
    let above = diff-pos m n (suc k) e in
    let s = step_size (suc k) in
    let parts = diff-parts (pos_part level + s) (neg_part level) in
    let next = moved level (pos (suc k)) in
    let left =
      diff-above (100 * pos_part rssi + neg_part next) (100 * neg_part rssi + pos_part next)
        (suc k - s) (omega (arith, above, parts, step_size-le k)) in
    (omega (arith, left, step_size-pos k), sym (ap size_of e))
moved-distance rssi level (negsuc k) e =
    let m = 100 * pos_part rssi + neg_part level in
    let n = 100 * neg_part rssi + pos_part level in
    let below = diff-negsuc m n k e in
    let s = step_size (suc k) in
    let parts = diff-parts (pos_part level) (neg_part level + s) in
    let next = moved level (negsuc k) in
    let left =
      diff-below (100 * pos_part rssi + neg_part next) (100 * neg_part rssi + pos_part next)
        (suc k - s) (omega (arith, below, parts, step_size-le k)) in
    (omega (arith, left, step_size-pos k), sym (ap size_of e))

-- `rounds` samples of one reading.
abbrev pub sampled : ℕ → ℤ → NoiseFloor → NoiseFloor
sampled zero rssi f = f
sampled (suc rounds) rssi f = sampled rounds rssi (sample rssi f)

sampled-distance :
    (rounds : ℕ) (rssi : ℤ) (f : NoiseFloor)
    → distance rssi f.level_centi_dbm ≤ rounds
    → distance rssi (sampled rounds rssi f).level_centi_dbm ≡ 0
unfolding sample
sampled-distance zero rssi f le = omega arith
sampled-distance (suc rounds) rssi f le =
    let step = moved-distance rssi f.level_centi_dbm (residual_of rssi f.level_centi_dbm) refl in
    sampled-distance rounds rssi (sample rssi f) (omega (arith, step))

-- A level without a residual is the reading, in its hundredths.
none_left :
    (rssi level : ℤ)
    → distance rssi level ≡ 0
    → 100 * pos_part rssi + neg_part level ≡ 100 * neg_part rssi + pos_part level
none_left rssi level e =
    let m = 100 * pos_part rssi + neg_part level in
    let n = 100 * neg_part rssi + pos_part level in
    let parts = diff-parts m n in omega (arith, parts, e)

reached :
    (rssi level : ℤ)
    → 100 * pos_part rssi + neg_part level ≡ 100 * neg_part rssi + pos_part level
    → pos_part rssi ≤ 127
    → neg_part rssi ≤ 128
    → (samples : ℕ) → level_dbm (record { level_centi_dbm = level; samples = samples }) ≡ rssi
unfolding level_dbm
reached (pos a) (pos b) e hi lo samples = ground (arith, e)
reached (pos a) (negsuc b) e hi lo samples = ground (arith, e)
reached (negsuc a) (pos b) e hi lo samples = ground (arith, e)
reached (negsuc a) (negsuc b) e hi lo samples = ground (arith, e)

-- Whatever the average is, as many samples of one int8_t reading as it is hundredths of a dBm away
-- from it bring it to that reading exactly.
pub sampled-level_dbm :
    (rssi : ℤ) (f : NoiseFloor) (rounds : ℕ)
    → pos_part rssi ≤ 127
    → neg_part rssi ≤ 128
    → distance rssi f.level_centi_dbm ≤ rounds
    → level_dbm (sampled rounds rssi f) ≡ rssi
sampled-level_dbm rssi f rounds hi lo le =
    let g = sampled rounds rssi f in
    reached rssi g.level_centi_dbm
      (none_left rssi g.level_centi_dbm (sampled-distance rounds rssi f le)) hi lo g.samples
