-- ===== src/Fec/Scramble.antt =====
-- firmware/core/fec/scramble.h and scramble.cpp: the scrambling of a frame's words, XXTEA with a key
-- of zeros. The words are a function on the index, read and written below their number only.
pub mod Steps
pub mod Undone
use skyblip.Base.{ℕ, zero, suc, ◌+◌, ◌-◌, ◌*◌, ◌/◌, ◌%◌, ◌^◌, bit_xor, u32, sub32, ◌<<<◌, ◌>>>◌}
use skyblip.Base.Scans.{write}

-- A cast on the result says that it is a word.
pub mix_key0 : ℕ → ℕ → ℕ → ℕ
mix_key0 next previous sum = u32 (
    bit_xor
      (u32
        (bit_xor (previous >>> 5) (u32 (next <<< 2)) + bit_xor (next >>> 3) (u32 (previous <<< 4))))
      (u32 (bit_xor sum next + previous)))

abbrev pub delta : ℕ
delta = 0x9e3779b9

abbrev pub Words : Type 0
Words = ℕ → ℕ

-- The inner loop at `index` with `rounds` left: the words, and the variable `previous`.
pub scramble_from : ℕ → ℕ → ℕ → Words → ℕ → Words × ℕ
scramble_from sum index zero words previous = (words, previous)
scramble_from sum index (suc rounds) words previous =
    let value = u32 (words index + mix_key0 (words (index + 1)) previous sum) in
    scramble_from sum (index + 1) rounds (write words index value) value

-- One turn of the outer loop over `n` words.
pub scramble_turn : ℕ → ℕ → Words × ℕ → Words × ℕ
scramble_turn n sum state =
    let inner = scramble_from sum 0 (n - 1) state.0 state.1 in
    let value = u32 (inner.0 (n - 1) + mix_key0 (inner.0 0) inner.1 sum) in
    (write inner.0 (n - 1) value, value)

pub scramble_loop : ℕ → ℕ → ℕ → Words × ℕ → Words × ℕ
scramble_loop n zero sum state = state
scramble_loop n (suc loops) sum state =
    let next_sum = u32 (sum + delta) in
    scramble_loop n loops next_sum (scramble_turn n next_sum state)

pub xxtea_scramble_key0 : Words → ℕ → ℕ → Words
xxtea_scramble_key0 words n loops = (scramble_loop n loops 0 (words, words (n - 1))).0

-- The inner loop at an index that counts down, with the variable `next`.
pub descramble_from : ℕ → ℕ → Words → ℕ → Words × ℕ
descramble_from sum zero words next = (words, next)
descramble_from sum (suc index) words next =
    let value = sub32 (words (suc index)) (mix_key0 next (words index) sum) in
    descramble_from sum index (write words (suc index) value) value

pub descramble_turn : ℕ → ℕ → Words × ℕ → Words × ℕ
descramble_turn n sum state =
    let inner = descramble_from sum (n - 1) state.0 state.1 in
    let value = sub32 (inner.0 0) (mix_key0 inner.1 (inner.0 (n - 1)) sum) in
    (write inner.0 0 value, value)

pub descramble_loop : ℕ → ℕ → ℕ → Words × ℕ → Words × ℕ
descramble_loop n zero sum state = state
descramble_loop n (suc loops) sum state =
    descramble_loop n loops (sub32 sum delta) (descramble_turn n sum state)

pub xxtea_descramble_key0 : Words → ℕ → ℕ → Words
xxtea_descramble_key0 words n loops =
    (descramble_loop n loops (u32 (loops * delta)) (words, words 0)).0
