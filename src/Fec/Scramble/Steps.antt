-- ===== src/Fec/Scramble/Steps.antt =====
-- A turn of either loop as steps that change one word by its two neighbours.
use skyblip.Base.{
  ℕ, zero, suc, ◌+◌, ◌-◌, ◌≤◌, ◌<◌, ◌≡◌, ◌≢◌, ◌∙◌, sym, ap, ◌==◌, if◌then◌else◌, u32, sub32, arith,
}
use skyblip.Base.Scans.{write}
use skyblip.Fec.Scramble.{
  Words, mix_key0, scramble_from, scramble_turn, descramble_from, descramble_turn,
}

abbrev pub behind : ℕ → ℕ → ℕ
behind n i = if i == 0 then n - 1 else i - 1

abbrev pub ahead : ℕ → ℕ → ℕ
ahead n i = if i == n - 1 then 0 else i + 1

-- What the neighbours add to a word.
abbrev pub mixed : ℕ → ℕ → ℕ → Words → ℕ
mixed n sum i words = mix_key0 (words (ahead n i)) (words (behind n i)) sum

abbrev pub forth : ℕ → ℕ → ℕ → Words → Words
forth n sum i words = write words i (u32 (words i + mixed n sum i words))

abbrev pub back : ℕ → ℕ → ℕ → Words → Words
back n sum i words = write words i (sub32 (words i) (mixed n sum i words))

-- The steps at `i`, `i + 1` and on, and those down to 0.
unfoldable pub forths : ℕ → ℕ → ℕ → ℕ → Words → Words
forths n sum i zero words = words
forths n sum i (suc rounds) words = forths n sum (i + 1) rounds (forth n sum i words)

unfoldable pub backs : ℕ → ℕ → ℕ → Words → Words
backs n sum zero words = words
backs n sum (suc rounds) words = backs n sum rounds (back n sum rounds words)

pub forths_last :
    (n sum i rounds : ℕ) (words : Words)
    → forths n sum i (suc rounds) words ≡ forth n sum (i + rounds) (forths n sum i rounds words)
unfolding forths
forths_last n sum i zero words = ap (λ k. forth n sum k words) (omega arith)
forths_last n sum i (suc rounds) words =
    forths_last n sum (i + 1) rounds (forth n sum i words)
    ∙ ap (λ k. forth n sum k (forths n sum (i + 1) rounds (forth n sum i words))) (omega arith)

pub write_here : (words : Words) (i v : ℕ) → write words i v i ≡ v
write_here words i v = ground arith

pub write_there : (words : Words) (i v j : ℕ) → i ≢ j → write words i v j ≡ words j
write_there words i v j ne = ground arith

ahead_inside : (n i : ℕ) → i < n - 1 → i + 1 ≡ ahead n i
ahead_inside n i lt = ground arith

ahead_last : (n : ℕ) → 0 ≡ ahead n (n - 1)
ahead_last n = ground arith

behind_next : (n i : ℕ) → i ≡ behind n (i + 1)
behind_next n i = ground arith

-- The inner loop's variable is the word that was written last.
scramble_from_lem :
    (n sum i rounds : ℕ) (words : Words)
    → i + rounds ≤ n - 1
    → scramble_from sum i rounds words (words (behind n i))
      ≡ (forths n sum i rounds words, forths n sum i rounds words (behind n (i + rounds)))
unfolding forths scramble_from
scramble_from_lem n sum i zero words le = ap (λ k. (words, words (behind n k))) (omega arith)
scramble_from_lem n sum i (suc rounds) words le =
    let value = λ (k : ℕ). u32 (words i + mix_key0 (words k) (words (behind n i)) sum) in
    let step = forth n sum i words in
    let written = ap (λ k. write words i (value k)) (ahead_inside n i (omega arith)) in
    let previous =
      ap value (ahead_inside n i (omega arith))
      ∙ sym (write_here words i (value (ahead n i)))
      ∙ ap step (behind_next n i) in
    (λ j. scramble_from sum (i + 1) rounds (written j) (previous j))
    ∙ scramble_from_lem n sum (i + 1) rounds step (omega arith)
    ∙ ap (λ k. (forths n sum (i + 1) rounds step, forths n sum (i + 1) rounds step (behind n k)))
        (omega arith)

pub forths_whole :
    (n sum : ℕ) (words : Words)
    → 1 < n
    → forths n sum 0 n words ≡ forth n sum (n - 1) (forths n sum 0 (n - 1) words)
forths_whole n sum words two =
    let count : n ≡ suc (n - 1) = omega arith in
    let from_zero : 0 + (n - 1) ≡ n - 1 = omega arith in
    ap (λ k. forths n sum 0 k words) count
    ∙ forths_last n sum 0 (n - 1) words
    ∙ ap (λ k. forth n sum k (forths n sum 0 (n - 1) words)) from_zero

-- A turn is a step at each index, and leaves the last word in the variable.
pub scramble_turn_lem :
    (n sum : ℕ) (words : Words)
    → 1 < n
    → scramble_turn n sum (words, words (n - 1))
      ≡ (forths n sum 0 n words, forths n sum 0 n words (n - 1))
unfolding scramble_turn
scramble_turn_lem n sum words two =
    let inner = forths n sum 0 (n - 1) words in
    let from_zero : 0 + (n - 1) ≡ n - 1 = omega arith in
    let value : ℕ → ℕ → ℕ =
      λ a k. u32 (inner (n - 1) + mix_key0 (inner a) (inner (behind n k)) sum) in
    let ended : Words × ℕ → Words × ℕ = λ state.
      let v = u32 (state.0 (n - 1) + mix_key0 (state.0 0) state.1 sum) in
      (write state.0 (n - 1) v, v) in
    let last : ℕ → ℕ → Words × ℕ = λ a k. (write inner (n - 1) (value a k), value a k) in
    let whole = sym (forths_whole n sum words two) in
    ap ended (scramble_from_lem n sum 0 (n - 1) words (omega arith))
    ∙ (λ j. last (ahead_last n j) (from_zero j))
    ∙ (λ j. (
      forth n sum (n - 1) inner,
      sym (write_here inner (n - 1) (value (ahead n (n - 1)) (n - 1))) j,
    ))
    ∙ (λ j. (whole j, whole j (n - 1)))

behind-suc : (n i : ℕ) → i ≡ behind n (suc i)
behind-suc n i = ground arith

suc-ahead : (n i : ℕ) → suc i < n → suc i ≡ ahead n i
suc-ahead n i lt = ground arith

-- The last step of a turn downwards, at the first word.
abbrev finished : ℕ → ℕ → Words × ℕ → Words × ℕ
finished n sum inner =
    let value = sub32 (inner.0 0) (mix_key0 inner.1 (inner.0 (n - 1)) sum) in
    (write inner.0 0 value, value)

descramble_from_lem :
    (n sum index : ℕ) (words : Words)
    → index < n
    → finished n sum (descramble_from sum index words (words (ahead n index)))
      ≡ (backs n sum (suc index) words, backs n sum (suc index) words 0)
unfolding descramble_from backs
descramble_from_lem n sum zero words lt =
    λ j. (back n sum 0 words, sym (write_here words 0 (sub32 (words 0) (mixed n sum 0 words))) j)
descramble_from_lem n sum (suc index) words lt =
    let value : ℕ → ℕ =
      λ k. sub32 (words (suc index)) (mix_key0 (words (ahead n (suc index))) (words k) sum) in
    let step = back n sum (suc index) words in
    let written = ap (λ k. write words (suc index) (value k)) (behind-suc n index) in
    let next =
      ap value (behind-suc n index)
      ∙ sym (write_here words (suc index) (value (behind n (suc index))))
      ∙ ap step (suc-ahead n index lt) in
    (λ j. finished n sum (descramble_from sum index (written j) (next j)))
    ∙ descramble_from_lem n sum index step (omega arith)

-- A turn downwards is a step at each index, and leaves the first word in the variable.
pub descramble_turn_lem :
    (n sum : ℕ) (words : Words)
    → 1 < n
    → descramble_turn n sum (words, words 0) ≡ (backs n sum n words, backs n sum n words 0)
unfolding descramble_turn
descramble_turn_lem n sum words two =
    let count : suc (n - 1) ≡ n = omega arith in
    ap (λ k. finished n sum (descramble_from sum (n - 1) words (words k))) (ahead_last n)
    ∙ descramble_from_lem n sum (n - 1) words (omega arith)
    ∙ (λ j. (backs n sum (count j) words, backs n sum (count j) words 0))
