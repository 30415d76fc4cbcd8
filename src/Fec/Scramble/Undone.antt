-- ===== src/Fec/Scramble/Undone.antt =====
-- Descrambling undoes scrambling.
use skyblip.Base.{
  ℕ, zero, suc, ◌+◌, ◌-◌, ◌*◌, ◌^◌, ◌≤◌, ◌<◌, ◌≡◌, ◌≢◌, refl, ◌∙◌, sym, ap, subst, u32, sub32,
  arith,
}
use skyblip.Base.Scans.{write}
use skyblip.Fec.Scramble.{
  Words, delta, mix_key0, scramble_turn, scramble_loop, descramble_loop, xxtea_scramble_key0,
  xxtea_descramble_key0,
}
use skyblip.Fec.Scramble.Steps.{
  ahead, behind, mixed, forth, back, forths, backs, forths_last, scramble_turn_lem,
  descramble_turn_lem, write_here, write_there,
}

abbrev pub AreWords : Words → Type 0
AreWords words = (i : ℕ) → words i < 2 ^ 32

written-AreWords :
    (words : Words) (i v : ℕ) → v < 2 ^ 32 → AreWords words → AreWords (write words i v)
written-AreWords words i v fits are j = ground (arith, are j)

forth-AreWords : (n sum i : ℕ) (words : Words) → AreWords words → AreWords (forth n sum i words)
forth-AreWords n sum i words are =
    written-AreWords words i (u32 (words i + mixed n sum i words)) (omega arith) are

sub32-u32 : (a m : ℕ) → a < 2 ^ 32 → m < 2 ^ 32 → sub32 (u32 (a + m)) m ≡ a
sub32-u32 a m ha hm = omega arith

mix_key0-lt : (next previous sum : ℕ) → mix_key0 next previous sum < 2 ^ 32
unfolding mix_key0
mix_key0-lt next previous sum = omega arith

ahead_other : (n i : ℕ) → 1 < n → i < n → i ≢ ahead n i
ahead_other n i two lt = ground arith

behind_other : (n i : ℕ) → 1 < n → i < n → i ≢ behind n i
behind_other n i two lt = ground arith

-- A step changes no neighbour, so the step back finds what it added.
mixed-forth :
    (n sum i : ℕ) (words : Words)
    → 1 < n
    → i < n
    → mixed n sum i (forth n sum i words) ≡ mixed n sum i words
mixed-forth n sum i words two lt =
    let v = u32 (words i + mixed n sum i words) in
    let a = write_there words i v (ahead n i) (ahead_other n i two lt) in
    let b = write_there words i v (behind n i) (behind_other n i two lt) in
    λ j. mix_key0 (a j) (b j) sum

rewritten : (words : Words) (i v k : ℕ) → write (write words i v) i (words i) k ≡ words k
rewritten words i v k = ground arith

back-forth :
    (n sum i : ℕ) (words : Words)
    → 1 < n
    → i < n
    → AreWords words
    → back n sum i (forth n sum i words) ≡ words
back-forth n sum i words two lt are =
    let v = u32 (words i + mixed n sum i words) in
    let same = mixed-forth n sum i words two lt in
    let here = write_here words i v in
    let undone =
      (λ j. sub32 (here j) (same j))
      ∙ sub32-u32 (words i) (mixed n sum i words) (are i)
          (mix_key0-lt (words (ahead n i)) (words (behind n i)) sum) in
    (λ j. write (write words i v) i (undone j)) ∙ (λ j k. rewritten words i v k j)

forths-AreWords :
    (n sum rounds : ℕ) (words : Words) → AreWords words → AreWords (forths n sum 0 rounds words)
unfolding forths
forths-AreWords n sum zero words are = are
forths-AreWords n sum (suc rounds) words are =
    subst AreWords (sym (forths_last n sum 0 rounds words)) (
      forth-AreWords n sum (0 + rounds) (forths n sum 0 rounds words)
        (forths-AreWords n sum rounds words are))

backs-forths :
    (n sum rounds : ℕ) (words : Words)
    → 1 < n
    → rounds ≤ n
    → AreWords words
    → backs n sum rounds (forths n sum 0 rounds words) ≡ words
unfolding backs forths
backs-forths n sum zero words two le are = refl
backs-forths n sum (suc rounds) words two le are =
    let before = forths n sum 0 rounds words in
    let from_zero : 0 + rounds ≡ rounds = omega arith in
    ap (backs n sum (suc rounds)) (forths_last n sum 0 rounds words)
    ∙ ap (λ k. backs n sum (suc rounds) (forth n sum k before)) from_zero
    ∙ ap (backs n sum rounds)
        (back-forth n sum rounds before two (omega arith) (forths-AreWords n sum rounds words are))
    ∙ backs-forths n sum rounds words two (omega arith) are

-- The words after `k` turns, and before as many.
abbrev scrambled : ℕ → ℕ → Words → Words
scrambled n zero words = words
scrambled n (suc k) words = forths n (u32 (suc k * delta)) 0 n (scrambled n k words)

abbrev descrambled : ℕ → ℕ → Words → Words
descrambled n zero words = words
descrambled n (suc k) words = descrambled n k (backs n (u32 (suc k * delta)) n words)

scrambled-AreWords : (n k : ℕ) (words : Words) → AreWords words → AreWords (scrambled n k words)
scrambled-AreWords n zero words are = are
scrambled-AreWords n (suc k) words are =
    forths-AreWords n (u32 (suc k * delta)) n (scrambled n k words)
      (scrambled-AreWords n k words are)

descrambled-scrambled :
    (n k : ℕ) (words : Words)
    → 1 < n
    → AreWords words
    → descrambled n k (scrambled n k words) ≡ words
descrambled-scrambled n zero words two are = refl
descrambled-scrambled n (suc k) words two are =
    ap (descrambled n k) (
      backs-forths n (u32 (suc k * delta)) n (scrambled n k words) two (omega arith)
        (scrambled-AreWords n k words are))
    ∙ descrambled-scrambled n k words two are

-- The loops take these turns.
scramble_loop_lem :
    (n loops k : ℕ) (words : Words)
    → 1 < n
    → scramble_loop n loops (u32 (k * delta)) (scrambled n k words, scrambled n k words (n - 1))
      ≡ (scrambled n (k + loops) words, scrambled n (k + loops) words (n - 1))
unfolding scramble_loop
scramble_loop_lem n zero k words two =
    ap (λ m. (scrambled n m words, scrambled n m words (n - 1))) (omega arith)
scramble_loop_lem n (suc loops) k words two =
    let grown : u32 (u32 (k * delta) + delta) ≡ u32 (suc k * delta) = omega arith in
    let count : suc k + loops ≡ k + suc loops = omega arith in
    ap
      (λ sum.
        scramble_loop n loops sum
          (scramble_turn n sum (scrambled n k words, scrambled n k words (n - 1))))
      grown
    ∙ ap (scramble_loop n loops (u32 (suc k * delta)))
        (scramble_turn_lem n (u32 (suc k * delta)) (scrambled n k words) two)
    ∙ scramble_loop_lem n loops (suc k) words two
    ∙ ap (λ m. (scrambled n m words, scrambled n m words (n - 1))) count

descramble_loop_lem :
    (n loops : ℕ) (words : Words)
    → 1 < n
    → descramble_loop n loops (u32 (loops * delta)) (words, words 0)
      ≡ (descrambled n loops words, descrambled n loops words 0)
unfolding descramble_loop
descramble_loop_lem n zero words two = refl
descramble_loop_lem n (suc loops) words two =
    let sum = u32 (suc loops * delta) in
    let shrunk : sub32 sum delta ≡ u32 (loops * delta) = omega arith in
    (λ j. descramble_loop n loops (shrunk j) (descramble_turn_lem n sum words two j))
    ∙ descramble_loop_lem n loops (backs n sum n words) two

-- However many turns are made, and over any number of words from two on, descrambling gives back the
-- words that were scrambled.
pub xxtea_descramble-scramble :
    (words : Words) (n loops : ℕ)
    → 1 < n
    → AreWords words
    → xxtea_descramble_key0 (xxtea_scramble_key0 words n loops) n loops ≡ words
unfolding xxtea_scramble_key0 xxtea_descramble_key0
xxtea_descramble-scramble words n loops two are =
    let from_zero : 0 + loops ≡ loops = omega arith in
    let up =
      ap (λ state. state.0) (scramble_loop_lem n loops 0 words two)
      ∙ ap (λ m. scrambled n m words) from_zero in
    ap (λ w. xxtea_descramble_key0 w n loops) up
    ∙ ap (λ state. state.0) (descramble_loop_lem n loops (scrambled n loops words) two)
    ∙ descrambled-scrambled n loops words two are
