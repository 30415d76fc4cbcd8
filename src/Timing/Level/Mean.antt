-- ===== src/Timing/Level/Mean.antt =====
-- The mean of a window lies between its quietest and its loudest reading.
use skyblip.Base.{
  ℕ, zero, suc, ◌+◌, ◌-◌, ◌*◌, ◌/◌, ◌^◌, ◌≤◌, ◌<◌, ◌≡◌, refl, subst, inl, inr, true, ◌&&◌, arith,
  ltb, leb, ◌==◌, Bool-cases, List, [], ◌∷◌, length, All, every, every_at, u32,
}
use native.Mathlib.Nat.{le-div_iff_mul-le}
use skyblip.Timing.Level.Settles.{diff-parts}
use skyblip.Base.Int.{ℤ, pos_part, neg_part, ltb_ℤ}
use skyblip.Timing.Level.{
  diff, ratio_at, louder, peak_of, down_from, sum_from, decibels_from, mean_of, mean_dbm,
  kept_samples,
}

-- `a` is no more than `b`.
abbrev pub IsAtMost : ℤ → ℤ → Type 0
IsAtMost a b = pos_part a + neg_part b ≤ pos_part b + neg_part a

-- The table falls from one entry to the next.
falls : every 16 (λ down. ltb (ratio_at (down + 1)) (ratio_at down)) ≡ true
unfolding every
falls = refl

ratio-lt : (down : ℕ) → down < 16 → ratio_at (down + 1) < ratio_at down
ratio-lt down lt =
    let is = every_at 16 (λ d. ltb (ratio_at (d + 1)) (ratio_at d)) falls down lt in
    ground (arith, is)

-- So of two entries, the one further down is the smaller.
ratio-le : (down more : ℕ) → down + more < 17 → ratio_at (down + more) ≤ ratio_at down
ratio-le down zero lt = let e : down + zero ≡ down = omega arith in rw e (omega arith)
ratio-le down (suc more) lt =
    let e : down + suc more ≡ (down + more) + 1 = omega arith in
    let next = ratio-lt (down + more) (omega arith) in
    let rest = ratio-le down more (omega arith) in rw e (omega (arith, next, rest))

ratio_between :
    (down deep : ℕ)
    → down ≤ deep
    → deep < 17
    → (ratio_at deep ≤ ratio_at down) × (ratio_at down ≤ 1048576)
ratio_between down deep le lt =
    let e : down + (deep - down) ≡ deep = omega arith in
    let under =
      subst (λ k. ratio_at k ≤ ratio_at down) e (ratio-le down (deep - down) (omega arith)) in
    let f : 0 + down ≡ down = omega arith in
    let top = subst (λ k. ratio_at k ≤ 1048576) f (ratio-le 0 down (omega arith)) in (under, top)

-- The loudest of a window.
peak_of-le :
    (peak hi : ℤ) (xs : List ℤ)
    → IsAtMost peak hi
    → All (λ s. IsAtMost s hi) xs
    → IsAtMost (peak_of peak xs) hi
unfolding peak_of
peak_of-le peak hi [] p a = p
peak_of-le peak hi (s ∷ rest) p a = elim (Bool-cases (ltb_ℤ peak s)) [
  | inl up ↦ rw up (peak_of-le s hi rest (a.0) (a.1))
  | inr down ↦ rw down (peak_of-le peak hi rest p (a.1))
]

le-peak_of : (peak lo : ℤ) (xs : List ℤ) → IsAtMost lo peak → IsAtMost lo (peak_of peak xs)
unfolding peak_of
le-peak_of peak lo [] p = p
le-peak_of peak lo (s ∷ rest) p = elim (Bool-cases (ltb_ℤ peak s)) [
  | inl up ↦ rw up (le-peak_of s lo rest (ground (arith, up)))
  | inr down ↦ rw down (le-peak_of peak lo rest p)
]

le-louder : (a b : ℤ) → IsAtMost a (louder a b)
le-louder a b = elim (Bool-cases (ltb_ℤ b a)) [
  | inl up ↦ rw up (omega arith)
  | inr down ↦ rw down (ground (arith, down))
]

each-peak_of : (peak : ℤ) (xs : List ℤ) → All (λ s. IsAtMost s (peak_of peak xs)) xs
unfolding peak_of
each-peak_of peak [] = tt
each-peak_of peak (s ∷ rest) =
    (le-peak_of (louder s peak) s rest (le-louder s peak), each-peak_of (louder s peak) rest)

-- Every reading no further down than `deep` adds at least its share.
sum_from-ge :
    (peak : ℤ) (deep : ℕ) (xs : List ℤ) (sum : ℕ)
    → deep < 17
    → All (λ s. down_from peak s ≤ deep) xs
    → sum + length xs * 1048576 < 2 ^ 32
    → sum + length xs * ratio_at deep ≤ sum_from peak xs sum
unfolding sum_from
sum_from-ge peak deep [] sum lt a fits = omega arith
sum_from-ge peak deep (s ∷ rest) sum lt a fits =
    let (share, top) = ratio_between (down_from peak s) deep (a.0) lt in
    let inside : ltb (down_from peak s) 17 ≡ true = ground (arith, a.0, lt) in
    let whole : u32 (sum + ratio_at (down_from peak s)) ≡ sum + ratio_at (down_from peak s) =
      omega (arith, top, fits) in
    let rest_ge =
      sum_from-ge peak deep rest (sum + ratio_at (down_from peak s)) lt (a.1)
        (omega (arith, top, fits)) in
    rw (inside, whole) (grind (arith, rest_ge, share))

-- The last loop stays in the span, and stops where the table falls under the mean.
decibels_from-span : (mean down rounds : ℕ) → down < 17 → decibels_from mean down rounds < 17
unfolding decibels_from
decibels_from-span mean down zero lt = lt
decibels_from-span mean down (suc rounds) lt =
    ground (arith, decibels_from-span mean (down + 1) rounds)

decibels_from-le :
    (mean down rounds deep : ℕ)
    → deep < 17
    → ratio_at deep ≤ mean
    → down ≤ deep
    → decibels_from mean down rounds ≤ deep
unfolding decibels_from
decibels_from-le mean down zero deep lt ge le = le
decibels_from-le mean down (suc rounds) deep lt ge le =
    elim (Bool-cases (ltb (down + 1) 17 && leb mean (ratio_at (down + 1)))) [
      | inr stop ↦ rw stop le
      | inl on ↦ elim (Bool-cases (down == deep)) [
        | inl here ↦
            let at : down ≡ deep = ground (arith, here) in
            let falling =
              subst (λ k. ratio_at (k + 1) < ratio_at k) at (ratio-lt down (ground (arith, on))) in
            let high = subst (λ k. leb mean (ratio_at (k + 1)) ≡ true) at (ground (arith, on)) in
            absurd (ground (arith, falling, high, ge))
        | inr before ↦
            rw on (decibels_from-le mean (down + 1) rounds deep lt ge (ground (arith, before, le)))
      ]
    ]

each_down :
    (peak lo : ℤ) (xs : List ℤ)
    → All (λ s. IsAtMost lo s) xs
    → All (λ s. down_from peak s ≤ down_from peak lo) xs
each_down peak lo [] a = tt
each_down peak lo (s ∷ rest) a = (ground (arith, a.0), each_down peak lo rest (a.1))

-- The peak lowered by no more than its distance from a quietest reading.
lowered :
    (peak lo hi : ℤ) (by : ℕ)
    → by ≤ down_from peak lo
    → IsAtMost lo peak
    → IsAtMost peak hi
    → IsAtMost lo (diff (pos_part peak) (neg_part peak + by))
      × IsAtMost (diff (pos_part peak) (neg_part peak + by)) hi
lowered peak lo hi by le above under =
    let parts = diff-parts (pos_part peak) (neg_part peak + by) in
    (omega (arith, parts, le, above), omega (arith, parts, under))

module _ (lo hi s : ℤ) (rest : List ℤ) (fits : length (s ∷ rest) ≤ 16)
    (quiet : All (λ x. IsAtMost lo x) (s ∷ rest)) where
  abbrev peak : ℤ
  peak = peak_of s rest

  abbrev mean : ℕ
  mean = sum_from peak (s ∷ rest) 0 / length (s ∷ rest)

  mean_deep : (deep : ℕ) → deep < 17 → down_from peak lo ≡ deep → ratio_at deep ≤ mean
  mean_deep deep lt e =
      let each =
        subst (λ d. All (λ x. down_from peak x ≤ d) (s ∷ rest)) e
          (each_down peak lo (s ∷ rest) quiet) in
      let sum = sum_from-ge peak deep (s ∷ rest) 0 lt each (omega (arith, fits)) in
      (le-div_iff_mul-le (omega arith)).1 (grind (arith, sum))

  within_down : decibels_from mean 0 17 ≤ down_from peak lo
  within_down = elim (Bool-cases (ltb (down_from peak lo) 17)) [
    | inl near ↦
        let lt : down_from peak lo < 17 = ground (arith, near) in
        decibels_from-le mean 0 17 (down_from peak lo) lt (mean_deep (down_from peak lo) lt refl)
          (omega arith)
    | inr far ↦
        let le = decibels_from-span mean 0 17 (omega arith) in
        let beyond : 17 ≤ down_from peak lo = ground (arith, far) in omega (arith, le, beyond)
  ]

  mean_of-IsBetween :
      All (λ x. IsAtMost x hi) (s ∷ rest)
      → IsAtMost lo (mean_of (s ∷ rest)) × IsAtMost (mean_of (s ∷ rest)) hi
  mean_of-IsBetween loud =
      lowered peak lo hi (decibels_from mean 0 17) within_down (le-peak_of s lo rest (quiet.0))
        (peak_of-le s hi rest (loud.0) (loud.1))

length-kept_samples : (count : ℕ) (xs : List ℤ) → length (kept_samples count xs) ≤ count
length-kept_samples zero xs = omega arith
length-kept_samples (suc count) [] = omega arith
length-kept_samples (suc count) (x ∷ xs) = omega (arith, length-kept_samples count xs)

-- The mean of a window that is not empty lies between any two levels that its first sixteen readings
-- lie between: it is never below the quietest of them nor above the loudest.
pub mean_dbm-IsAtMost :
    (lo hi : ℤ) (samples : List ℤ)
    → 0 < length samples
    → All (λ x. IsAtMost lo x) (kept_samples 16 samples)
    → All (λ x. IsAtMost x hi) (kept_samples 16 samples)
    → IsAtMost lo (mean_dbm samples) × IsAtMost (mean_dbm samples) hi
unfolding mean_dbm
mean_dbm-IsAtMost lo hi [] some_read quiet loud = absurd (omega arith)
mean_dbm-IsAtMost lo hi (s ∷ rest) some_read quiet loud =
    mean_of-IsBetween lo hi s (kept_samples 15 rest) (length-kept_samples 16 (s ∷ rest)) quiet loud
