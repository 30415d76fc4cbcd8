-- ===== src/Store/Allocator/Sessions/Counted.antt =====
-- Counts of the labels up to a bound, where no two sectors that pass a test share a label.
use skyblip.Base.{
  ℕ, zero, suc, ◌+◌, ◌≤◌, ◌<◌, ◌≡◌, refl, ◌⊎◌, inl, inr, Bool, true, ◌&&◌, arith, leb, ◌==◌,
  Bool-cases,
}
use skyblip.Store.Allocator.{tally}

-- The tally of the first `k` sectors that pass the test with a label up to the bound.
abbrev pub up_to : (ℕ → Bool) → (ℕ → ℕ) → ℕ → ℕ → ℕ
up_to test label k bound = tally k (λ c. test c && leb (label c) bound)

module _ (test : ℕ → Bool) (label : ℕ → ℕ) where
  pub up_to_mono : (k s d : ℕ) → up_to test label k s ≤ up_to test label k (s + d)
  up_to_mono zero s d = omega arith
  up_to_mono (suc k) s d = ground (arith, up_to_mono k s d)

  pub up_to-zero :
      (k s : ℕ) → ((c : ℕ) → c < k → test c ≡ true → s < label c) → up_to test label k s ≡ 0
  up_to-zero zero s h = refl
  up_to-zero (suc k) s h = ground (arith, h k, up_to-zero k s (λ c l. h c (omega arith)))

  pub up_to-full :
      (k s : ℕ)
      → ((c : ℕ) → c < k → test c ≡ true → label c ≤ s)
      → up_to test label k s ≡ tally k test
  up_to-full zero s h = refl
  up_to-full (suc k) s h = ground (arith, h k, up_to-full k s (λ c l. h c (omega arith)))

  -- One more in the bound counts the sector with that label, if there is one.
  abbrev pub IsNext : ℕ → ℕ → Type 0
  IsNext k s =
      (up_to test label k (suc s) ≡ up_to test label k s)
      ⊎ (((c : ℕ) × (c < k) × (test c ≡ true) × (label c ≡ suc s))
          × (up_to test label k (suc s) ≡ suc (up_to test label k s)))

  module _ (n : ℕ)
      (distinct : (c d : ℕ)
        → c < n
        → d < n
        → test c ≡ true
        → test d ≡ true
        → label c ≡ label d
        → c ≡ d) where
    pub up_to-IsNext : (k s : ℕ) → k ≤ n → IsNext k s
    up_to-IsNext zero s le = inl refl
    up_to-IsNext (suc k) s le = elim (Bool-cases (test k && (label k == suc s))) [
      | inl here ↦ elim (up_to-IsNext k s (omega arith)) [
        | inl same ↦ inr ((k, omega arith, ground arith, ground arith), ground (arith, here, same))
        | inr ((c, lt, t, e), more) ↦
            absurd (ground (arith, here, distinct c k (omega arith) (omega arith) t, e))
      ]
      | inr other ↦ elim (up_to-IsNext k s (omega arith)) [
        | inl same ↦ inl (ground (arith, other, same))
        | inr ((c, lt, t, e), more) ↦ inr ((c, omega arith, t, e), ground (arith, other, more))
      ]
    ]

    up_to-suc : (s : ℕ) → up_to test label n (suc s) ≤ suc (up_to test label n s)
    up_to-suc s = elim (up_to-IsNext n s (omega arith)) [
      | inl same ↦ omega (arith, same)
      | inr (there, more) ↦ omega (arith, more)
    ]

    -- `d` more labels count at most `d` sectors more.
    pub up_to-add : (s d : ℕ) → up_to test label n (d + s) ≤ d + up_to test label n s
    up_to-add s zero = let e : 0 + s ≡ s = omega arith in rw e (omega arith)
    up_to-add s (suc d) =
        let more = up_to-suc (d + s) in
        let rest = up_to-add s d in
        let e : suc d + s ≡ suc (d + s) = omega arith in rw e (omega (arith, more, rest))

    -- The lowest label up to which more than `index` sectors pass is the label of one, with `index`
    -- of them below it.
    pub up_to-nth :
        (index s : ℕ)
        → index < up_to test label n (suc s)
        → up_to test label n s ≤ index
        → ((c : ℕ) × (c < n) × (test c ≡ true) × (label c ≡ suc s))
          × (up_to test label n (suc s) ≡ suc index)
    up_to-nth index s more few = elim (up_to-IsNext n s (omega arith)) [
      | inl same ↦ absurd (omega (arith, same))
      | inr (there, next) ↦ (there, omega (arith, next))
    ]
