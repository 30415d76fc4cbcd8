-- ===== src/Store/Allocator/Scans.antt =====
-- What the scans find: the highest label of a ring, and the lowest above a bound.
use skyblip.Base.{
  ℕ, zero, suc, ◌≤◌, ◌<◌, ◌≡◌, refl, ◌⊎◌, inl, inr, Bool, true, false, not, ◌||◌, ◌&&◌, Option,
  none, some, arith, ltb, leb, if◌then◌else◌, Bool-cases, ltb→lt, subst, sym, ◌∙◌, ap,
}
use native.Mathlib.Nat.{le_refl}
use mathlib.Core.Bool.{false≢true}
use skyblip.Store.Sector.{SectorOwner}
use skyblip.Store.Allocator.{
  SectorAllocator, Match, Found, scan, owned_by, frontier, matches, lowest_above,
}

-- `r` is the highest, or the lowest, label of the first `n` sectors that pass a test.
abbrev pub IsHighest : (ℕ → Bool) → (ℕ → ℕ) → ℕ → Option Found → Type 0
IsHighest test label n none = (c : ℕ) → c < n → test c ≡ false
IsHighest test label n (some f) =
    (f.sector < n)
    × (test f.sector ≡ true)
    × (f.sequence ≡ label f.sector)
    × ((c : ℕ) → c < n → test c ≡ true → label c ≤ f.sequence)

abbrev pub IsLowest : (ℕ → Bool) → (ℕ → ℕ) → ℕ → Option Found → Type 0
IsLowest test label n none = (c : ℕ) → c < n → test c ≡ false
IsLowest test label n (some f) =
    (f.sector < n)
    × (test f.sector ≡ true)
    × (f.sequence ≡ label f.sector)
    × ((c : ℕ) → c < n → test c ≡ true → f.sequence ≤ label c)

-- A property of every sector below `suc n`, from those below `n` and `n` itself.
below_suc {ℓ} : (P : ℕ → Type ℓ) (n : ℕ) → P n → ((c : ℕ) → c < n → P c) → (c : ℕ) → c < suc n → P c
below_suc P n p h c lt = elim (split c lt) [ inl e ↦ subst P (sym e) p | inr l ↦ h c l ]
  where
    split : (c : ℕ) → c < suc n → (c ≡ n) ⊎ (c < n)
    split c lt = omega arith

-- A scan that skips what fails a test, and keeps the better of what it has and what it meets.
module _ (test skip : ℕ → Bool) (label : ℕ → ℕ) (agree : (c : ℕ) → skip c ≡ not (test c)) where
  abbrev met : ℕ → Found
  met c = record { sector = c; sequence = label c }

  abbrev higher : ℕ → Option Found → Option Found
  higher c acc = if skip c then acc else elim acc [
    | none ↦ some (met c)
    | some f ↦ if ltb (label c) f.sequence then some f else some (met c)
  ]

  abbrev lower : ℕ → Option Found → Option Found
  lower c acc = if skip c then acc else elim acc [
    | none ↦ some (met c)
    | some f ↦ if ltb f.sequence (label c) then some f else some (met c)
  ]

  skipped : (n : ℕ) → test n ≡ false → skip n ≡ true
  skipped n h = agree n ∙ ap not h

  kept : (n : ℕ) → test n ≡ true → skip n ≡ false
  kept n h = agree n ∙ ap not h

  IsHighest-none :
      (n : ℕ) → IsHighest test label n none → IsHighest test label (suc n) (higher n none)
  IsHighest-none n h = elim (Bool-cases (test n)) [
    | inl t ↦ rw (kept n t) (
      omega arith,
      t,
      refl,
      below_suc (λ c. test c ≡ true → label c ≤ label n) n (λ _. le_refl _)
          (λ c l u. absurd (false≢true (sym (h c l) ∙ u))),
    )
    | inr t ↦ rw (skipped n t) (below_suc (λ c. test c ≡ false) n t h)
  ]

  IsHighest-some :
      (n : ℕ) (f : Found)
      → IsHighest test label n (some f)
      → IsHighest test label (suc n) (higher n (some f))
  IsHighest-some n f (lt, t, e, h) = elim (Bool-cases (test n)) [
    | inr u ↦ rw (skipped n u) (old (λ v. absurd (false≢true (sym u ∙ v))))
    | inl u ↦ elim (Bool-cases (ltb (label n) f.sequence)) [
      | inl w ↦ rw (kept n u, w) (old (λ v. omega (arith, ltb→lt (label n) f.sequence w)))
      | inr w ↦
          rw (kept n u, w)
            (
              omega arith,
              u,
              refl,
              below_suc (λ c. test c ≡ true → label c ≤ label n) n (λ _. le_refl _)
                  (λ c l v. ground (arith, h c l v)),
            )
    ]
  ]
    where
      old : (test n ≡ true → label n ≤ f.sequence) → IsHighest test label (suc n) (some f)
      old b = (omega arith, t, e, below_suc (λ c. test c ≡ true → label c ≤ f.sequence) n b h)

  IsLowest-none : (n : ℕ) → IsLowest test label n none → IsLowest test label (suc n) (lower n none)
  IsLowest-none n h = elim (Bool-cases (test n)) [
    | inl t ↦ rw (kept n t) (
      omega arith,
      t,
      refl,
      below_suc (λ c. test c ≡ true → label n ≤ label c) n (λ _. le_refl _)
          (λ c l u. absurd (false≢true (sym (h c l) ∙ u))),
    )
    | inr t ↦ rw (skipped n t) (below_suc (λ c. test c ≡ false) n t h)
  ]

  IsLowest-some :
      (n : ℕ) (f : Found)
      → IsLowest test label n (some f)
      → IsLowest test label (suc n) (lower n (some f))
  IsLowest-some n f (lt, t, e, h) = elim (Bool-cases (test n)) [
    | inr u ↦ rw (skipped n u) (old (λ v. absurd (false≢true (sym u ∙ v))))
    | inl u ↦ elim (Bool-cases (ltb f.sequence (label n))) [
      | inl w ↦ rw (kept n u, w) (old (λ v. omega (arith, ltb→lt f.sequence (label n) w)))
      | inr w ↦
          rw (kept n u, w)
            (
              omega arith,
              u,
              refl,
              below_suc (λ c. test c ≡ true → label n ≤ label c) n (λ _. le_refl _)
                  (λ c l v. ground (arith, h c l v)),
            )
    ]
  ]
    where
      old : (test n ≡ true → f.sequence ≤ label n) → IsLowest test label (suc n) (some f)
      old b = (omega arith, t, e, below_suc (λ c. test c ≡ true → f.sequence ≤ label c) n b h)

  IsHighest-step :
      (n : ℕ) (r : Option Found)
      → IsHighest test label n r
      → IsHighest test label (suc n) (higher n r)
  IsHighest-step n none h = IsHighest-none n h
  IsHighest-step n (some f) h = IsHighest-some n f h

  IsLowest-step :
      (n : ℕ) (r : Option Found) → IsLowest test label n r → IsLowest test label (suc n) (lower n r)
  IsLowest-step n none h = IsLowest-none n h
  IsLowest-step n (some f) h = IsLowest-some n f h

  scan-IsHighest : (n : ℕ) → IsHighest test label n (scan n higher none)
  scan-IsHighest zero = λ c l. absurd (omega arith)
  scan-IsHighest (suc n) = IsHighest-step n (scan n higher none) (scan-IsHighest n)

  scan-IsLowest : (n : ℕ) → IsLowest test label n (scan n lower none)
  scan-IsLowest zero = λ c l. absurd (omega arith)
  scan-IsLowest (suc n) = IsLowest-step n (scan n lower none) (scan-IsLowest n)

module _ (a : SectorAllocator) where
  -- The frontier of a ring is its sector with the highest label.
  pub frontier-IsHighest :
      (owner : SectorOwner)
      → IsHighest (owned_by a owner) a.sequence_of a.sector_count (frontier a owner)
  unfolding frontier
  frontier-IsHighest owner =
      scan-IsHighest (owned_by a owner) (λ c. not (owned_by a owner c)) a.sequence_of (λ c. refl)
        a.sector_count

  abbrev pub eligible : Match → ℕ → ℕ → Bool
  eligible m above c = matches a m c && not (leb (a.sequence_of c) above)

  skips_eligible :
      (m : Match) (above c : ℕ)
      → (not (matches a m c) || leb (a.sequence_of c) above) ≡ not (eligible m above c)
  skips_eligible m above c = ground arith

  -- `lowest_above` finds the lowest label above the bound among the sectors that match.
  pub lowest_above-IsLowest :
      (m : Match) (above : ℕ)
      → IsLowest (eligible m above) a.sequence_of a.sector_count (lowest_above a m above)
  unfolding lowest_above
  lowest_above-IsLowest m above =
      scan-IsLowest (eligible m above) (λ c. not (matches a m c) || leb (a.sequence_of c) above)
        a.sequence_of (skips_eligible m above) a.sector_count
