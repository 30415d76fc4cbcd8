-- ===== src/Store/Allocator/Sessions/Bisected.antt =====
-- The loops of `session_sector`: the span of a session's labels, and where the bisection ends.
use skyblip.Base.{
  ℕ, zero, suc, ◌+◌, ◌-◌, ◌*◌, ◌^◌, ◌≤◌, ◌<◌, ◌≡◌, refl, subst, inl, inr, true, false, Option, none,
  some, arith, ltb, ◌==◌, Bool-cases, u32,
}
use skyblip.Store.Allocator.{SectorAllocator, Match, tally, scan, matches, matching_up_to}
use skyblip.Store.Allocator.Sessions.{no_span, span_body, bisect, middle_of}
use skyblip.Store.Allocator.Sessions.Counted.{up_to_mono}

-- The sectors of a session.
abbrev pub sectors_of : SectorAllocator → Match → ℕ
sectors_of a m = tally a.sector_count (matches a m)

-- `none` where the session has no more than `index` sectors, and else one of its sectors, the
-- labels of `index` others being below its own.
abbrev pub IsNth : SectorAllocator → Match → ℕ → Option ℕ → Type 0
IsNth a m index none = sectors_of a m ≤ index
IsNth a m index (some c) =
    (c < a.sector_count)
    × (matches a m c ≡ true)
    × (matching_up_to a m (a.sequence_of c) ≡ suc index)

-- The span of the first `k` sectors.
module _ (a : SectorAllocator) (m : Match) where
  pub span-count : (k : ℕ) → (scan k (span_body a m) no_span).count ≡ tally k (matches a m)
  span-count zero = refl
  span-count (suc k) = ground (arith, span-count k)

  pub span-lowest :
      (k c : ℕ)
      → c < k
      → matches a m c ≡ true
      → (scan k (span_body a m) no_span).lowest ≤ a.sequence_of c
  span-lowest zero c lt t = absurd (omega arith)
  span-lowest (suc k) c lt t = elim (Bool-cases (c == k)) [
    | inl here ↦
        let at : c ≡ k = ground (arith, here) in
        rw at (ground (arith, subst (λ z. matches a m z ≡ true) at t))
    | inr before ↦ ground (arith, before, span-lowest k c)
  ]

  pub span-highest :
      (k c : ℕ)
      → c < k
      → matches a m c ≡ true
      → a.sequence_of c ≤ (scan k (span_body a m) no_span).highest
  span-highest zero c lt t = absurd (omega arith)
  span-highest (suc k) c lt t = elim (Bool-cases (c == k)) [
    | inl here ↦
        let at : c ≡ k = ground (arith, here) in
        rw at (ground (arith, subst (λ z. matches a m z ≡ true) at t))
    | inr before ↦ ground (arith, before, span-highest k c)
  ]

  -- Where no label is above a bound, neither is the highest.
  pub span-bounded :
      (k top : ℕ)
      → ((c : ℕ) → c < k → matches a m c ≡ true → a.sequence_of c ≤ top)
      → (scan k (span_body a m) no_span).highest ≤ top
  span-bounded zero top h = omega arith
  span-bounded (suc k) top h = ground (arith, h k, span-bounded k top (λ c l. h c (omega arith)))

  pub span-above :
      (k bottom : ℕ)
      → bottom ≤ 0xffffffff
      → ((c : ℕ) → c < k → matches a m c ≡ true → bottom ≤ a.sequence_of c)
      → bottom ≤ (scan k (span_body a m) no_span).lowest
  span-above zero bottom fits h = fits
  span-above (suc k) bottom fits h =
      ground (arith, h k, span-above k bottom fits (λ c l. h c (omega arith)))

  doubled : (n : ℕ) → 2 ^ suc n ≡ 2 * 2 ^ n
  doubled n = omega arith

  below_middle :
      (index middle s : ℕ)
      → ltb index (matching_up_to a m middle) ≡ false
      → s ≤ middle
      → matching_up_to a m s ≤ index
  unfolding matching_up_to
  below_middle index middle s short le =
      let e : s + (middle - s) ≡ middle = omega arith in
      let more = up_to_mono (matches a m) a.sequence_of a.sector_count s (middle - s) in
      let few : matching_up_to a m middle ≤ index = ground (arith, short) in
      let grown = subst (λ z. matching_up_to a m s ≤ matching_up_to a m z) e more in
      omega (arith, grown, few)

  -- The bisection ends at the lowest label up to which more than `index` sectors match.
  pub bisect_least :
      (index fuel low high : ℕ)
      → low ≤ high
      → high < 2 ^ 32
      → high < low + 2 ^ fuel
      → index < matching_up_to a m high
      → ((s : ℕ) → s < low → matching_up_to a m s ≤ index)
      → (index < matching_up_to a m (bisect a m index fuel low high))
        × ((s : ℕ) → s < bisect a m index fuel low high → matching_up_to a m s ≤ index)
  unfolding bisect
  bisect_least index zero low high le fits near more few =
      let same : low ≡ high = omega arith in (rw same more, few)
  bisect_least index (suc fuel) low high le fits near more few = elim (Bool-cases (ltb low high)) [
    | inr stop ↦ let same : low ≡ high = ground (arith, stop) in rw stop (rw same more, few)
    | inl turn ↦ elim (Bool-cases (ltb index (matching_up_to a m (middle_of low high)))) [
      | inl enough ↦
          rw (turn, enough)
            (bisect_least index fuel low (middle_of low high) (omega arith) (ground (arith, turn))
              (omega (arith, doubled fuel)) (ground (arith, enough)) few)
      | inr short ↦
          rw (turn, short)
            (bisect_least index fuel (u32 (middle_of low high + 1)) high (ground (arith, turn)) fits
              (ground (arith, turn, doubled fuel)) more
              (λ s lt. below_middle index (middle_of low high) s short (ground (arith, turn, lt))))
    ]
  ]
