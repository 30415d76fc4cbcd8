-- ===== src/Store/Allocator/Sessions/Nth.antt =====
-- `session_sector` against the order of the labels: the sector it answers with.
use skyblip.Base.{
  ℕ, zero, suc, ◌+◌, ◌-◌, ◌^◌, ◌≤◌, ◌<◌, ◌≡◌, ◌≢◌, refl, sym, ◌∙◌, ap, subst, inl, inr, true, false,
  none, arith, leb, ltb, Bool-cases, Option-cases, u32, sub32,
}
use skyblip.Base.Scans.{first, first-some, first-none}
use skyblip.Store.Sector.{SectorOwner, no_owner, flights, diagnostics, owner_known, code}
use skyblip.Store.Allocator.{SectorAllocator, Match, matches, matching_up_to}
use skyblip.Store.Allocator.WellFormed.{IsWellFormed, in_ring}
use skyblip.Store.Allocator.Sessions.{span_of, session_match, session_sector, bisect, labelled}
use skyblip.Store.Allocator.Sessions.Counted.{up_to-zero, up_to-full, up_to-add, up_to-nth}
use skyblip.Store.Allocator.Sessions.Bisected.{
  sectors_of, IsNth, span-count, span-lowest, span-highest, span-bounded, span-above, bisect_least,
}

pub code_known : (owner : SectorOwner) → owner ≢ no_owner → owner_known (code owner) ≡ true
code_known no_owner known = absurd (known refl)
code_known flights known = refl
code_known diagnostics known = refl

module _ (a : SectorAllocator) (w : IsWellFormed a) (owner : SectorOwner) (session_id : ℕ)
    (owned : owner ≢ no_owner) where
  abbrev m : Match
  m = session_match owner session_id

  ringed : (c : ℕ) → matches a m c ≡ true → in_ring a c ≡ true
  unfolding matches
  ringed c t =
      let same : a.owner_of c ≡ code owner = ground (arith, t) in
      subst (λ z. owner_known z ≡ true) (sym same) (code_known owner owned)

  labels_distinct :
      (c d : ℕ)
      → c < a.sector_count
      → d < a.sector_count
      → matches a m c ≡ true
      → matches a m d ≡ true
      → a.sequence_of c ≡ a.sequence_of d
      → c ≡ d
  labels_distinct c d lc ld tc td = w.distinct c d lc ld (ringed c tc) (ringed d td)

  numbered :
      (c : ℕ)
      → c < a.sector_count
      → matches a m c ≡ true
      → (0 < a.sequence_of c) × (a.sequence_of c ≤ a.sequence)
  numbered c lt t = w.numbered c lt (ringed c t)

  nothing : matching_up_to a m 0 ≡ 0
  unfolding matching_up_to
  nothing = up_to-zero (matches a m) a.sequence_of a.sector_count 0 (λ c lt t. (numbered c lt t).0)

  abbrev lowest : ℕ
  lowest = (span_of a m).lowest

  abbrev highest : ℕ
  highest = (span_of a m).highest

  below_lowest : (s : ℕ) → s < lowest → matching_up_to a m s ≡ 0
  unfolding matching_up_to
  below_lowest s lt =
      up_to-zero (matches a m) a.sequence_of a.sector_count s
        (λ c l t. omega (arith, span-lowest a m a.sector_count c l t, lt))

  up_to_highest : matching_up_to a m highest ≡ sectors_of a m
  unfolding matching_up_to
  up_to_highest =
      up_to-full (matches a m) a.sequence_of a.sector_count highest
        (λ c l t. span-highest a m a.sector_count c l t)

  added : (s d : ℕ) → matching_up_to a m (d + s) ≤ d + matching_up_to a m s
  unfolding matching_up_to
  added s d = up_to-add (matches a m) a.sequence_of a.sector_count labels_distinct s d

  -- The bounds that the bisection starts from.
  abbrev low_for : ℕ → ℕ
  low_for index = lowest + index

  abbrev high_for : ℕ → ℕ
  high_for index = highest - (sectors_of a m - 1 - index)

  few_below : (index s : ℕ) → s < low_for index → matching_up_to a m s ≤ index
  few_below index s lt = elim (Bool-cases (ltb s lowest)) [
    | inl under ↦ omega (arith, below_lowest s (ground (arith, under)))
    | inr over ↦
        let one = span-above a m a.sector_count 1 (omega arith) (λ c l t. (numbered c l t).0) in
        let zero_there = below_lowest (lowest - 1) (omega (arith, one)) in
        let parts : (s - (lowest - 1)) + (lowest - 1) ≡ s = ground (arith, over) in
        let grown =
          subst (λ z. matching_up_to a m z ≤ (s - (lowest - 1)) + matching_up_to a m (lowest - 1))
            parts (added (lowest - 1) (s - (lowest - 1))) in
        omega (arith, grown, zero_there, lt, one)
  ]

  count_fits : sectors_of a m ≤ highest
  count_fits =
      let e : highest + 0 ≡ highest = omega arith in
      let grown =
        subst (λ z. matching_up_to a m z ≤ highest + matching_up_to a m 0) e (added 0 highest) in
      omega (arith, grown, nothing, up_to_highest)

  enough_at : (index : ℕ) → index < sectors_of a m → index < matching_up_to a m (high_for index)
  enough_at index lt =
      let after = sectors_of a m - 1 - index in
      let e : after + high_for index ≡ highest = omega (arith, count_fits) in
      let grown =
        subst (λ z. matching_up_to a m z ≤ after + matching_up_to a m (high_for index)) e
          (added (high_for index) after) in
      omega (arith, grown, up_to_highest, lt)

  ordered : (index : ℕ) → index < sectors_of a m → low_for index ≤ high_for index
  ordered index lt = elim (Bool-cases (leb (low_for index) (high_for index))) [
    | inl le ↦ ground (arith, le)
    | inr over ↦
        let few = few_below index (high_for index) (ground (arith, over)) in
        absurd (omega (arith, few, enough_at index lt))
  ]

  abbrev least : ℕ → ℕ
  least index = bisect a m index 32 (low_for index) (high_for index)

  module _ (fits : a.sequence < 2 ^ 32) where
    highest_fits : highest < 2 ^ 32
    highest_fits =
        let le = span-bounded a m a.sector_count a.sequence (λ c l t. (numbered c l t).1) in
        omega (arith, le, fits)

    bisected :
        (index : ℕ)
        → index < sectors_of a m
        → (index < matching_up_to a m (bisect a m index 32 (low_for index) (high_for index)))
          × ((s : ℕ)
              → s < bisect a m index 32 (low_for index) (high_for index)
              → matching_up_to a m s ≤ index)
    bisected index lt =
        bisect_least a m index 32 (low_for index) (high_for index) (ordered index lt)
          (omega (arith, highest_fits)) (omega (arith, highest_fits)) (enough_at index lt)
          (few_below index)

    -- The label that the bisection ends at is a sector's, and `index` are below it.
    labelled_at :
        (index label : ℕ)
        → index < matching_up_to a m label
        → ((s : ℕ) → s < label → matching_up_to a m s ≤ index)
        → ((c : ℕ) × (c < a.sector_count) × (matches a m c ≡ true) × (a.sequence_of c ≡ label))
          × (matching_up_to a m label ≡ suc index)
    unfolding matching_up_to
    labelled_at index zero more few = absurd (omega (arith, nothing, more))
    labelled_at index (suc s) more few =
        up_to-nth (matches a m) a.sequence_of a.sector_count labels_distinct index s more
          (few s (omega arith))

    first-IsNth :
        (index label : ℕ)
        → ((c : ℕ) × (c < a.sector_count) × (matches a m c ≡ true) × (a.sequence_of c ≡ label))
        → matching_up_to a m label ≡ suc index
        → IsNth a m index (first (labelled a m label) a.sector_count)
    first-IsNth index label (c, lt, t, e) count =
        elim (Option-cases (first (labelled a m label) a.sector_count)) [
          | inl missed ↦
              absurd
                (ground (arith, first-none (labelled a m label) a.sector_count c missed lt, t, e))
          | inr (d, found) ↦
              let (in_pool, is) = first-some (labelled a m label) a.sector_count d found in
              let same : a.sequence_of d ≡ label = ground (arith, is) in
              rw found (in_pool, ground (arith, is), ap (matching_up_to a m) same ∙ count)
        ]

    -- The words of the code hold both bounds.
    low_word : (index : ℕ) → index < sectors_of a m → u32 (lowest + index) ≡ low_for index
    low_word index lt = omega (arith, ordered index lt, highest_fits)

    high_word :
        (index : ℕ)
        → index < sectors_of a m
        → sub32 highest (sectors_of a m - 1 - index) ≡ high_for index
    high_word index lt = omega (arith, count_fits, highest_fits)

    within-session_sector :
        (index : ℕ)
        → index < sectors_of a m
        → session_sector a owner session_id index
          ≡ first
              (labelled a m (bisect a m index 32 (low_for index) (high_for index)))
              a.sector_count
    unfolding session_sector
    within-session_sector index lt =
        let inside : leb (sectors_of a m) index ≡ false = ground (arith, lt) in
        rw (span-count a m a.sector_count, inside, low_word index lt, high_word index lt) refl

    beyond-session_sector :
        (index : ℕ)
        → leb (sectors_of a m) index ≡ true
        → session_sector a owner session_id index ≡ none
    unfolding session_sector
    beyond-session_sector index beyond = rw (span-count a m a.sector_count, beyond) refl

    asked-IsNth : (index : ℕ) → IsNth a m index (session_sector a owner session_id index)
    asked-IsNth index = elim (Bool-cases (leb (sectors_of a m) index)) [
      | inl beyond ↦ rw (beyond-session_sector index beyond) (ground (arith, beyond))
      | inr within ↦
          let lt : index < sectors_of a m = ground (arith, within) in
          let (more, few) = bisected index lt in
          let (there, count) = labelled_at index (least index) more few in
          rw (within-session_sector index lt) (first-IsNth index (least index) there count)
    ]

-- While the counter of labels has not run out, a well-formed allocator answers the request for the
-- sector `index` of a ring's session with a sector of that session with `index` of the session's
-- labels below its own, and with none only where the session has no more than `index` sectors.
pub session_sector-IsNth :
    (a : SectorAllocator) (owner : SectorOwner) (session_id index : ℕ)
    → IsWellFormed a
    → owner ≢ no_owner
    → a.sequence < 2 ^ 32
    → IsNth a (session_match owner session_id) index (session_sector a owner session_id index)
session_sector-IsNth a owner session_id index w owned fits =
    asked-IsNth a w owner session_id owned fits index
