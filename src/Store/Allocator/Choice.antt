-- ===== src/Store/Allocator/Choice.antt =====
-- Which sector a ring is offered: a free one, or the oldest of a ring that has another to write.
use native.Mathlib.Nat.{mod-eq_of_lt, mod-lt, mod-eq-sub-mod}
use skyblip.Base.{
  ℕ, zero, suc, ◌+◌, ◌-◌, ◌%◌, ◌≤◌, ◌<◌, ◌≡◌, ◌≢◌, refl, ◌∙◌, subst, ◌⊎◌, inl, inr, Bool, true,
  false, not, ◌&&◌, none, some, arith, ltb, leb, ◌==◌, if◌then◌else◌, Bool-cases, Option-cases,
}
use skyblip.Store.Sector.{SectorOwner, no_owner, flights, diagnostics}
use skyblip.Store.Allocator.{
  SectorAllocator, Found, owned_by, frontier, oldest, matches, any_of, reserved, free,
  quarantined_code, owned,
}
use skyblip.Store.Allocator.Search.{evictable, next_free, next_free_from, choose}
use skyblip.Store.Allocator.Scans.{
  IsHighest, IsLowest, frontier-IsHighest, lowest_above-IsLowest, eligible,
}

module _ (a : SectorAllocator) where
  abbrev pub usable : ℕ → Bool
  usable c = (a.owner_of c == free) && not (reserved a c)

  next_free_from-usable :
      (start step rounds s : ℕ)
      → 0 < a.sector_count
      → next_free_from a start step rounds ≡ some s
      → (s < a.sector_count) × (usable s ≡ true)
  unfolding next_free_from
  next_free_from-usable start step zero s pos e = cc
  next_free_from-usable start step (suc rounds) s pos e =
      ground (arith, mod-lt (start + step) pos, next_free_from-usable start (step + 1) rounds s pos)

  next_free_from-none :
      (start step rounds k : ℕ)
      → next_free_from a start step rounds ≡ none
      → k < rounds
      → usable ((start + step + k) % a.sector_count) ≡ false
  unfolding next_free_from
  next_free_from-none start step zero k e lt = absurd (omega arith)
  next_free_from-none start step (suc rounds) zero e lt =
      let here : start + step + 0 ≡ start + step = omega arith in rw here (ground arith)
  next_free_from-none start step (suc rounds) (suc k) e lt =
      let there : start + step + suc k ≡ start + (step + 1) + k = omega arith in
      rw there (ground (arith, next_free_from-none start (step + 1) rounds k))

  start_of : ℕ
  start_of = if a.claimed then (a.newest + 1) % a.sector_count else 0

  start_of-lt : 0 < a.sector_count → start_of < a.sector_count
  unfolding start_of
  start_of-lt pos = ground (arith, mod-lt (a.newest + 1) pos)

  -- Going round from any start passes every sector.
  round_trip :
      (start c : ℕ)
      → start < a.sector_count
      → c < a.sector_count
      → (k : ℕ) × (k < a.sector_count) × ((start + 0 + k) % a.sector_count ≡ c)
  round_trip start c hs hc = elim (Bool-cases (leb start c)) [
    | inl le ↦ (c - start, ground arith, after le)
    | inr gt ↦ (c + a.sector_count - start, ground arith, wrapped gt)
  ]
    where
      after : leb start c ≡ true → (start + 0 + (c - start)) % a.sector_count ≡ c
      after le = let e : start + 0 + (c - start) ≡ c = ground arith in rw e (mod-eq_of_lt hc)

      wrapped :
          leb start c ≡ false → (start + 0 + (c + a.sector_count - start)) % a.sector_count ≡ c
      wrapped gt =
          let e : start + 0 + (c + a.sector_count - start) ≡ c + a.sector_count = ground arith in
          let d : c + a.sector_count - a.sector_count ≡ c = omega arith in
          rw e (mod-eq-sub-mod (omega arith) ∙ rw d (mod-eq_of_lt hc))

  -- The next free sector is one in the pool that is free and nobody's spare.
  pub next_free-usable :
      (s : ℕ) → 0 < a.sector_count → next_free a ≡ some s → (s < a.sector_count) × (usable s ≡ true)
  unfolding next_free
  next_free-usable s pos e = next_free_from-usable _ 0 a.sector_count s pos e

  -- None is found only if there is none.
  pub next_free-none : (c : ℕ) → next_free a ≡ none → c < a.sector_count → usable c ≡ false
  unfolding next_free start_of
  next_free-none c e lt =
      let (k, below, at) = round_trip start_of c (start_of-lt (omega arith)) lt in
      subst (λ x. usable x ≡ false) at (next_free_from-none start_of 0 a.sector_count k e below)

  abbrev lowest_of : SectorOwner → ℕ → Bool
  lowest_of owner = eligible a (any_of owner) 0

  -- What a ring gives up: its sector with the lowest label, which is not its frontier.
  pub record IsEvicted (owner : SectorOwner) (s : ℕ) : Type 0 where
    pub in_pool : s < a.sector_count
    pub owned : owned_by a owner s ≡ true
    pub lowest :
        (c : ℕ)
        → c < a.sector_count
        → owned_by a owner c ≡ true
        → 0 < a.sequence_of c
        → a.sequence_of s ≤ a.sequence_of c
    pub kept : (f : Found) → frontier a owner ≡ some f → f.sector ≢ s

  eligible_any :
      (owner : SectorOwner) (c : ℕ)
      → lowest_of owner c ≡ (owned_by a owner c && ltb 0 (a.sequence_of c))
  unfolding matches
  eligible_any owner c = ground arith

  -- The test of `evictable` on what its two scans found.
  distinct_ends :
      (owner : SectorOwner) (s : ℕ) (o f : Found)
      → oldest a owner ≡ some o
      → frontier a owner ≡ some f
      → evictable a owner ≡ some s
      → (o.sector ≡ s) × (o.sector ≢ f.sector)
  unfolding evictable
  distinct_ends owner s o f p q e = ground arith

  evictable-oldest :
      (owner : SectorOwner) (s : ℕ) → evictable a owner ≡ some s → oldest a owner ≢ none
  unfolding evictable
  evictable-oldest owner s e n = ground arith

  evictable-frontier :
      (owner : SectorOwner) (s : ℕ) (o : Found)
      → oldest a owner ≡ some o
      → evictable a owner ≡ some s
      → frontier a owner ≢ none
  unfolding evictable
  evictable-frontier owner s o p e n = ground arith

  oldest-IsLowest :
      (owner : SectorOwner)
      → IsLowest (lowest_of owner) a.sequence_of a.sector_count (oldest a owner)
  unfolding oldest
  oldest-IsLowest owner = lowest_above-IsLowest a (any_of owner) 0

  evicted :
      (owner : SectorOwner) (s : ℕ) (o f : Found)
      → oldest a owner ≡ some o
      → frontier a owner ≡ some f
      → (o.sector ≡ s) × (o.sector ≢ f.sector)
      → IsLowest (lowest_of owner) a.sequence_of a.sector_count (some o)
      → IsEvicted owner s
  evicted owner s o f p q (e, n) (lt, t, l, h) = record {
    in_pool = ground arith;
    owned = ground (arith, eligible_any owner o.sector);
    lowest = λ c hc own pos. ground (arith, h c hc, eligible_any owner c);
    kept = λ g k same. ground arith;
  }

  pub evictable-IsEvicted :
      (owner : SectorOwner) (s : ℕ) → evictable a owner ≡ some s → IsEvicted owner s
  evictable-IsEvicted owner s e = elim (Option-cases (oldest a owner)) [
    | inl n ↦ absurd (evictable-oldest owner s e n)
    | inr (o, p) ↦ elim (Option-cases (frontier a owner)) [
      | inl n ↦ absurd (evictable-frontier owner s o p e n)
      | inr (f, q) ↦ evicted owner s o f p q (distinct_ends owner s o f p q e) (
          subst (IsLowest (lowest_of owner) a.sequence_of a.sector_count) p (oldest-IsLowest owner))
    ]
  ]

  -- Where a chosen sector comes from.
  pub data Comes (owner : SectorOwner) (s : ℕ) : Type 0 where
    from_free : s < a.sector_count → usable s ≡ true → Comes owner s
    from_flights :
        IsEvicted flights s
        → (owner ≡ flights) ⊎ (a.floor_sectors < owned a flights)
        → Comes owner s
    from_diagnostics : IsEvicted diagnostics s → Comes owner s

  choose_cases :
      (owner : SectorOwner) (s : ℕ)
      → choose a owner ≡ some s
      → (next_free a ≡ some s)
        ⊎ ((evictable a flights ≡ some s)
            × ((owner ≡ flights) ⊎ (a.floor_sectors < owned a flights)))
        ⊎ (evictable a diagnostics ≡ some s)
  unfolding choose
  choose_cases flights s e = ground arith
  choose_cases no_owner s e = ground arith
  choose_cases diagnostics s e = ground arith

  pub choose-Comes :
      (owner : SectorOwner) (s : ℕ) → 0 < a.sector_count → choose a owner ≡ some s → Comes owner s
  choose-Comes owner s pos e = elim (choose_cases owner s e) [
    | inl n ↦ let (lt, u) = next_free-usable s pos n in from_free lt u
    | inr (inl (v, why)) ↦ from_flights (evictable-IsEvicted flights s v) why
    | inr (inr v) ↦ from_diagnostics (evictable-IsEvicted diagnostics s v)
  ]

  pub frontier_of :
      (ring : SectorOwner) (f : Found)
      → frontier a ring ≡ some f
      → IsHighest (owned_by a ring) a.sequence_of a.sector_count (some f)
  frontier_of ring f g =
      subst (IsHighest (owned_by a ring) a.sequence_of a.sector_count) g (frontier-IsHighest a ring)

  -- Two rings own different sectors, and a free one is neither's.
  not_free :
      (ring : SectorOwner) (s t : ℕ)
      → ring ≢ no_owner
      → owned_by a ring t ≡ true
      → usable s ≡ true
      → t ≢ s
  not_free no_owner s t known o u e = known refl
  not_free ring s t known o u e = ground arith

  kept_by :
      (other ring : SectorOwner) (s : ℕ) (f : Found)
      → ring ≢ no_owner
      → other ≢ no_owner
      → frontier a ring ≡ some f
      → IsEvicted other s
      → f.sector ≢ s
  kept_by flights flights s f known k g v = v.kept f g
  kept_by diagnostics diagnostics s f known k g v = v.kept f g
  kept_by no_owner ring s f known k g v = absurd (k refl)
  kept_by other no_owner s f known k g v = absurd (known refl)
  kept_by flights diagnostics s f known k g v =
      λ e. ground (arith, v.owned, (frontier_of diagnostics f g).1)
  kept_by diagnostics flights s f known k g v =
      λ e. ground (arith, v.owned, (frontier_of flights f g).1)

  spared :
      (owner ring : SectorOwner) (s : ℕ) (f : Found)
      → ring ≢ no_owner
      → frontier a ring ≡ some f
      → Comes owner s
      → (s < a.sector_count) × (f.sector ≢ s)
  spared owner ring s f known g (from_free lt u) =
      (lt, not_free ring s f.sector known (frontier_of ring f g).1 u)
  spared owner ring s f known g (from_flights v why) =
      (v.in_pool, kept_by flights ring s f known (λ e. cc) g v)
  spared owner ring s f known g (from_diagnostics v) =
      (v.in_pool, kept_by diagnostics ring s f known (λ e. cc) g v)

-- Where a chosen sector lies, what it is not, and whose frontier it is not.
pub record IsOffered (a : SectorAllocator) (s : ℕ) : Type 0 where
  pub in_pool : s < a.sector_count
  pub sound : a.owner_of s ≢ quarantined_code
  pub unreserved :
      (usable a s ≡ true) ⊎ (owned_by a flights s ≡ true) ⊎ (owned_by a diagnostics s ≡ true)
  pub spares_flights : (q : ℕ) → frontier a flights ≢ some (record { sector = s; sequence = q })
  pub spares_diagnostics :
      (q : ℕ) → frontier a diagnostics ≢ some (record { sector = s; sequence = q })

Comes-sound :
    (a : SectorAllocator) (owner : SectorOwner) (s : ℕ)
    → Comes a owner s
    → a.owner_of s ≢ quarantined_code
Comes-sound a owner s (from_free lt u) = λ e. ground (arith, u)
Comes-sound a owner s (from_flights v why) = λ e. ground (arith, v.owned)
Comes-sound a owner s (from_diagnostics v) = λ e. ground (arith, v.owned)

Comes-usable :
    (a : SectorAllocator) (owner : SectorOwner) (s : ℕ)
    → Comes a owner s
    → (usable a s ≡ true) ⊎ (owned_by a flights s ≡ true) ⊎ (owned_by a diagnostics s ≡ true)
Comes-usable a owner s (from_free lt u) = inl u
Comes-usable a owner s (from_flights v why) = inr (inl v.owned)
Comes-usable a owner s (from_diagnostics v) = inr (inr v.owned)

Comes-pool :
    (a : SectorAllocator) (owner : SectorOwner) (s : ℕ) → Comes a owner s → s < a.sector_count
Comes-pool a owner s (from_free lt u) = lt
Comes-pool a owner s (from_flights v why) = v.in_pool
Comes-pool a owner s (from_diagnostics v) = v.in_pool

-- In a pool that has sectors, whichever ring a sector is chosen for, it lies in the pool, is not
-- quarantined, is free and no spare or a ring's, and is the frontier of neither ring.
pub choose-frontier :
    (a : SectorAllocator) (owner : SectorOwner) (s : ℕ)
    → 0 < a.sector_count
    → choose a owner ≡ some s
    → IsOffered a s
choose-frontier a owner s pos e =
    let comes = choose-Comes a owner s pos e in
    record {
      in_pool = Comes-pool a owner s comes;
      sound = Comes-sound a owner s comes;
      unreserved = Comes-usable a owner s comes;
      spares_flights = λ q g. (spared a owner flights s _ (λ z. cc) g comes).1 refl;
      spares_diagnostics = λ q g. (spared a owner diagnostics s _ (λ z. cc) g comes).1 refl;
    }
