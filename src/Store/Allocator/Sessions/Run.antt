-- ===== src/Store/Allocator/Sessions/Run.antt =====
-- `session_run` against the order of the labels: which sectors a run counts.
use skyblip.Base.{
  ℕ, ◌+◌, ◌^◌, ◌≤◌, ◌<◌, ◌≡◌, ◌≢◌, sym, ◌∙◌, ap, subst, inl, inr, Bool, true, ◌&&◌, Option, none,
  some, arith, leb, ltb, ◌==◌, Bool-cases,
}
use skyblip.Store.Sector.{SectorOwner, no_owner, owner_known, code}
use skyblip.Store.Allocator.{
  SectorAllocator, SessionRun, Found, tally, owned_by, matches, any_of, lowest_above,
}
use skyblip.Store.Allocator.Scans.{IsLowest, eligible, lowest_above-IsLowest}
use skyblip.Store.Allocator.WellFormed.{IsWellFormed, in_ring}
use skyblip.Store.Allocator.Sessions.{uint32_max, run_from, session_run}
use skyblip.Store.Allocator.Sessions.Nth.{code_known}
use skyblip.Store.Allocator.Sessions.Loops.{
  until_in, until_below, until-IsOther, run_in, run-session, run-sectors, run-last, run-below,
  run-IsLast, tally-pos, tally-agree, in_run,
}

-- The ring's sectors with a label above the first bound and up to the second.
abbrev pub between : SectorAllocator → SectorOwner → ℕ → ℕ → ℕ → Bool
between a owner above last c =
    owned_by a owner c && ltb above (a.sequence_of c) && leb (a.sequence_of c) last

-- A run above a label: its last label is that of a sector of the ring and of its session, every sector of the ring up to its last label is of its
-- session and counted in it, and the next one above that, if there is one, is of another session.
pub record IsRun (a : SectorAllocator) (owner : SectorOwner) (above : ℕ) (run : SessionRun)
    : Type 0 where
  pub starts : above < run.last_sequence
  pub last :
      (c : ℕ) × (c < a.sector_count)
      × (owned_by a owner c ≡ true)
      × (a.session_id_of c ≡ run.session_id)
      × (a.sequence_of c ≡ run.last_sequence)
  pub filled : 0 < run.sectors
  pub counted : run.sectors ≡ tally a.sector_count (between a owner above run.last_sequence)
  pub own :
      (c : ℕ)
      → c < a.sector_count
      → between a owner above run.last_sequence c ≡ true
      → a.session_id_of c ≡ run.session_id
  pub ends :
      (c : ℕ)
      → c < a.sector_count
      → owned_by a owner c ≡ true
      → run.last_sequence < a.sequence_of c
      → a.session_id_of c ≡ run.session_id
      → (d : ℕ) × (d < a.sector_count)
        × (owned_by a owner d ≡ true)
        × (a.session_id_of d ≢ run.session_id)
        × (above < a.sequence_of d)
        × (a.sequence_of d < a.sequence_of c)

-- The answer: `none` where the ring has no label above the bound.
abbrev pub IsNextRun : SectorAllocator → SectorOwner → ℕ → Option SessionRun → Type 0
IsNextRun a owner above none =
    (c : ℕ) → c < a.sector_count → owned_by a owner c ≡ true → a.sequence_of c ≤ above
IsNextRun a owner above (some run) = IsRun a owner above run

module _ (a : SectorAllocator) (w : IsWellFormed a) (owner : SectorOwner) (owned : owner ≢ no_owner)
    (fits : a.sequence + 1 < 2 ^ 32) (above : ℕ) where
  ringed : (c : ℕ) → owned_by a owner c ≡ true → in_ring a c ≡ true
  ringed c t =
      let same : a.owner_of c ≡ code owner = ground (arith, t) in
      subst (λ z. owner_known z ≡ true) (sym same) (code_known owner owned)

  -- Sectors of a ring with one label are one sector, and so of one session.
  same_session :
      (c d : ℕ)
      → c < a.sector_count
      → d < a.sector_count
      → owned_by a owner c ≡ true
      → owned_by a owner d ≡ true
      → a.sequence_of c ≡ a.sequence_of d
      → a.session_id_of c ≡ a.session_id_of d
  same_session c d lc ld oc od e =
      ap a.session_id_of (w.distinct c d lc ld (ringed c oc) (ringed d od) e)

  under_max :
      (c : ℕ) → c < a.sector_count → owned_by a owner c ≡ true → a.sequence_of c < uint32_max
  under_max c lt o = omega (arith, w.numbered c lt (ringed c o), fits)

  module _ (s : ℕ) (in_pool : s < a.sector_count) (has : owned_by a owner s ≡ true)
      (beyond : above < a.sequence_of s)
      (lowest : (c : ℕ)
        → c < a.sector_count
        → owned_by a owner c ≡ true
        → above < a.sequence_of c
        → a.sequence_of s ≤ a.sequence_of c) where
    abbrev session : ℕ
    session = a.session_id_of s

    abbrev until : ℕ
    until = until_in a owner session above a.sector_count

    abbrev run : SessionRun
    run = run_in a owner session above until a.sector_count

    before_until : a.sequence_of s < until
    before_until = elim (until-IsOther a owner session above a.sector_count) [
      | inl nothing ↦ rw nothing (under_max s in_pool has)
      | inr (d, lt, o, e) ↦
          let le = lowest d lt (ground (arith, o)) (ground (arith, o)) in
          let apart : a.sequence_of s ≢ a.sequence_of d =
            λ same. ground (arith, o, same_session s d in_pool lt has (ground (arith, o)) same) in
          ground (arith, le, apart, e)
    ]

    last_before : run.last_sequence < until
    last_before = run-below a owner session above until a.sector_count (omega (arith, before_until))

    started : above < run.last_sequence
    unfolding matches
    started =
        let le =
          run-last a owner session above until a.sector_count s in_pool
            (ground (arith, has, beyond, before_until)) in
        omega (arith, le, beyond)

    between_own :
        (c : ℕ)
        → c < a.sector_count
        → between a owner above run.last_sequence c ≡ true
        → a.session_id_of c ≡ session
    between_own c lt b = elim (Bool-cases (a.session_id_of c == session)) [
      | inl same ↦ ground (arith, same)
      | inr differ ↦
          let le =
            until_below a owner session above a.sector_count c lt (ground (arith, b, differ)) in
          absurd (ground (arith, b, le, last_before))
    ]

    agrees :
        (c : ℕ)
        → c < a.sector_count
        → in_run a owner session above until c ≡ between a owner above run.last_sequence c
    unfolding matches
    agrees c lt = elim (Bool-cases (in_run a owner session above until c)) [
      | inl inside ↦
          let le = run-last a owner session above until a.sector_count c lt inside in
          ground (arith, inside, le)
      | inr outside ↦ elim (Bool-cases (between a owner above run.last_sequence c)) [
        | inl b ↦ absurd (ground (arith, outside, b, between_own c lt b, last_before))
        | inr b ↦ outside ∙ sym b
      ]
    ]

    ended :
        (c : ℕ)
        → c < a.sector_count
        → owned_by a owner c ≡ true
        → run.last_sequence < a.sequence_of c
        → a.session_id_of c ≡ session
        → (d : ℕ) × (d < a.sector_count)
          × (owned_by a owner d ≡ true)
          × (a.session_id_of d ≢ session)
          × (above < a.sequence_of d)
          × (a.sequence_of d < a.sequence_of c)
    unfolding matches
    ended c lt o after same = elim (Bool-cases (ltb (a.sequence_of c) until)) [
      | inl early ↦
          let le =
            run-last a owner session above until a.sector_count c lt
              (ground (arith, o, after, same, early, started)) in
          absurd (omega (arith, le, after))
      | inr late ↦ elim (until-IsOther a owner session above a.sector_count) [
        | inl nothing ↦ absurd (ground (arith, late, nothing, under_max c lt o))
        | inr (d, ld, od, e) ↦
            let differ : a.session_id_of d ≢ session = λ z. ground (arith, od, z) in
            let apart : a.sequence_of d ≢ a.sequence_of c =
              λ z. differ (same_session d c ld lt (ground (arith, od)) o z ∙ same) in
            (d, ld, ground (arith, od), differ, ground (arith, od), ground (arith, late, e, apart))
      ]
    ]

    last_of :
        (c : ℕ) × (c < a.sector_count)
        × (owned_by a owner c ≡ true)
        × (a.session_id_of c ≡ session)
        × (a.sequence_of c ≡ run.last_sequence)
    unfolding matches
    last_of = elim (run-IsLast a owner session above until a.sector_count) [
      | inl nothing ↦ absurd (omega (arith, nothing, started))
      | inr (c, lt, inside, label) ↦ (c, lt, ground (arith, inside), ground (arith, inside), label)
    ]

    filled_run : 0 < run.sectors
    unfolding matches
    filled_run =
        let some_counted =
          tally-pos a.sector_count (in_run a owner session above until) s in_pool
            (ground (arith, has, beyond, before_until)) in
        omega (arith, some_counted, run-sectors a owner session above until a.sector_count)

    run-IsRun : IsRun a owner above run
    run-IsRun =
        let named = run-session a owner session above until a.sector_count in
        record {
          starts = started;
          last =
              let (c, lt, own, session_c, label) = last_of in
              (c, lt, own, session_c ∙ sym named, label);
          filled = filled_run;
          counted =
              run-sectors a owner session above until a.sector_count
              ∙ tally-agree a.sector_count (in_run a owner session above until)
                  (between a owner above run.last_sequence) agrees;
          own = λ c lt b. between_own c lt b ∙ sym named;
          ends = λ c lt o after same.
              let (d, ld, od, differ, over, under) = ended c lt o after (same ∙ named) in
              (d, ld, od, λ z. differ (z ∙ named), over, under);
        }

  answered :
      (found : Option Found)
      → IsLowest (eligible a (any_of owner) above) a.sequence_of a.sector_count found
      → IsNextRun a owner above (run_from a owner above found)
  unfolding matches
  answered none none_above = λ c lt o. ground (arith, o, none_above c lt)
  answered (some f) (in_pool, is, label, least) =
      run-IsRun f.sector in_pool (ground (arith, is)) (ground (arith, is))
        (λ c lt o over. ground (arith, least c lt, o, over, label))

-- While the counter of labels has not run out, the run of a well-formed ring above a label is not
-- empty, ends with the label of a sector of its session, counts all of the ring's sectors up to that
-- label, which are all of its session, and stops at a sector of another session where the session has labels above that; there is no run only
-- where the ring has no label above.
pub session_run-IsNextRun :
    (a : SectorAllocator) (owner : SectorOwner) (above : ℕ)
    → IsWellFormed a
    → owner ≢ no_owner
    → a.sequence + 1 < 2 ^ 32
    → IsNextRun a owner above (session_run a owner above)
unfolding session_run
session_run-IsNextRun a owner above w owned fits =
    answered a w owner owned fits above (lowest_above a (any_of owner) above)
      (lowest_above-IsLowest a (any_of owner) above)
