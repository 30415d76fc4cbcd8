-- ===== src/Store/Allocator/Sessions/Loops.antt =====
-- The two loops of `session_run`: the label that ends a run, and what a run has counted.
use skyblip.Base.{
  ℕ, zero, suc, ◌≤◌, ◌<◌, ◌≡◌, refl, sym, ◌∙◌, subst, ◌⊎◌, inl, inr, Bool, true, not, ◌&&◌, arith,
  ltb, ◌==◌, Bool-cases,
}
use skyblip.Store.Sector.{SectorOwner}
use skyblip.Store.Allocator.{SectorAllocator, SessionRun, scan, tally, owned_by, matches}
use skyblip.Store.Allocator.Sessions.{uint32_max, session_match, until_body, run_body}

module _ (a : SectorAllocator) (owner : SectorOwner) (session_id above : ℕ) where
  abbrev pub other : ℕ → Bool
  other c =
      owned_by a owner c && not (a.session_id_of c == session_id) && ltb above (a.sequence_of c)

  abbrev pub until_in : ℕ → ℕ
  until_in k = scan k (until_body a owner session_id above) uint32_max

  pub until_below : (k c : ℕ) → c < k → other c ≡ true → until_in k ≤ a.sequence_of c
  until_below zero c lt o = absurd (omega arith)
  until_below (suc k) c lt o = elim (Bool-cases (c == k)) [
    | inl here ↦
        let at : c ≡ k = ground (arith, here) in
        rw at (ground (arith, subst (λ z. other z ≡ true) at o))
    | inr before ↦ ground (arith, before, until_below k c)
  ]

  -- It is the label of a sector of another session, or nothing is.
  abbrev pub IsOther : ℕ → ℕ → Type 0
  IsOther k label =
      (label ≡ uint32_max) ⊎ ((c : ℕ) × (c < k) × (other c ≡ true) × (a.sequence_of c ≡ label))

  pub until-IsOther : (k : ℕ) → IsOther k (until_in k)
  until-IsOther zero = inl refl
  until-IsOther (suc k) = elim (Bool-cases (other k && ltb (a.sequence_of k) (until_in k))) [
    | inl taken ↦
        let e : until_in (suc k) ≡ a.sequence_of k = ground (arith, taken) in
        inr (k, omega arith, ground (arith, taken), sym e)
    | inr kept ↦
        let e : until_in (suc k) ≡ until_in k = ground (arith, kept) in
        elim (until-IsOther k) [
          | inl nothing ↦ inl (e ∙ nothing)
          | inr (c, lt, o, s) ↦ inr (c, omega arith, o, s ∙ sym e)
        ]
  ]

  -- The second loop, with any bound.
  module _ (until : ℕ) where
    abbrev pub in_run : ℕ → Bool
    in_run c =
        matches a (session_match owner session_id) c
        && ltb above (a.sequence_of c)
        && ltb (a.sequence_of c) until

    abbrev pub run_in : ℕ → SessionRun
    run_in k =
        scan k (run_body a (session_match owner session_id) above until)
          (record { session_id = session_id; sectors = 0; last_sequence = 0 })

    pub run-session : (k : ℕ) → (run_in k).session_id ≡ session_id
    run-session zero = refl
    run-session (suc k) = ground (arith, run-session k)

    pub run-sectors : (k : ℕ) → (run_in k).sectors ≡ tally k in_run
    run-sectors zero = refl
    run-sectors (suc k) = ground (arith, run-sectors k)

    pub run-last : (k c : ℕ) → c < k → in_run c ≡ true → a.sequence_of c ≤ (run_in k).last_sequence
    run-last zero c lt o = absurd (omega arith)
    run-last (suc k) c lt o = elim (Bool-cases (c == k)) [
      | inl here ↦
          let at : c ≡ k = ground (arith, here) in
          rw at (ground (arith, subst (λ z. in_run z ≡ true) at o))
      | inr before ↦ ground (arith, before, run-last k c)
    ]

    -- The last label is one of the run's, and 0 while the run is empty.
    abbrev pub IsLast : ℕ → ℕ → Type 0
    IsLast k last = (last ≡ 0) ⊎ ((c : ℕ) × (c < k) × (in_run c ≡ true) × (a.sequence_of c ≡ last))

    last_step :
        (k : ℕ)
        → ((run_in (suc k)).last_sequence ≡ (run_in k).last_sequence)
          ⊎ ((in_run k ≡ true) × (a.sequence_of k ≡ (run_in (suc k)).last_sequence))
    last_step k = ground arith

    pub run-IsLast : (k : ℕ) → IsLast k (run_in k).last_sequence
    run-IsLast zero = inl refl
    run-IsLast (suc k) = elim (last_step k) [
      | inr (inside, label) ↦ inr (k, omega arith, inside, label)
      | inl same ↦ elim (run-IsLast k) [
        | inl nothing ↦ inl (same ∙ nothing)
        | inr (c, lt, inside, label) ↦ inr (c, omega arith, inside, label ∙ sym same)
      ]
    ]

    pub run-below : (k : ℕ) → 0 < until → (run_in k).last_sequence < until
    run-below zero pos = pos
    run-below (suc k) pos = ground (arith, run-below k pos)

pub tally-agree : (n : ℕ) (p q : ℕ → Bool) → ((c : ℕ) → c < n → p c ≡ q c) → tally n p ≡ tally n q
tally-agree zero p q e = refl
tally-agree (suc n) p q e =
    ground (arith, e n (omega arith), tally-agree n p q (λ c l. e c (omega arith)))

pub tally-pos : (n : ℕ) (p : ℕ → Bool) (c : ℕ) → c < n → p c ≡ true → 0 < tally n p
tally-pos zero p c lt t = absurd (omega arith)
tally-pos (suc n) p c lt t = elim (Bool-cases (c == n)) [
  | inl here ↦ let at : c ≡ n = ground (arith, here) in ground (arith, subst (λ z. p z ≡ true) at t)
  | inr before ↦ ground (arith, before, tally-pos n p c)
]
