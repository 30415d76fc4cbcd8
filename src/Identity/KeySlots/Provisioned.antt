-- ===== src/Identity/KeySlots/Provisioned.antt =====
-- A slot that `provision` answers is complete, however the memory behaves, and its loop ends.
use skyblip.Base.{
  ℕ, zero, suc, ◌+◌, ◌≤◌, ◌<◌, ◌≡◌, refl, ◌∙◌, sym, subst, Bool, true, false, leb, Option, none,
  some, inl, inr, arith, Bool-cases,
}
use skyblip.Identity.KeySlots.{
  Words, Seed, Fill, complete, Memory, fill, is_complete, current_below, current, blank_from,
  next_blank, verified, stored, tried, turned, provision_from, settled, opened, provision, drawn,
  written,
}

is_complete-complete : (f : Fill) → is_complete f ≡ true → f ≡ complete
is_complete-complete f e = ground arith

current_below-some :
    (words : Words) (n slot : ℕ)
    → current_below words n ≡ some slot
    → (slot < n) × (is_complete (fill words slot) ≡ true)
unfolding current_below
current_below-some words zero slot e = absurd (ground arith)
current_below-some words (suc n) slot e = elim (Bool-cases (is_complete (fill words n))) [
  | inl here ↦
      let same : some n ≡ some slot = sym (rw here refl) ∙ e in
      let at_n : n ≡ slot = ground (arith, same) in
      (omega (arith, at_n), subst (λ k. is_complete (fill words k) ≡ true) at_n here)
  | inr other ↦
      let found = current_below-some words n slot (sym (rw other refl) ∙ e) in
      (omega (arith, found), found.1)
]

pub blank_from-le : (words : Words) (n : ℕ) → blank_from words n ≤ n
unfolding blank_from
blank_from-le words zero = omega arith
blank_from-le words (suc n) = ground (arith, blank_from-le words n)

pub next_blank-lt : (words : Words) (slot : ℕ) → next_blank words ≡ some slot → slot < 4
unfolding next_blank
next_blank-lt words slot e = ground (arith, blank_from-le words 4)

module _ {World : Type 0} (memory : Memory World) where
  -- The slot of the answer is one of the four, and complete in what the memory reads as then.
  abbrev pub IsKept : World × Option ℕ → Type 0
  IsKept (world, none) = Unit
  IsKept (world, some slot) =
      (slot < 4)
      × ((words : Words) × (memory.read world ≡ some words) × (fill words slot ≡ complete))

  -- A turn's words are what the memory reads as, and complete where it says so.
  abbrev IsTurn : ℕ → World × Option (Words × Bool) → Type 0
  IsTurn slot (world, none) = Unit
  IsTurn slot (world, some (words, good)) =
      (memory.read world ≡ some words) × (good ≡ true → is_complete (fill words slot) ≡ true)

  verified-IsTurn :
      (slot : ℕ) (seed : Seed) (world : World) (read : Option Words)
      → memory.read world ≡ read
      → IsTurn slot (verified memory slot seed world read)
  verified-IsTurn slot seed world none e = tt
  verified-IsTurn slot seed world (some words) e = (e, λ good. ground arith)

  stored-IsTurn : (slot : ℕ) (fresh : World × Option Seed) → IsTurn slot (stored memory slot fresh)
  stored-IsTurn slot (world, none) = tt
  stored-IsTurn slot (world, some seed) =
      let world' = written memory slot seed 0 8 world in
      verified-IsTurn slot seed world' (memory.read world') refl

  tried-IsTurn : (slot : ℕ) (world : World) → IsTurn slot (tried memory slot world)
  unfolding tried
  tried-IsTurn slot world = stored-IsTurn slot (drawn memory 4 world)

  turned-IsKept :
      (slot : ℕ) (turn : World × Option (Words × Bool)) (rest : World → Words → World × Option ℕ)
      → slot < 4
      → IsTurn slot turn
      → ((world : World) (words : Words) → IsKept (rest world words))
      → IsKept (turned memory slot turn rest)
  turned-IsKept slot (world, none) rest lt is go = tt
  turned-IsKept slot (world, some (words, true)) rest lt is go =
      (lt, (words, is.0, is_complete-complete (fill words slot) (is.1 refl)))
  turned-IsKept slot (world, some (words, false)) rest lt is go = go world words

  provision_from-IsKept :
      (fuel floor : ℕ) (next : Option ℕ) (world : World)
      → ((slot : ℕ) → next ≡ some slot → slot < 4)
      → IsKept (provision_from memory fuel floor next world)
  unfolding provision_from
  provision_from-IsKept zero floor next world inside = tt
  provision_from-IsKept (suc fuel) floor none world inside = tt
  provision_from-IsKept (suc fuel) floor (some slot) world inside =
      elim (Bool-cases (leb floor slot)) [
        | inl yes_on ↦ rw yes_on (
            turned-IsKept slot (tried memory slot world)
              (λ world' words. provision_from memory fuel (slot + 1) (next_blank words) world')
              (inside slot refl) (tried-IsTurn slot world)
              (λ world' words.
                provision_from-IsKept fuel (slot + 1) (next_blank words) world'
                  (next_blank-lt words)))
        | inr stop ↦ rw stop tt
      ]

  settled-IsKept :
      (world : World) (words : Words) (found : Option ℕ)
      → memory.read world ≡ some words
      → current words ≡ found
      → IsKept (settled memory world words found)
  unfolding current
  settled-IsKept world words (some slot) e c =
      let found = current_below-some words 4 slot c in
      (found.0, (words, e, is_complete-complete (fill words slot) found.1))
  settled-IsKept world words none e c =
      provision_from-IsKept 5 0 (next_blank words) world (next_blank-lt words)

  opened-IsKept :
      (world : World) (read : Option Words)
      → memory.read world ≡ read
      → IsKept (opened memory world read)
  opened-IsKept world none e = tt
  opened-IsKept world (some words) e = settled-IsKept world words (current words) e refl

  provision-IsKept : (world : World) → IsKept (provision memory world)
  unfolding provision
  provision-IsKept world = opened-IsKept world (memory.read world) refl

  -- One more turn of fuel changes nothing, once there is enough for the slots that are left.
  turned-cong :
      (slot : ℕ) (turn : World × Option (Words × Bool))
      (rest rest' : World → Words → World × Option ℕ)
      → ((world : World) (words : Words) → rest world words ≡ rest' world words)
      → turned memory slot turn rest ≡ turned memory slot turn rest'
  turned-cong slot (world, none) rest rest' same = refl
  turned-cong slot (world, some (words, true)) rest rest' same = refl
  turned-cong slot (world, some (words, false)) rest rest' same = same world words

  enough_fuel :
      (fuel floor : ℕ) (next : Option ℕ) (world : World)
      → 4 ≤ floor + fuel
      → ((slot : ℕ) → next ≡ some slot → slot < 4)
      → provision_from memory (suc fuel) floor next world
        ≡ provision_from memory fuel floor next world
  unfolding provision_from
  enough_fuel zero floor none world le inside = refl
  enough_fuel zero floor (some slot) world le inside =
      let lt = inside slot refl in
      let stop : leb floor slot ≡ false = ground (arith, lt) in rw stop refl
  enough_fuel (suc fuel) floor none world le inside = refl
  enough_fuel (suc fuel) floor (some slot) world le inside = elim (Bool-cases (leb floor slot)) [
    | inl on_slot ↦ rw on_slot (
        turned-cong slot (tried memory slot world)
          (λ world' words. provision_from memory (suc fuel) (slot + 1) (next_blank words) world')
          (λ world' words. provision_from memory fuel (slot + 1) (next_blank words) world')
          (λ world' words.
            enough_fuel fuel (slot + 1) (next_blank words) world' (ground (arith, on_slot))
              (next_blank-lt words)))
    | inr stop ↦ rw stop refl
  ]

-- However the memory behaves, and whatever it answers at any call: when `provision` answers a slot, it
-- is one of the four, and the memory reads then as words in which that slot is complete.
pub provision-complete :
    {World : Type 0} (memory : Memory World) (world after : World) (slot : ℕ)
    → provision memory world ≡ (after, some slot)
    → (slot < 4)
      × ((words : Words) × (memory.read after ≡ some words) × (fill words slot ≡ complete))
provision-complete memory world after slot e =
    subst (IsKept memory) e (provision-IsKept memory world)
