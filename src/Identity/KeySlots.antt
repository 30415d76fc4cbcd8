-- ===== src/Identity/KeySlots.antt =====
-- firmware/core/identity/key_slots.h and key_slots.cpp: four seeds of eight words in a memory that is
-- written once. `KeySlots::Memory` is an interface, here a record over the state of the world; the
-- words and a seed's bytes are functions on the index, `std::nullopt` and a failed call are `none`.
pub mod Provisioned
pub mod Working
use skyblip.Base.{
  ℕ, zero, suc, ◌+◌, ◌-◌, ◌*◌, ◌/◌, ◌%◌, Bool, true, false, not, ◌&&◌, ltb, leb, ◌==◌,
  if◌then◌else◌, Option, none, some, u8, ◌<<<◌, ◌>>>◌, every,
}
use skyblip.Base.Scans.{tally}

abbrev pub slots : ℕ
slots = 4

abbrev pub words_per_slot : ℕ
words_per_slot = 8

abbrev pub erased_word : ℕ
erased_word = 0xffffffff

abbrev pub draws_per_slot : ℕ
draws_per_slot = 4

abbrev pub Words : Type 0
Words = ℕ → ℕ

abbrev pub Seed : Type 0
Seed = ℕ → ℕ

pub data Fill : Type 0 where
  blank torn complete : Fill

pub record Memory (World : Type 0) : Type 0 where
  pub read : World → Option Words
  pub write : ℕ → ℕ → World → World
  pub draw : World → World × Option Seed

-- The word `word` of the slot.
abbrev pub at : ℕ → ℕ → ℕ
at slot word = slot * words_per_slot + word

abbrev pub word_of : Seed → ℕ → ℕ
word_of seed i =
    seed (4 * i) + seed (4 * i + 1) <<< 8 + seed (4 * i + 2) <<< 16 + seed (4 * i + 3) <<< 24

unfoldable pub fill : Words → ℕ → Fill
fill words slot =
    let erased = tally words_per_slot (λ i. words (at slot i) == erased_word) in
    if erased == words_per_slot then blank else if erased == 0 then complete else torn

abbrev pub is_complete : Fill → Bool
is_complete complete = true
is_complete f = false

abbrev pub is_blank : Fill → Bool
is_blank blank = true
is_blank f = false

-- The loop downwards, at the slots below `slot`.
unfoldable pub current_below : Words → ℕ → Option ℕ
current_below words zero = none
current_below words (suc slot) =
    let below = current_below words slot in
    if is_complete (fill words slot) then some slot else below

unfoldable pub current : Words → Option ℕ
current words = current_below words slots

-- The lowest slot of the blank ones at the end, from `slot` down.
unfoldable pub blank_from : Words → ℕ → ℕ
blank_from words zero = zero
blank_from words (suc slot) =
    let lower = blank_from words slot in if is_blank (fill words slot) then lower else suc slot

unfoldable pub next_blank : Words → Option ℕ
next_blank words = let slot = blank_from words slots in if slot == slots then none else some slot

abbrev pub seed_in : Words → ℕ → Seed
seed_in words slot byte = u8 (words (at slot (byte / 4)) >>> (8 * (byte % 4)))

unfoldable pub storable : Seed → Bool
storable seed = every words_per_slot (λ i. not (word_of seed i == erased_word))

-- `seed_in(words, slot) == seed`, over the bytes of both.
pub same_seed : Seed → Seed → Bool
same_seed a b = every 32 (λ i. a i == b i)

abbrev pub accepted : Option Seed → Bool
accepted none = false
accepted (some seed) = storable seed

abbrev pub reads_back : Words → ℕ → Seed → Bool
reads_back words slot seed = is_complete (fill words slot) && same_seed (seed_in words slot) seed

module _ {World : Type 0} (memory : Memory World) where
  pub seed_of : World → Option Seed
  seed_of world = elim (memory.read world) [
    | none ↦ none
    | some words ↦ elim (current words) [ none ↦ none | some slot ↦ some (seed_in words slot) ]
  ]

  -- The draws that are left, up to the first that can be stored.
  pub drawn : ℕ → World → World × Option Seed
  drawn zero world = (world, none)
  drawn (suc draws) world =
      let one = memory.draw world in
      let more = drawn draws one.0 in if accepted one.1 then one else more

  -- The loop that writes the words of a seed from `i` on.
  pub written : ℕ → Seed → ℕ → ℕ → World → World
  written slot seed i zero world = world
  written slot seed i (suc rounds) world =
      written slot seed (i + 1) rounds (memory.write (at slot i) (word_of seed i) world)

  -- What the words that are read back say; `none` where the call ends without a slot.
  abbrev pub verified : ℕ → Seed → World → Option Words → World × Option (Words × Bool)
  verified slot seed world none = (world, none)
  verified slot seed world (some words) = (world, some (words, reads_back words slot seed))

  abbrev pub stored : ℕ → World × Option Seed → World × Option (Words × Bool)
  stored slot (world, none) = (world, none)
  stored slot (world, some seed) =
      let world' = written slot seed 0 words_per_slot world in
      verified slot seed world' (memory.read world')

  -- One turn of the loop at a slot: the words that are read back, and whether they hold the seed.
  pub tried : ℕ → World → World × Option (Words × Bool)
  unfolding drawn written
  tried slot world = stored slot (drawn draws_per_slot world)

  -- How the loop goes on after a turn.
  abbrev pub turned :
      ℕ → World × Option (Words × Bool) → (World → Words → World × Option ℕ) → World × Option ℕ
  turned slot (world, none) rest = (world, none)
  turned slot (world, some (words, true)) rest = (world, some slot)
  turned slot (world, some (words, false)) rest = rest world words

  -- The loop over the blank slots on fuel: `floor` is one more than the slot tried last.
  pub provision_from : ℕ → ℕ → Option ℕ → World → World × Option ℕ
  provision_from zero floor next world = (world, none)
  provision_from (suc fuel) floor none world = (world, none)
  provision_from (suc fuel) floor (some slot) world =
      let go_on =
        turned slot (tried slot world)
          (λ world' words. provision_from fuel (slot + 1) (next_blank words) world') in
      if leb floor slot then go_on else (world, none)

  -- Without a complete slot.
  abbrev pub settled : World → Words → Option ℕ → World × Option ℕ
  settled world words (some slot) = (world, some slot)
  settled world words none = provision_from 5 0 (next_blank words) world

  abbrev pub opened : World → Option Words → World × Option ℕ
  opened world none = (world, none)
  opened world (some words) = settled world words (current words)

  -- Every turn goes on to a higher slot, so five turns are enough for four.
  unfoldable pub provision : World → World × Option ℕ
  unfolding provision_from
  provision world = opened world (memory.read world)
