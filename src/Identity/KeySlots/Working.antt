-- ===== src/Identity/KeySlots/Working.antt =====
-- A memory that works: what it is written it reads back, and its draws can be stored.
use skyblip.Base.{ℕ, ◌<◌, ◌≡◌, true, ◌==◌, if◌then◌else◌, some}
use skyblip.Identity.KeySlots.{Words, Seed, Memory, at, word_of, storable, erased_word}

abbrev pub Bytes : Seed → Type 0
Bytes seed = (j : ℕ) → seed j < 256

-- The flash reads as its words, a write sets a word that is erased, and the source of randomness gives
-- bytes that can be stored and leaves the words alone.
pub record IsWorking {World : Type 0} (memory : Memory World) (words_of : World → Words)
    : Type 0 where
  pub reads : (w : World) → memory.read w ≡ some (words_of w)
  pub writes :
      (w : World) (i v j : ℕ)
      → words_of w i ≡ erased_word
      → words_of (memory.write i v w) j ≡ (if i == j then v else words_of w j)
  pub draws :
      (w : World)
      → (seed : Seed) × ((memory.draw w).1 ≡ some seed) × (storable seed ≡ true) × Bytes seed
  pub draws_keep : (w : World) → words_of (memory.draw w).0 ≡ words_of w

-- A slot whose words are those of a storable seed.
abbrev Holds : Words → ℕ → Seed → Type 0
Holds words slot seed = (i : ℕ) → i < 8 → words (at slot i) ≡ word_of seed i
