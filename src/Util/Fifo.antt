-- ===== src/Util/Fifo.antt =====
-- firmware/core/util/fifo.h: the bounded ring behind the queues, with Result<T> of util/result.h.
-- The array is a function on the index, read and written below the capacity only.
pub mod Refine
mod Tests
use skyblip.Base.{ℕ, ◌+◌, ◌-◌, ◌%◌, Bool, ◌==◌, if◌then◌else◌, List, [], ◌∷◌}
use skyblip.Base.Scans.{write}
use skyblip.Util.Status.{Status, ok, full, empty}

pub data Result {ℓ} (A : Type ℓ) : Type ℓ where
  value : A → Result A
  error : Status → Result A

pub record Fifo (A : Type 0) : Type 0 where
  pub buffer : ℕ → A
  pub head : ℕ
  pub tail : ℕ

-- `std::array<T, Capacity> buffer_{}`, of the type's own default.
abbrev pub fifo : {A : Type 0} → A → Fifo A
fifo default = record { buffer = λ _. default; head = 0; tail = 0 }

abbrev pub next : ℕ → ℕ → ℕ
next capacity i = (i + 1) % capacity

module _ {A : Type 0} (capacity : ℕ) where
  abbrev pub is_empty : Fifo A → Bool
  is_empty f = f.head == f.tail

  abbrev pub is_full : Fifo A → Bool
  is_full f = next capacity f.head == f.tail

  abbrev pub size : Fifo A → ℕ
  size f = (f.head + capacity - f.tail) % capacity

  unfoldable pub push : A → Fifo A → Fifo A × Status
  push item f =
      if next capacity f.head == f.tail
      then (f, full)
      else (record f { buffer = write f.buffer f.head item; head = next capacity f.head }, ok)

  unfoldable pub pop : Fifo A → Fifo A × Result A
  pop f =
      if is_empty f
      then (f, error empty)
      else (record f { tail = next capacity f.tail }, value (f.buffer f.tail))

  abbrev pub clear : Fifo A → Fifo A
  clear f = record f { head = 0; tail = 0 }

-- A client's calls in their order, and what each of them answers.
pub data Call (A : Type 0) : Type 0 where
  put : A → Call A
  get wipe : Call A

pub data Answer (A : Type 0) : Type 0 where
  pushed : Status → Answer A
  popped : Result A → Answer A
  wiped : Answer A

abbrev pub run : {A : Type 0} → ℕ → Fifo A → List (Call A) → List (Answer A)
run capacity f [] = []
run capacity f (put x ∷ calls) = let (g, s) = push capacity x f in pushed s ∷ run capacity g calls
run capacity f (get ∷ calls) = let (g, r) = pop capacity f in popped r ∷ run capacity g calls
run capacity f (wipe ∷ calls) = wiped ∷ run capacity (clear capacity f) calls
