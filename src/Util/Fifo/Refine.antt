-- ===== src/Util/Fifo/Refine.antt =====
-- The ring is a queue: what it holds, oldest first, and that each call acts on that list.
use native.Mathlib.Nat.{mod-eq_of_lt, mod-eq-sub-mod}
use skyblip.Base.{
  ℕ, zero, suc, ◌+◌, ◌-◌, ◌%◌, ◌≤◌, ◌<◌, ◌≡◌, refl, ◌∙◌, ap, List, [], ◌∷◌, ◌++◌, true, false, ◌==◌,
  if◌then◌else◌, length, arith, Bool-cases, ltb, inl, inr,
}
use skyblip.Base.Scans.{write}
use skyblip.Util.Status.{Status, ok, full, empty}
use skyblip.Util.Fifo.{
  Result, value, error, Fifo, fifo, next, is_empty, size, push, pop, clear, Call, put, get, wipe,
  Answer, pushed, popped, wiped, run,
}

-- The queue that it stands for, with room for `room` items.
abbrev pub enqueue {ℓ} : {A : Type ℓ} → ℕ → A → List A → List A × Status
enqueue room item q = if ltb (length q) room then (q ++ item ∷ [], ok) else (q, full)

abbrev pub dequeue {ℓ} : {A : Type ℓ} → List A → List A × Result A
dequeue [] = ([], error empty)
dequeue (x ∷ q) = (q, value x)

-- One step round the ring, and the way between two of its indices, without `%`.
next_lem :
    (capacity i : ℕ) → i < capacity → next capacity i ≡ (if i + 1 == capacity then 0 else i + 1)
next_lem capacity i lt = elim (Bool-cases (i + 1 == capacity)) [
  | inl e ↦ rw e (
      mod-eq-sub-mod (ground arith)
      ∙ ground (arith, mod-eq_of_lt {n = i + 1 - capacity} {m = capacity}))
  | inr e ↦ rw e (mod-eq_of_lt (ground arith))
]

around :
    (capacity n : ℕ)
    → n < capacity + capacity
    → 0 < capacity
    → n % capacity ≡ (if ltb n capacity then n else n - capacity)
around capacity n lt pos = elim (Bool-cases (ltb n capacity)) [
  | inl e ↦ rw e (mod-eq_of_lt (ground arith))
  | inr e ↦ rw e (mod-eq-sub-mod (ground arith) ∙ mod-eq_of_lt (ground arith))
]

module _ {A : Type 0} (capacity : ℕ) where
  -- The `n` items from an index on, going round at the capacity.
  abbrev pub items : (ℕ → A) → ℕ → ℕ → List A
  items buffer at zero = []
  items buffer at (suc n) = buffer at ∷ items buffer (next capacity at) n

  abbrev pub contents : Fifo A → List A
  contents f = items f.buffer f.tail (size capacity f)

  pub record IsRing (f : Fifo A) : Type 0 where
    pub roomy : 2 ≤ capacity
    pub head_in : f.head < capacity
    pub tail_in : f.tail < capacity

  pub length-items : (buffer : ℕ → A) (at n : ℕ) → length (items buffer at n) ≡ n
  length-items buffer at zero = refl
  length-items buffer at (suc n) = ap suc (length-items buffer (next capacity at) n)

  -- Writing just behind the items adds that one to them.
  pub items-write :
      (buffer : ℕ → A) (at n i : ℕ) (x : A)
      → at < capacity
      → n < capacity
      → i ≡ (if ltb (at + n) capacity then at + n else at + n - capacity)
      → items (write buffer i x) at (suc n) ≡ items buffer at n ++ x ∷ []
  items-write buffer at zero i x hat hn e = ground arith
  items-write buffer at (suc n) i x hat hn e =
      let step = next_lem capacity at hat in
      let rest =
        items-write buffer (next capacity at) n i x (ground arith) (omega arith) (ground arith) in
      let same : write buffer i x at ≡ buffer at = ground arith in
      rw same (ap (λ q. buffer at ∷ q) rest)

  size_lem :
      (f : Fifo A)
      → IsRing f
      → size capacity f
        ≡ (if ltb f.head f.tail then f.head + capacity - f.tail else f.head - f.tail)
  size_lem f v = ground (arith, around capacity (f.head + capacity - f.tail), v)

  pub push-IsRing : (x : A) (f : Fifo A) → IsRing f → IsRing (push capacity x f).0
  unfolding push
  push-IsRing x f v = ground (arith, v, next_lem capacity f.head)

  pub pop-IsRing : (f : Fifo A) → IsRing f → IsRing (pop capacity f).0
  unfolding pop
  pop-IsRing f v = ground (arith, v, next_lem capacity f.tail)

  -- `push` puts the item behind the others while there are fewer than the capacity less one.
  pub push_refines :
      (x : A) (f : Fifo A)
      → IsRing f
      → let (g, s) = push capacity x f in (contents g, s) ≡ enqueue (capacity - 1) x (contents f)
  unfolding push
  push_refines x f v = elim (Bool-cases (next capacity f.head == f.tail)) [
    | inl e ↦
        let long : ltb (length (contents f)) (capacity - 1) ≡ false = ground (arith, n, s, step) in
        rw (e, long) refl
    | inr e ↦
        let room : ltb (length (contents f)) (capacity - 1) ≡ true = ground (arith, n, s, step) in
        let grown_ring : Fifo A = record f {
          buffer = write f.buffer f.head x;
          head = next capacity f.head;
        } in
        let grown : size capacity grown_ring ≡ suc (size capacity f) = ground (
          arith,
          s,
          step,
          size_lem grown_ring
              (record { roomy = v.roomy; head_in = ground arith; tail_in = v.tail_in }),
        ) in
        rw (e, room)
          (ap (λ q. (q, ok))
            (ap (items grown_ring.buffer f.tail) grown
              ∙ items-write f.buffer f.tail (size capacity f) f.head x v.tail_in (ground (arith, s))
                  (ground (arith, s))))
  ]
    where
      n : length (contents f) ≡ size capacity f
      n = length-items f.buffer f.tail (size capacity f)

      s :
          size capacity f
          ≡ (if ltb f.head f.tail then f.head + capacity - f.tail else f.head - f.tail)
      s = size_lem f v

      step : next capacity f.head ≡ (if f.head + 1 == capacity then 0 else f.head + 1)
      step = next_lem capacity f.head v.head_in

  -- `pop` takes the oldest.
  pub pop_refines :
      (f : Fifo A)
      → IsRing f
      → let (g, r) = pop capacity f in (contents g, r) ≡ dequeue (contents f)
  unfolding pop
  pop_refines f v = elim (Bool-cases (is_empty capacity f)) [
    | inl e ↦
        let none_left : size capacity f ≡ 0 = ground (arith, size_lem f v) in
        rw (e, ap (items f.buffer f.tail) none_left) refl
    | inr e ↦
        let shrunk : Fifo A = record f { tail = next capacity f.tail } in
        let fewer : size capacity f ≡ suc (size capacity shrunk) = ground (
          arith,
          size_lem f v,
          next_lem capacity f.tail,
          size_lem shrunk (record {
            roomy = v.roomy;
            head_in = v.head_in;
            tail_in = ground (arith, next_lem capacity f.tail);
          }),
        ) in
        rw (e, ap (items f.buffer f.tail) fewer) refl
  ]

  clear-IsRing : (f : Fifo A) → IsRing f → IsRing (clear capacity f)
  clear-IsRing f v = record {
    roomy = v.roomy;
    head_in = ground (arith, v);
    tail_in = ground (arith, v);
  }

  clear_refines : (f : Fifo A) → IsRing f → contents (clear capacity f) ≡ []
  clear_refines f v = ap (items f.buffer 0) (size_lem (clear capacity f) (clear-IsRing f v))

-- The same calls on the queue itself.
abbrev pub queue_run : {A : Type 0} → ℕ → List A → List (Call A) → List (Answer A)
queue_run room q [] = []
queue_run room q (put x ∷ calls) =
    let (r, s) = enqueue room x q in pushed s ∷ queue_run room r calls
queue_run room q (get ∷ calls) = let (r, x) = dequeue q in popped x ∷ queue_run room r calls
queue_run room q (wipe ∷ calls) = wiped ∷ queue_run room [] calls

run-contents :
    {A : Type 0} (capacity : ℕ) (calls : List (Call A)) (f : Fifo A)
    → IsRing capacity f
    → run capacity f calls ≡ queue_run (capacity - 1) (contents capacity f) calls
run-contents capacity [] f v = refl
run-contents capacity (put x ∷ calls) f v =
    rw (run-contents capacity calls (push capacity x f).0 (push-IsRing capacity x f v))
      (ap (λ r. pushed r.1 ∷ queue_run (capacity - 1) r.0 calls) (push_refines capacity x f v))
run-contents capacity (get ∷ calls) f v =
    rw (run-contents capacity calls (pop capacity f).0 (pop-IsRing capacity f v))
      (ap (λ r. popped r.1 ∷ queue_run (capacity - 1) r.0 calls) (pop_refines capacity f v))
run-contents capacity (wipe ∷ calls) f v =
    ap (λ q. wiped ∷ q)
      (run-contents capacity calls (clear capacity f) (clear-IsRing capacity f v)
        ∙ ap (λ q. queue_run (capacity - 1) q calls) (clear_refines capacity f v))

-- No sequence of calls tells a new ring of a capacity of two or more from an empty queue with room
-- for one item less: every push and pop answers the same, and clearing empties both.
pub run_refines :
    {A : Type 0} (capacity : ℕ) (default : A) (calls : List (Call A))
    → 2 ≤ capacity
    → run capacity (fifo default) calls ≡ queue_run (capacity - 1) [] calls
run_refines capacity default calls two =
    let v : IsRing capacity (fifo default) = record {
      roomy = two;
      head_in = omega arith;
      tail_in = omega arith;
    } in
    run-contents capacity calls (fifo default) v
    ∙ ap (λ q. queue_run (capacity - 1) q calls)
        (ap (items capacity (λ _. default) 0) (size_lem capacity (fifo default) v))
