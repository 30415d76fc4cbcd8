-- ===== src/Timing/AirTime/Brought.antt =====
-- What `spend` starts from: the ring turned to the instant, or cleared, over the hour there was.
use skyblip.Base.{
  ℕ, zero, suc, ◌+◌, ◌*◌, ◌^◌, ◌≤◌, ◌<◌, ◌≡◌, refl, ◌∙◌, sym, ap, inl, inr, true, false, arith, ltb,
  leb, sub32, Bool-cases,
}
use skyblip.Timing.AirTime.{
  AirTime, window_ms, must_turn, next_bucket, turn, brought_to, budget_ms, buckets,
}
use skyblip.Timing.AirTime.Turning.{turn-buckets}
use skyblip.Timing.AirTime.Hour.{behind, kept, total, kept-le-total, window_from-kept, kept-turned}

-- Sixty turns of the ring keep the hour's sum.
record Turned (now_ms : ℕ) (a b : AirTime) : Type 0 where
  started : b.started ≡ a.started
  head : b.head < 60
  start : b.head_start_ms < 2 ^ 32
  sum : kept b now_ms 60 0 b.head_start_ms ≡ kept a now_ms 60 0 a.head_start_ms
  age : sub32 now_ms b.head_start_ms ≤ sub32 now_ms a.head_start_ms

one_turn :
    (a : AirTime) (now_ms : ℕ)
    → a.head < 60
    → a.head_start_ms < 2 ^ 32
    → now_ms < 2 ^ 32
    → must_turn now_ms a ≡ true
    → Turned now_ms a (next_bucket a)
one_turn a now_ms h s n must = record {
  started = refl;
  head = ground arith;
  start = omega arith;
  sum = kept-turned a now_ms h s n must;
  age = ground arith;
}

turn-Turned :
    (fuel now_ms : ℕ) (a : AirTime)
    → a.head < 60
    → a.head_start_ms < 2 ^ 32
    → now_ms < 2 ^ 32
    → Turned now_ms a (turn fuel now_ms a)
unfolding turn
turn-Turned zero now_ms a h s n = record {
  started = refl;
  head = h;
  start = s;
  sum = refl;
  age = omega arith;
}
turn-Turned (suc fuel) now_ms a h s n = elim (Bool-cases (must_turn now_ms a)) [
  | inl m ↦
      let one = one_turn a now_ms h s n m in
      let rest = turn-Turned fuel now_ms (next_bucket a) one.head one.start n in
      rw m (record {
        started = rest.started ∙ one.started;
        head = rest.head;
        start = rest.start;
        sum = rest.sum ∙ one.sum;
        age = omega (arith, rest.age, one.age);
      })
  | inr m ↦ rw m (record { started = refl; head = h; start = s; sum = refl; age = omega arith })
]

-- An hour past the head's start nothing is left of the hour.
kept_past :
    (a : AirTime) (now_ms rounds back start_ms : ℕ)
    → start_ms < 2 ^ 32
    → now_ms < 2 ^ 32
    → 3600000 ≤ sub32 now_ms start_ms
    → sub32 now_ms start_ms + 60000 * rounds < 2 ^ 32
    → kept a now_ms rounds back start_ms ≡ 0
kept_past a now_ms zero back start_ms s n old fits = refl
kept_past a now_ms (suc rounds) back start_ms s n old fits =
    let rest =
      kept_past a now_ms rounds (back + 1) (sub32 start_ms 60000) (omega arith) n (omega arith)
        (omega arith) in
    ground (arith, rest)

-- In the head's own minute every bucket is within the hour.
pub kept_all :
    (a : AirTime) (now_ms rounds back start_ms : ℕ)
    → start_ms < 2 ^ 32
    → now_ms < 2 ^ 32
    → sub32 now_ms start_ms + 60000 * rounds < 3660000
    → kept a now_ms rounds back start_ms ≡ total a rounds back
kept_all a now_ms zero back start_ms s n young = refl
kept_all a now_ms (suc rounds) back start_ms s n young =
    let within : ltb (sub32 now_ms start_ms) 3600000 ≡ true = ground arith in
    let age : sub32 now_ms (sub32 start_ms 60000) ≡ sub32 now_ms start_ms + 60000 = omega arith in
    rw within (
      ap (λ k. behind a back + k)
        (kept_all a now_ms rounds (back + 1) (sub32 start_ms 60000) (omega arith) n (omega arith)))

-- Between two calls: the ring's bounds, a sum within the budget, and none before the first burst.
pub record Hour (a : AirTime) : Type 0 where
  pub head : a.head < 60
  pub start : a.head_start_ms < 2 ^ 32
  pub sum : total a 60 0 ≤ budget_ms
  pub idle : a.started ≡ false → total a 60 0 ≡ 0

pub window_ms-kept :
    (a : AirTime) (now_ms : ℕ)
    → Hour a
    → a.started ≡ true
    → window_ms now_ms a ≡ kept a now_ms 60 0 a.head_start_ms
unfolding window_ms
window_ms-kept a now_ms hour on =
    let le = kept-le-total a now_ms 60 0 a.head_start_ms in
    let sum = hour.sum in
    rw on (window_from-kept a now_ms 60 0 a.head_start_ms 0 (omega arith) ∙ omega arith)

-- What `spend` starts from: a head in its own minute, over the hour there was.
pub record Brought (now_ms : ℕ) (a b : AirTime) : Type 0 where
  pub started : b.started ≡ true
  pub head : b.head < 60
  pub start : b.head_start_ms < 2 ^ 32
  pub sum : kept b now_ms 60 0 b.head_start_ms ≡ window_ms now_ms a
  pub age : sub32 now_ms b.head_start_ms < 60000

kept_none :
    (now_ms rounds back start_ms : ℕ) (a : AirTime)
    → total a rounds back ≡ 0
    → kept a now_ms rounds back start_ms ≡ 0
kept_none now_ms rounds back start_ms a none =
    let le = kept-le-total a now_ms rounds back start_ms in omega arith

total_cleared :
    (a : AirTime) (now_ms rounds back : ℕ)
    → total (record a { bucket_ms = λ _. 0; head = 0; head_start_ms = now_ms }) rounds back ≡ 0
total_cleared a now_ms zero back = refl
total_cleared a now_ms (suc rounds) back =
    let rest = total_cleared a now_ms rounds (back + 1) in omega arith

first-Brought :
    (a : AirTime) (now_ms : ℕ)
    → Hour a
    → now_ms < 2 ^ 32
    → a.started ≡ false
    → Brought now_ms a (brought_to now_ms a)
unfolding window_ms
first-Brought a now_ms hour n off = rw off (record {
  started = refl;
  head = hour.head;
  start = n;
  sum =
      kept_none now_ms 60 0 now_ms (record a { started = true; head_start_ms = now_ms })
        (hour.idle off);
  age = omega arith;
})

idle-Brought :
    (a : AirTime) (now_ms : ℕ)
    → Hour a
    → now_ms < 2 ^ 32
    → a.started ≡ true
    → 3600000 ≤ sub32 now_ms a.head_start_ms
    → sub32 now_ms a.head_start_ms + 3600000 < 2 ^ 32
    → Brought now_ms a (brought_to now_ms a)
idle-Brought a now_ms hour n on old fits =
    let s = hour.start in
    let past : leb 3600000 (sub32 now_ms a.head_start_ms) ≡ true = ground arith in
    let far : leb 3600000 (sub32 a.head_start_ms now_ms) ≡ true = ground arith in
    let none = kept_past a now_ms 60 0 a.head_start_ms s n old (omega arith) in
    let zeroed = record a {
      bucket_ms = λ _. 0;
      head = 0;
      head_start_ms = now_ms;
      started = true;
    } in
    simp (on, past, far)
      (record {
        started = refl;
        head = omega arith;
        start = n;
        sum =
            kept_none now_ms 60 0 now_ms zeroed
              (total_cleared (record a { started = true }) now_ms 60 0)
            ∙ sym (window_ms-kept a now_ms hour on ∙ none);
        age = omega arith;
      })

stopped_age :
    (b : AirTime) (now_ms : ℕ)
    → must_turn now_ms b ≡ false
    → sub32 now_ms b.head_start_ms < 3600000
    → sub32 now_ms b.head_start_ms < 60000
stopped_age b now_ms stop young = ground arith

turned-Brought :
    (a : AirTime) (now_ms : ℕ)
    → Hour a
    → now_ms < 2 ^ 32
    → a.started ≡ true
    → sub32 now_ms a.head_start_ms < 3600000
    → Brought now_ms a (brought_to now_ms a)
turned-Brought a now_ms hour n on young =
    let fresh : leb 3600000 (sub32 now_ms a.head_start_ms) ≡ false = ground arith in
    let turned = turn-Turned buckets now_ms a hour.head hour.start n in
    let stop = turn-buckets now_ms a hour.start n in
    let age = turned.age in
    simp (on, fresh)
      (record {
        started = turned.started ∙ on;
        head = turned.head;
        start = turned.start;
        sum = turned.sum ∙ sym (window_ms-kept a now_ms hour on);
        age = stopped_age (turn buckets now_ms a) now_ms stop (omega arith);
      })

pub brought_to-Brought :
    (a : AirTime) (now_ms : ℕ)
    → Hour a
    → now_ms < 2 ^ 32
    → sub32 now_ms a.head_start_ms + 3600000 < 2 ^ 32
    → Brought now_ms a (brought_to now_ms a)
brought_to-Brought a now_ms hour n fits = elim (Bool-cases a.started) [
  | inl on ↦ elim (Bool-cases (leb 3600000 (sub32 now_ms a.head_start_ms))) [
    | inl old ↦ idle-Brought a now_ms hour n on (ground arith) fits
    | inr young ↦ turned-Brought a now_ms hour n on (ground arith)
  ]
  | inr off ↦ first-Brought a now_ms hour n off
]
