-- ===== src/Timing/AirTime/Budget.antt =====
-- The budget of the hour: a burst that `may_spend` grants leaves the hour within it.
use skyblip.Base.{
  ℕ, zero, suc, ◌+◌, ◌^◌, ◌≤◌, ◌<◌, ◌≡◌, refl, ◌∙◌, sym, ap, subst, inl, inr, Bool, true, false,
  arith, ltb, leb, u32, sub32, Bool-cases,
}
use skyblip.Timing.AirTime.{AirTime, window_ms, write, spend, may_spend, brought_to, budget_ms}
use skyblip.Timing.AirTime.Hour.{behind, kept, kept-le-total}
use skyblip.Timing.AirTime.Brought.{Hour, kept_all, window_ms-kept, brought_to-Brought}

-- A write at the head reaches no bucket behind it.
kept-written :
    (a : AirTime) (value now_ms rounds back start_ms : ℕ)
    → a.head < 60
    → 0 < back
    → back + rounds ≤ 60
    → kept (record a { bucket_ms = write a.bucket_ms a.head value }) now_ms rounds back start_ms
      ≡ kept a now_ms rounds back start_ms
kept-written a value now_ms zero back start_ms h pos le = refl
kept-written a value now_ms (suc rounds) back start_ms h pos le =
    let rest =
      kept-written a value now_ms rounds (back + 1) (sub32 start_ms 60000) h (omega arith)
        (omega arith) in
    ground (arith, rest)

-- The burst counts in full, in the head's bucket.
abbrev counted : AirTime → ℕ → AirTime
counted b air_ms = record b {
  bucket_ms = write b.bucket_ms b.head (u32 (b.bucket_ms b.head + air_ms));
  total_ms = u32 (b.total_ms + air_ms);
  bursts = u32 (b.bursts + 1);
}

kept_within :
    (a : AirTime) (now_ms rounds back start_ms : ℕ)
    → sub32 now_ms start_ms < 3600000
    → kept a now_ms (suc rounds) back start_ms
      ≡ behind a back + kept a now_ms rounds (back + 1) (sub32 start_ms 60000)
kept_within a now_ms rounds back start_ms young =
    let within : ltb (sub32 now_ms start_ms) 3600000 ≡ true = ground arith in rw within refl

behind-counted :
    (b : AirTime) (air_ms : ℕ)
    → b.head < 60
    → behind (counted b air_ms) 0 ≡ u32 (behind b 0 + air_ms)
behind-counted b air_ms h = ground arith

sum_counted : (x air_ms k : ℕ) → x + k + air_ms < 2 ^ 32 → u32 (x + air_ms) + k ≡ x + k + air_ms
sum_counted x air_ms k fits = omega arith

kept-counted :
    (b : AirTime) (now_ms air_ms : ℕ)
    → b.head < 60
    → sub32 now_ms b.head_start_ms < 60000
    → kept b now_ms 60 0 b.head_start_ms + air_ms < 2 ^ 32
    → kept (counted b air_ms) now_ms 60 0 b.head_start_ms
      ≡ kept b now_ms 60 0 b.head_start_ms + air_ms
kept-counted b now_ms air_ms h young fits =
    let start = sub32 b.head_start_ms 60000 in
    let split = kept_within b now_ms 59 0 b.head_start_ms (omega arith) in
    kept_within (counted b air_ms) now_ms 59 0 b.head_start_ms (omega arith)
    ∙ ap (λ k. behind (counted b air_ms) 0 + k)
        (kept-written b (u32 (b.bucket_ms b.head + air_ms)) now_ms 59 1 start h (omega arith)
          (omega arith))
    ∙ ap (λ k. k + kept b now_ms 59 1 start) (behind-counted b air_ms h)
    ∙ sum_counted (behind b 0) air_ms (kept b now_ms 59 1 start)
        (subst (λ k. k + air_ms < 2 ^ 32) split fits)
    ∙ sym (ap (λ k. k + air_ms) split)

fits_budget :
    (sum air_ms : ℕ)
    → air_ms < 2 ^ 31
    → sum ≤ 36000
    → leb (u32 (sum + air_ms)) 36000 ≡ true
    → sum + air_ms ≤ 36000
fits_budget sum air_ms air le may = ground arith

no_idle : {on : Bool} {total_ms : ℕ} → on ≡ true → on ≡ false → total_ms ≡ 0
no_idle started stopped = cc

window_ms-le :
    (a : AirTime) (now_ms : ℕ) → Hour a → now_ms < 2 ^ 32 → window_ms now_ms a ≤ budget_ms
unfolding window_ms
window_ms-le a now_ms hour n = elim (Bool-cases a.started) [
  | inl on ↦
      let le = kept-le-total a now_ms 60 0 a.head_start_ms in
      let sum = hour.sum in rw (window_ms-kept a now_ms hour on) (omega arith)
  | inr off ↦ rw off (omega arith)
]

-- From a well-formed hour, at an instant less than 2 ^ 32 - 3600000 ms past the head's start, a burst
-- below 2 ^ 31 ms that `may_spend` grants is counted in full by `spend`: the hour's sum grows by
-- exactly the burst and stays within the budget of 36 s, and the hour is well-formed again (head
-- inside the ring, all sixty buckets together within the budget), whether the ring turned, was
-- cleared after an idle hour, or had its first burst.
pub spend-Hour :
    (a : AirTime) (now_ms air_ms : ℕ)
    → Hour a
    → now_ms < 2 ^ 32
    → sub32 now_ms a.head_start_ms + 3600000 < 2 ^ 32
    → air_ms < 2 ^ 31
    → may_spend now_ms air_ms a ≡ true
    → Hour (spend now_ms air_ms a)
      × (window_ms now_ms (spend now_ms air_ms a) ≡ window_ms now_ms a + air_ms)
      × (window_ms now_ms a + air_ms ≤ budget_ms)
unfolding spend may_spend
spend-Hour a now_ms air_ms hour n fits air may =
    let b = brought_to now_ms a in
    let from = brought_to-Brought a now_ms hour n fits in
    let le = fits_budget (window_ms now_ms a) air_ms air (window_ms-le a now_ms hour n) may in
    let grown : kept (counted b air_ms) now_ms 60 0 b.head_start_ms ≡ window_ms now_ms a + air_ms =
      kept-counted b now_ms air_ms from.head from.age (omega (arith, from.sum, le))
      ∙ ap (λ k. k + air_ms) from.sum in
    let all =
      kept_all (counted b air_ms) now_ms 60 0 b.head_start_ms from.start n
        (omega (arith, from.age)) in
    let after : Hour (counted b air_ms) = record {
      head = from.head;
      start = from.start;
      sum = omega (arith, all, grown, le);
      idle = λ off. no_idle from.started off;
    } in
    (after, window_ms-kept (counted b air_ms) now_ms after from.started ∙ grown, le)
