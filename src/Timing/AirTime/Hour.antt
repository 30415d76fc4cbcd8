-- ===== src/Timing/AirTime/Hour.antt =====
-- What the hour holds: the sum over the ring without its wrap, and how turning and spending change it.
use skyblip.Base.{
  ℕ, zero, suc, ◌+◌, ◌-◌, ◌*◌, ◌%◌, ◌^◌, ◌≤◌, ◌<◌, ◌≡◌, refl, ◌∙◌, sym, ap, inl, inr, Bool, true,
  false, arith, ltb, if◌then◌else◌, u8, u32, sub32, Bool-cases,
}
use skyblip.Timing.AirTime.{AirTime, window_from, must_turn, next_bucket}

-- The bucket that is `back` minutes behind the head.
abbrev pub behind : AirTime → ℕ → ℕ
behind a back = a.bucket_ms (u8 ((a.head + 60 - back) % 60))

-- The sums of `rounds` buckets from one on: those within the hour, and all of them.
abbrev pub kept : AirTime → ℕ → ℕ → ℕ → ℕ → ℕ
kept a now_ms zero back start_ms = 0
kept a now_ms (suc rounds) back start_ms =
    (if ltb (sub32 now_ms start_ms) 3600000 then behind a back else 0)
    + kept a now_ms rounds (back + 1) (sub32 start_ms 60000)

abbrev pub total : AirTime → ℕ → ℕ → ℕ
total a zero back = 0
total a (suc rounds) back = behind a back + total a rounds (back + 1)

pub kept-le-total :
    (a : AirTime) (now_ms rounds back start_ms : ℕ)
    → kept a now_ms rounds back start_ms ≤ total a rounds back
kept-le-total a now_ms zero back start_ms = omega arith
kept-le-total a now_ms (suc rounds) back start_ms =
    ground (arith, kept-le-total a now_ms rounds (back + 1) (sub32 start_ms 60000))

pub window_from-kept :
    (a : AirTime) (now_ms rounds back start_ms sum : ℕ)
    → sum + kept a now_ms rounds back start_ms < 2 ^ 32
    → window_from a now_ms rounds back start_ms sum ≡ sum + kept a now_ms rounds back start_ms
unfolding window_from
window_from-kept a now_ms zero back start_ms sum fits = omega arith
window_from-kept a now_ms (suc rounds) back start_ms sum fits =
    elim (Bool-cases (ltb (sub32 now_ms start_ms) 3600000)) [
      | inl within ↦
          let wrap : u32 (sum + behind a back) ≡ sum + behind a back = ground arith in
          rw (within, wrap)
            (window_from-kept a now_ms rounds (back + 1) (sub32 start_ms 60000)
                (sum + behind a back) (ground arith)
              ∙ omega arith)
      | inr past ↦ rw past (
          window_from-kept a now_ms rounds (back + 1) (sub32 start_ms 60000) sum (ground arith)
          ∙ omega arith)
    ]

-- The last bucket is out of the hour once it is a whole hour old.
pub kept_last :
    (a : AirTime) (now_ms rounds back start_ms : ℕ)
    → start_ms < 2 ^ 32
    → now_ms < 2 ^ 32
    → 3600000 ≤ sub32 now_ms start_ms + 60000 * rounds
    → sub32 now_ms start_ms + 60000 * rounds < 2 ^ 32
    → kept a now_ms (suc rounds) back start_ms ≡ kept a now_ms rounds back start_ms
kept_last a now_ms zero back start_ms s n old fits = ground arith
kept_last a now_ms (suc rounds) back start_ms s n old fits =
    let age : sub32 now_ms (sub32 start_ms 60000) ≡ sub32 now_ms start_ms + 60000 = omega arith in
    ap (λ k. (if ltb (sub32 now_ms start_ms) 3600000 then behind a back else 0) + k)
      (kept_last a now_ms rounds (back + 1) (sub32 start_ms 60000) (omega arith) n (omega arith)
        (omega arith))

-- A turn moves every bucket one back, and empties the head.
turned_behind :
    (a : AirTime) (back : ℕ)
    → a.head < 60
    → back < 59
    → behind (next_bucket a) (back + 1) ≡ behind a back
turned_behind a back h lt = ground arith

kept-next_bucket :
    (a : AirTime) (now_ms rounds back start_ms : ℕ)
    → a.head < 60
    → back + rounds ≤ 59
    → kept (next_bucket a) now_ms rounds (back + 1) start_ms ≡ kept a now_ms rounds back start_ms
kept-next_bucket a now_ms zero back start_ms h le = refl
kept-next_bucket a now_ms (suc rounds) back start_ms h le =
    let here = turned_behind a back h (omega arith) in
    let rest = kept-next_bucket a now_ms rounds (back + 1) (sub32 start_ms 60000) h (omega arith) in
    ground (arith, here, rest)

total-next_bucket :
    (a : AirTime) (rounds back : ℕ)
    → a.head < 60
    → back + rounds ≤ 59
    → total (next_bucket a) rounds (back + 1) ≡ total a rounds back
total-next_bucket a zero back h le = refl
total-next_bucket a (suc rounds) back h le =
    let here = turned_behind a back h (omega arith) in
    let rest = total-next_bucket a rounds (back + 1) h (omega arith) in ground (arith, here, rest)

turn_age :
    (a : AirTime) (now_ms : ℕ)
    → must_turn now_ms a ≡ true
    → (60000 ≤ sub32 now_ms a.head_start_ms) × (sub32 now_ms a.head_start_ms < 3600000)
turn_age a now_ms must = ground arith

back_again : (s : ℕ) → s < 2 ^ 32 → sub32 (u32 (s + 60000)) 60000 ≡ s
back_again s lt = omega arith

emptied : (a : AirTime) → a.head < 60 → behind (next_bucket a) 0 ≡ 0
emptied a h = ground arith

no_bucket : (b : Bool) (x k : ℕ) → x ≡ 0 → (if b then x else 0) + k ≡ k
no_bucket true x k z = omega arith
no_bucket false x k z = omega arith

-- A turn loses nothing of the hour.
pub kept-turned :
    (a : AirTime) (now_ms : ℕ)
    → a.head < 60
    → a.head_start_ms < 2 ^ 32
    → now_ms < 2 ^ 32
    → must_turn now_ms a ≡ true
    → kept (next_bucket a) now_ms 60 0 (u32 (a.head_start_ms + 60000))
      ≡ kept a now_ms 60 0 a.head_start_ms
kept-turned a now_ms h s n must =
    let (old, young) = turn_age a now_ms must in
    no_bucket (ltb (sub32 now_ms (u32 (a.head_start_ms + 60000))) 3600000)
      (behind (next_bucket a) 0)
      (kept (next_bucket a) now_ms 59 1 (sub32 (u32 (a.head_start_ms + 60000)) 60000)) (emptied a h)
    ∙ ap (kept (next_bucket a) now_ms 59 1) (back_again a.head_start_ms s)
    ∙ kept-next_bucket a now_ms 59 0 a.head_start_ms h (omega arith)
    ∙ sym (kept_last a now_ms 59 0 a.head_start_ms s n (omega arith) (omega arith))
