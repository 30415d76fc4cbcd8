-- ===== src/Timing/AirTime.antt =====
-- firmware/core/timing/channel.h and channel.cpp: `AirTime`, the hour of transmissions in sixty
-- one-minute buckets. The ring is a function on the index, read and written below 60 only.
pub mod Turning
pub mod Hour
pub mod Brought
pub mod Budget
pub mod Tests
use skyblip.Base.{
  ℕ, zero, suc, ◌+◌, ◌-◌, ◌*◌, ◌/◌, ◌%◌, ◌^◌, Bool, true, false, ◌&&◌, ltb, leb, ◌==◌,
  if◌then◌else◌, u8, u32, sub32,
}

abbrev pub window_limit_ms : ℕ
window_limit_ms = 3600000

abbrev pub buckets : ℕ
buckets = 60

abbrev pub one_bucket_ms : ℕ
one_bucket_ms = window_limit_ms / buckets

abbrev pub limit_permille : ℕ
limit_permille = 10

abbrev pub budget_ms : ℕ
budget_ms = window_limit_ms / 1000 * limit_permille

pub record AirTime : Type 0 where
  pub bucket_ms : ℕ → ℕ
  pub head_start_ms : ℕ
  pub head : ℕ
  pub started : Bool
  pub bursts : ℕ
  pub total_ms : ℕ

abbrev pub air_time : AirTime
air_time = record {
  bucket_ms = λ _. 0;
  head_start_ms = 0;
  head = 0;
  started = false;
  bursts = 0;
  total_ms = 0;
}

abbrev pub write : (ℕ → ℕ) → ℕ → ℕ → ℕ → ℕ
write f i v j = if i == j then v else f j

-- The test of the loop that turns the ring.
abbrev pub must_turn : ℕ → AirTime → Bool
must_turn now_ms a =
    leb one_bucket_ms (sub32 now_ms a.head_start_ms)
    && ltb (sub32 now_ms a.head_start_ms) window_limit_ms

-- Its body.
abbrev pub next_bucket : AirTime → AirTime
next_bucket a =
    let head = u8 (if a.head + 1 == buckets then 0 else a.head + 1) in
    record a {
      head = head;
      bucket_ms = write a.bucket_ms head 0;
      head_start_ms = u32 (a.head_start_ms + one_bucket_ms);
    }

-- The loop on fuel.
pub turn : ℕ → ℕ → AirTime → AirTime
turn zero now_ms a = a
turn (suc fuel) now_ms a =
    let turned = turn fuel now_ms (next_bucket a) in if must_turn now_ms a then turned else a

-- The three branches at the start of `spend`.
abbrev pub brought_to : ℕ → AirTime → AirTime
brought_to now_ms a =
    if a.started
    then (if leb window_limit_ms (sub32 now_ms a.head_start_ms)
          && leb window_limit_ms (sub32 a.head_start_ms now_ms)
        then record a { bucket_ms = λ _. 0; head = 0; head_start_ms = now_ms }
        else turn buckets now_ms a)
    else record a { started = true; head_start_ms = now_ms }

pub spend : ℕ → ℕ → AirTime → AirTime
unfolding turn
spend now_ms air_ms a =
    let b = brought_to now_ms a in
    record b {
      bucket_ms = write b.bucket_ms b.head (u32 (b.bucket_ms b.head + air_ms));
      total_ms = u32 (b.total_ms + air_ms);
      bursts = u32 (b.bursts + 1);
    }

-- The loop of `window_ms` at `back`, with `rounds` left, over the sum so far.
pub window_from : AirTime → ℕ → ℕ → ℕ → ℕ → ℕ → ℕ
window_from a now_ms zero back start_ms sum = sum
window_from a now_ms (suc rounds) back start_ms sum =
    let at = u8 ((a.head + buckets - back) % buckets) in
    window_from a now_ms rounds (back + 1) (sub32 start_ms one_bucket_ms)
      (if ltb (sub32 now_ms start_ms) window_limit_ms then u32 (sum + a.bucket_ms at) else sum)

pub window_ms : ℕ → AirTime → ℕ
unfolding window_from
window_ms now_ms a = if a.started then window_from a now_ms buckets 0 a.head_start_ms 0 else 0

unfoldable pub may_spend : ℕ → ℕ → AirTime → Bool
unfolding window_ms
may_spend now_ms air_ms a = leb (u32 (window_ms now_ms a + air_ms)) budget_ms
