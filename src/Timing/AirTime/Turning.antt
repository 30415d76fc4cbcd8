-- ===== src/Timing/AirTime/Turning.antt =====
-- The loop that turns the ring of minutes ends within the buckets there are, and where it ends.
use skyblip.Base.{
  ℕ, zero, suc, ◌+◌, ◌*◌, ◌^◌, ◌<◌, ◌≤◌, ◌≡◌, ◌⊎◌, inl, inr, true, false, arith, sub32, Bool-cases,
}
use skyblip.Timing.AirTime.{AirTime, turn, must_turn, next_bucket, buckets}

-- Each turn takes one minute off the age of the head.
age-next_bucket :
    (now_ms : ℕ) (a : AirTime)
    → a.head_start_ms < 2 ^ 32
    → now_ms < 2 ^ 32
    → must_turn now_ms a ≡ true
    → sub32 now_ms (next_bucket a).head_start_ms + 60000 ≡ sub32 now_ms a.head_start_ms
age-next_bucket now_ms a h n m = ground arith

turn-enough :
    (fuel now_ms : ℕ) (a : AirTime)
    → a.head_start_ms < 2 ^ 32
    → now_ms < 2 ^ 32
    → (sub32 now_ms a.head_start_ms < suc fuel * 60000) ⊎ (3600000 ≤ sub32 now_ms a.head_start_ms)
    → must_turn now_ms (turn fuel now_ms a) ≡ false
unfolding turn
turn-enough zero now_ms a h n bound = ground arith
turn-enough (suc fuel) now_ms a h n bound = elim (Bool-cases (must_turn now_ms a)) [
  | inl m ↦
      let age = age-next_bucket now_ms a h n m in
      let next =
        turn-enough fuel now_ms (next_bucket a) (omega arith) n (inl (ground (arith, age))) in
      rw m next
  | inr m ↦ rw m m
]

-- Sixty turns are always enough for the loop to end.
pub turn-buckets :
    (now_ms : ℕ) (a : AirTime)
    → a.head_start_ms < 2 ^ 32
    → now_ms < 2 ^ 32
    → must_turn now_ms (turn buckets now_ms a) ≡ false
turn-buckets now_ms a h n = turn-enough buckets now_ms a h n (ground arith)

-- The head's minute has the instant in it, or the instant is less than an hour behind its start.
abbrev pub IsAtHead : ℕ → AirTime → Type 0
IsAtHead now_ms a =
    (sub32 now_ms a.head_start_ms < 60000) ⊎ (sub32 a.head_start_ms now_ms < 3600000)
