-- ===== src/Base/Bits.antt =====
-- The lowest binary digit of a machine word, and tests over a small range.
use Prim.Native.Nat.{ℕ, zero, suc, ◌<◌, ◌/◌, ◌%◌, min, digits, bit_and, bit_and-bitwise}
use mathlib.Core.Path.{◌≡◌, refl}
use mathlib.Core.Bool.{Bool, true, false}
use native.Mathlib.Omega.{arith}
use skyblip.Base.Tests.{if◌then◌else◌}

digits-zero : (n a : ℕ) → digits (λ b. 0) min n a 0 ≡ 0
digits-zero zero a = refl
digits-zero (suc n) zero = refl
digits-zero (suc n) (suc a) = let r = digits-zero n (suc a / 2) in omega (arith, r)

-- `x & 1` is the parity of `x`.
pub bit_and-one : (a : ℕ) → bit_and a 1 ≡ a % 2
bit_and-one zero = simp bit_and-bitwise (omega arith)
bit_and-one (suc a) = simp bit_and-bitwise (let r = digits-zero a (suc a / 2) in omega (arith, r))

-- The loop `for (i = 0; i < rounds; i++) if (!test(i)) return false;`.
unfoldable pub every : ℕ → (ℕ → Bool) → Bool
every zero test = true
every (suc rounds) test = if test rounds then every rounds test else false

pub every_at :
    (rounds : ℕ) (test : ℕ → Bool)
    → every rounds test ≡ true
    → (at : ℕ) → at < rounds
    → test at ≡ true
unfolding every
every_at zero test all at lt = ground arith
every_at (suc rounds) test all at lt =
    ground (arith, λ (z : every rounds test ≡ true). every_at rounds test z at)

pub every_whole :
    (rounds : ℕ) (test : ℕ → Bool)
    → ((at : ℕ) → at < rounds → test at ≡ true)
    → every rounds test ≡ true
unfolding every
every_whole zero test each = refl
every_whole (suc rounds) test each =
    rw (each rounds (omega arith)) (every_whole rounds test (λ at lt. each at (omega arith)))
