-- ===== src/Base/Scans.antt =====
-- Scans of an array in the order of its indices, an array being a function on the index.
use Prim.Native.Nat.{ℕ, zero, suc, ◌+◌, ◌≤◌, ◌<◌}
use mathlib.Core.Path.{◌≡◌, refl}
use mathlib.Core.Bool.{Bool, true, false}
use mathlib.Core.Option.{Option, none, some}
use native.Mathlib.Omega.{arith}
use skyblip.Base.Tests.{◌==◌, if◌then◌else◌}

-- A write at one index.
abbrev pub write {ℓ} : {A : Type ℓ} → (ℕ → A) → ℕ → A → ℕ → A
write f i v j = if i == j then v else f j

-- The first index of `rounds` from `at` on that passes the test.
abbrev pub first_from : (ℕ → Bool) → ℕ → ℕ → Option ℕ
first_from test at zero = none
first_from test at (suc rounds) = if test at then some at else first_from test (at + 1) rounds

abbrev pub first : (ℕ → Bool) → ℕ → Option ℕ
first test n = first_from test 0 n

-- How many of the first `n` pass it.
abbrev pub tally : ℕ → (ℕ → Bool) → ℕ
tally zero test = 0
tally (suc n) test = if test n then suc (tally n test) else tally n test

pub first_from-some :
    (test : ℕ → Bool) (at rounds i : ℕ)
    → first_from test at rounds ≡ some i
    → (at ≤ i) × (i < at + rounds) × (test i ≡ true)
first_from-some test at zero i e = absurd (ground arith)
first_from-some test at (suc rounds) i e = ground (arith, first_from-some test (at + 1) rounds i)

pub first_from-none :
    (test : ℕ → Bool) (at rounds j : ℕ)
    → first_from test at rounds ≡ none
    → at ≤ j
    → j < at + rounds
    → test j ≡ false
first_from-none test at zero j e le lt = absurd (omega arith)
first_from-none test at (suc rounds) j e le lt =
    ground (arith, first_from-none test (at + 1) rounds j)

pub first-some : (test : ℕ → Bool) (n i : ℕ) → first test n ≡ some i → (i < n) × (test i ≡ true)
first-some test n i e = let r = first_from-some test 0 n i e in (omega (arith, r), r.2)

pub first-none : (test : ℕ → Bool) (n j : ℕ) → first test n ≡ none → j < n → test j ≡ false
first-none test n j e lt = first_from-none test 0 n j e (omega arith) (omega arith)

pub tally-zero : (n : ℕ) (test : ℕ → Bool) → ((i : ℕ) → i < n → test i ≡ false) → tally n test ≡ 0
tally-zero zero test h = refl
tally-zero (suc n) test h = rw (h n (omega arith)) (tally-zero n test (λ i lt. h i (omega arith)))

pub tally-le : (n : ℕ) (test : ℕ → Bool) → tally n test ≤ n
tally-le zero test = omega arith
tally-le (suc n) test = ground (arith, tally-le n test)

pub tally-full : (n : ℕ) (test : ℕ → Bool) (i : ℕ) → tally n test ≡ n → i < n → test i ≡ true
tally-full zero test i e lt = absurd (omega arith)
tally-full (suc n) test i e lt = ground (arith, tally-le n test, tally-full n test i)
