-- ===== src/Base/Counts.antt =====
-- Sums over the numbers below a bound, as of what each thread or object contributes to a counter.
use lua_mtint.Base.Tests.{◌==◌, Bool-cases, eq_of_==}
use Prim.Native.Nat.{ℕ, zero, suc, ◌+◌, ◌≤◌, ◌<◌}
use mathlib.Core.Path.{◌≡◌, refl}
use mathlib.Core.Logic.{◌≢◌, inl, inr}
use native.Mathlib.Omega.{arith}

unfoldable pub sum_below : ℕ → (ℕ → ℕ) → ℕ
sum_below zero f = 0
sum_below (suc n) f = sum_below n f + f n

pub sum_below-congr :
    (n : ℕ) (f g : ℕ → ℕ) → ((q : ℕ) → q < n → g q ≡ f q) → sum_below n g ≡ sum_below n f
unfolding sum_below
sum_below-congr zero f g same = refl
sum_below-congr (suc n) f g same =
    omega (arith, sum_below-congr n f g (λ q lt. same q (omega arith)), same n (omega arith))

-- One number contributes differently.
pub sum_below-change :
    (n t : ℕ) (f g : ℕ → ℕ)
    → ((q : ℕ) → q ≢ t → g q ≡ f q)
    → t < n
    → sum_below n g + f t ≡ sum_below n f + g t
unfolding sum_below
sum_below-change zero t f g same lt = absurd (omega arith)
sum_below-change (suc n) t f g same lt = elim (Bool-cases (t == n)) [
  | inl e ↦ rw (eq_of_== t n e) (
      omega (
        arith,
        sum_below-congr n f g (λ q below. same q (λ e'. ground (arith, e', eq_of_== t n e))),
      ))
  | inr e ↦
      omega (arith, sum_below-change n t f g same (ground arith), same n (λ e'. ground (arith, e')))
]

pub le-sum_below : (n t : ℕ) (f : ℕ → ℕ) → t < n → f t ≤ sum_below n f
unfolding sum_below
le-sum_below zero t f lt = absurd (omega arith)
le-sum_below (suc n) t f lt = elim (Bool-cases (t == n)) [
  | inl e ↦ rw (eq_of_== t n e) (omega arith)
  | inr e ↦ omega (arith, le-sum_below n t f (ground arith))
]

pub sum_below-zero : (n : ℕ) → sum_below n (λ q. 0) ≡ 0
unfolding sum_below
sum_below-zero zero = refl
sum_below-zero (suc n) = omega (arith, sum_below-zero n)

pub sum_below-le : (n : ℕ) (f : ℕ → ℕ) → ((q : ℕ) → f q ≤ 1) → sum_below n f ≤ n
unfolding sum_below
sum_below-le zero f small = omega arith
sum_below-le (suc n) f small = omega (arith, sum_below-le n f small, small n)
