-- ===== src/Shell/Command/Exponent.antt =====
-- `IntToExponent` against what its comment promises.
use termite.Base.{ℕ, zero, suc, ◌/◌, ◌*◌, ◌^◌, ◌≤◌, ◌<◌, ltb, arith, Bool-cases, inl, inr}
use native.Mathlib.Nat.{pow-succ'}
use termite.Shell.Command.{halvings, int_to_exponent}

halvings-le : (fuel x : ℕ) → 0 < x → x ≤ fuel → 2 ^ halvings fuel x ≤ x
unfolding halvings
halvings-le zero x h k = omega arith
halvings-le (suc fuel) x h k = elim (Bool-cases (ltb 1 x)) [
  | inr e ↦ rw e (omega arith)
  | inl e ↦ rw e (ground (arith, halvings-le fuel (x / 2), pow-succ' 2 (halvings fuel (x / 2))))
]

halvings-lt : (fuel x : ℕ) → x ≤ fuel → x < 2 * 2 ^ halvings fuel x
unfolding halvings
halvings-lt zero x h = ground arith
halvings-lt (suc fuel) x h = elim (Bool-cases (ltb 1 x)) [
  | inr e ↦ rw e (ground arith)
  | inl e ↦ rw e (ground (arith, halvings-lt fuel (x / 2), pow-succ' 2 (halvings fuel (x / 2))))
]

pow-pos : (j : ℕ) → 0 < 2 ^ j
pow-pos zero = omega arith
pow-pos (suc j) = omega (arith, pow-pos j, pow-succ' 2 j)

pow-lt : (j k : ℕ) → 2 ^ j < 2 ^ k → j < k
pow-lt j zero h = absurd (omega (arith, pow-pos j))
pow-lt zero (suc k) h = omega arith
pow-lt (suc j) (suc k) h = ground (arith, pow-lt j k, pow-succ' 2 j, pow-succ' 2 k)

-- `IntToExponent` of a positive number is an exponent whose power of two is no smaller, and no
-- other such exponent is less.
pub int_to_exponent-least :
    (z k : ℕ) → 0 < z → z ≤ 2 ^ k → (z ≤ 2 ^ int_to_exponent z) × (int_to_exponent z ≤ k)
unfolding int_to_exponent
int_to_exponent-least z k h q =
    let low = halvings-le z z h (omega arith) in
    let high = halvings-lt z z (omega arith) in
    elim (Bool-cases (ltb (2 ^ halvings z z) z)) [
      | inl e ↦
          rw e (ground (arith, pow-succ' 2 (halvings z z)), ground (arith, pow-lt (halvings z z) k))
      | inr e ↦ rw e (
        ground arith,
        omega (arith, pow-lt (halvings z z) (suc k) (omega (arith, pow-succ' 2 k, pow-pos k))),
      )
    ]
