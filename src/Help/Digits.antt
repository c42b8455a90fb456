-- ===== src/Help/Digits.antt =====
-- The decimal digits that the report writes.
use refactoring_pyjwt.Prelude.{
  ℕ, zero, suc, ◌+◌, ◌*◌, ◌/◌, ◌<◌, List, [], ◌∷◌, ◌≡◌, inl, inr, arith, Bool-cases, ltb,
}
use refactoring_pyjwt.Help.{digits}

-- The number that digits stand for, the last digit first.
abbrev value : List ℕ → ℕ
value [] = 0
value (d ∷ ds) = d + 10 * value ds

-- More fuel than the number is enough: the digits of a number stand for it.
digits_lem : (fuel n : ℕ) → n < fuel → value (digits fuel n) ≡ n
unfolding digits
digits_lem zero n h = omega arith
digits_lem (suc fuel) n h = elim (Bool-cases (ltb n 10)) [
  | inl one ↦ ground (arith, one)
  | inr more ↦ ground (arith, more, digits_lem fuel (n / 10) (ground arith))
]
