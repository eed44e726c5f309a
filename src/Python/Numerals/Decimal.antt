-- ===== src/Python/Numerals/Decimal.antt =====
-- `str(n)` of Python on natural numbers.
use post_quantum_iot_auth.Prelude.{
  ℕ, zero, suc, ◌+◌, ◌/◌, ◌%◌, ◌≤◌, [], ◌∷◌, arith, ltb, Text, All, Bool-cases, inl, inr,
}
use post_quantum_iot_auth.Python.Text.{decimal, decimal_loop}

-- A text of digits.
abbrev pub IsDigits : Text → Type 0
IsDigits t = All (λ c. (48 ≤ c) × (c ≤ 57)) t

decimal_loop-IsDigits :
    (fuel n : ℕ) (acc : Text) → IsDigits acc → IsDigits (decimal_loop fuel n acc)
unfolding decimal_loop
decimal_loop-IsDigits zero n acc a = a
decimal_loop-IsDigits (suc fuel) n acc a =
    let rest =
      decimal_loop-IsDigits fuel (n / 10) ((48 + n % 10) ∷ acc) ((omega arith, omega arith), a) in
    elim (Bool-cases (ltb n 10)) [
      | inl small ↦ rw small ((omega arith, ground arith), a)
      | inr large ↦ rw large rest
    ]

-- `str(n)` consists of digits.
pub decimal-IsDigits : (n : ℕ) → IsDigits (decimal n)
unfolding decimal
decimal-IsDigits n = decimal_loop-IsDigits (suc n) n [] tt
