-- ===== src/Base/Decimal.antt =====
-- Decimal numbers read back: `atol` of `to_string`.
use Prim.Native.Nat.{ℕ, zero, suc, ◌+◌, ◌*◌, ◌/◌, ◌%◌, ◌^◌, ◌≤◌, ◌<◌}
use mathlib.Core.Path.{◌≡◌, refl, sym, ap, ◌∙◌}
use mathlib.Core.Logic.{inl, inr}
use mathlib.Core.Bool.{true, false}
use mathlib.Core.List.{List, [], ◌∷◌, ◌++◌, append_assoc, append-nil}
use native.Mathlib.Omega.{arith}
use universe.Base.Tests.{ltb, ◌==◌, Bool-cases}
use universe.Base.Lists.{All, All-append}
use universe.Base.Text.{
  pos, decimal, decimal_loop, digits_value, signed_digits, skip_space, atol, is_digit, is_space,
}

abbrev pub IsDigit : ℕ → Type 0
IsDigit c = (48 ≤ c) × (c < 58)

pub decimal_loop-IsDigit : (fuel n : ℕ) → All IsDigit (decimal_loop fuel n)
unfolding decimal_loop
decimal_loop-IsDigit zero n = (ground arith, tt)
decimal_loop-IsDigit (suc fuel) n = elim (Bool-cases (ltb n 10)) [
  | inl e ↦ rw e (ground arith, tt)
  | inr e ↦ rw e (
      All-append IsDigit (decimal_loop fuel (n / 10)) _ (decimal_loop-IsDigit fuel (n / 10))
        (ground arith, tt))
]

pub decimal-IsDigit : (n : ℕ) → All IsDigit (decimal n)
unfolding decimal
decimal-IsDigit n = decimal_loop-IsDigit n n

digits_value_digit :
    (acc d : ℕ) (rest : List ℕ)
    → d < 10
    → digits_value acc ((48 + d) ∷ rest) ≡ digits_value (acc * 10 + d) rest
unfolding digits_value
digits_value_digit acc d rest h =
    let e : is_digit (48 + d) ≡ true = ground arith in
    rw (e, digits_value) (ap (λ k. digits_value (acc * 10 + k) rest) (omega arith))

tenth : (n fuel : ℕ) → n ≤ suc fuel → n / 10 ≤ fuel
tenth n fuel h = omega arith

digits_value-decimal_loop :
    (fuel n : ℕ) (rest : List ℕ)
    → n ≤ fuel
    → digits_value 0 (decimal_loop fuel n ++ rest) ≡ digits_value n rest
unfolding decimal_loop
digits_value-decimal_loop zero n rest h =
    digits_value_digit 0 (n % 10) rest (omega arith) ∙ ap (λ k. digits_value k rest) (omega arith)
digits_value-decimal_loop (suc fuel) n rest h = elim (Bool-cases (ltb n 10)) [
  | inl e ↦
      rw e
        (digits_value_digit 0 n rest (ground arith) ∙ ap (λ k. digits_value k rest) (omega arith))
  | inr e ↦
      rw (e, append_assoc (decimal_loop fuel (n / 10)) ((48 + n % 10) ∷ []) rest)
        (digits_value-decimal_loop fuel (n / 10) ((48 + n % 10) ∷ rest) (tenth n fuel h)
          ∙ digits_value_digit (n / 10) (n % 10) rest (omega arith)
          ∙ ap (λ k. digits_value k rest) (omega arith))
]

-- A number that starts with a digit has neither space nor sign before it.
signed_digits_lem :
    (c : ℕ) (cs : List ℕ)
    → IsDigit c
    → signed_digits (skip_space (c ∷ cs)) ≡ (false, digits_value 0 (c ∷ cs))
unfolding signed_digits skip_space
signed_digits_lem c cs (low, high) =
    let space : is_space c ≡ false = ground arith in
    let minus : (c == 45) ≡ false = ground arith in
    let plus : (c == 43) ≡ false = ground arith in
    rw (space, skip_space) (rw (minus, signed_digits) (rw (plus, signed_digits) refl))

-- `atol` of `to_string`, for a number that a `long` holds.
pub atol-decimal : (n : ℕ) → n < 2 ^ 63 → atol (decimal n) ≡ pos n
unfolding atol decimal digits_value signed_digits skip_space
atol-decimal n h = rw (value, atol) (ap pos (omega arith))
  where
    behind_spaces :
        (ds : List ℕ)
        → All IsDigit ds
        → digits_value 0 (ds ++ []) ≡ n
        → signed_digits (skip_space ds) ≡ (false, n)
    behind_spaces [] good e = ap (λ k. (false, k)) e
    behind_spaces (d ∷ ds) good e =
        signed_digits_lem d ds good.0
        ∙ ap (λ xs. (false, digits_value 0 (d ∷ xs))) (sym (append-nil ds))
        ∙ ap (λ k. (false, k)) e

    value : signed_digits (skip_space (decimal_loop n n)) ≡ (false, n)
    value =
        behind_spaces (decimal_loop n n) (decimal_loop-IsDigit n n)
          (digits_value-decimal_loop n n [] (omega arith))
