-- ===== src/Base/Text.antt =====
-- Strings as lists of bytes: comparison, decimal numbers and `atoi`.
use Prim.Native.Nat.{min}
use mathlib.Core.Path.{◌≡◌, refl, ap, ◌∙◌}
use mathlib.Core.Logic.{◌↔◌}
use mathlib.Core.Bool.{Bool, true, false, ◌&&◌, ◌||◌}
use mathlib.Core.List.{List, [], ◌∷◌, ◌++◌}
use Prim.Native.Nat.{ℕ, zero, suc, ◌+◌, ◌-◌, ◌*◌, ◌/◌, ◌%◌, ◌^◌}
use native.Mathlib.Omega.{arith}
use universe.Base.Tests.{ltb, leb, ◌==◌, if◌then◌else◌}
use universe.Base.Maps.{Key}

-- `a == b` on `string`.
unfoldable pub bytes_eq : List ℕ → List ℕ → Bool
bytes_eq [] [] = true
bytes_eq [] (y ∷ ys) = false
bytes_eq (x ∷ xs) [] = false
bytes_eq (x ∷ xs) (y ∷ ys) = x == y && bytes_eq xs ys

-- `a < b` on `string`: lexicographic.
unfoldable pub bytes_before : List ℕ → List ℕ → Bool
bytes_before xs [] = false
bytes_before [] (y ∷ ys) = true
bytes_before (x ∷ xs) (y ∷ ys) = ltb x y || (x == y && bytes_before xs ys)

bytes_eq_sound : (xs ys : List ℕ) → bytes_eq xs ys ≡ true → xs ≡ ys
unfolding bytes_eq
bytes_eq_sound [] [] e = refl
bytes_eq_sound [] (y ∷ ys) e = cc
bytes_eq_sound (x ∷ xs) [] e = cc
bytes_eq_sound (x ∷ xs) (y ∷ ys) e = ground (arith, bytes_eq_sound xs ys)

pub bytes_eq_refl : (xs : List ℕ) → bytes_eq xs xs ≡ true
unfolding bytes_eq
bytes_eq_refl [] = refl
bytes_eq_refl (x ∷ xs) = ground (arith, bytes_eq_refl xs)

pub bytes_eq_iff : (xs ys : List ℕ) → (bytes_eq xs ys ≡ true) ↔ (xs ≡ ys)
bytes_eq_iff xs ys =
    (bytes_eq_sound xs ys, λ e. ap (bytes_eq xs) (λ i. sym_of e i) ∙ bytes_eq_refl xs)
  where
    sym_of : xs ≡ ys → ys ≡ xs
    sym_of e = cc

instance abbrev pub bytes_key : Key (List ℕ)
bytes_key = record { same = bytes_eq; before = bytes_before; same_iff = bytes_eq_iff }

-- `int` and `long`; `negsuc n` is -(n + 1).
pub data ℤ : Type 0 where
  pos : ℕ → ℤ
  negsuc : ℕ → ℤ

unfoldable pub positive : ℤ → Bool
positive (pos n) = ltb 0 n
positive (negsuc n) = false

abbrev pub pos_part : ℤ → ℕ
pos_part (pos n) = n
pos_part (negsuc n) = 0

-- The decimal digits of a number. Ten divides out a digit a round, so `n` rounds are enough.
unfoldable pub decimal_loop : ℕ → ℕ → List ℕ
decimal_loop zero n = (48 + n % 10) ∷ []
decimal_loop (suc fuel) n =
    let front = decimal_loop fuel (n / 10) in
    if ltb n 10 then (48 + n) ∷ [] else front ++ ((48 + n % 10) ∷ [])

-- `std::to_string`
unfoldable pub decimal : ℕ → List ℕ
unfolding decimal_loop
decimal n = decimal_loop n n

unfoldable pub decimal_int : ℤ → List ℕ
unfolding decimal
decimal_int (pos n) = decimal n
decimal_int (negsuc n) = 45 ∷ decimal (n + 1)

-- `isspace` in the C locale, and `isdigit`.
abbrev pub is_space : ℕ → Bool
is_space c = c == 32 || (leb 9 c && leb c 13)

abbrev pub is_digit : ℕ → Bool
is_digit c = leb 48 c && leb c 57

unfoldable pub digits_value : ℕ → List ℕ → ℕ
digits_value acc [] = acc
digits_value acc (c ∷ cs) = if is_digit c then digits_value (acc * 10 + (c - 48)) cs else acc

unfoldable pub skip_space : List ℕ → List ℕ
skip_space [] = []
skip_space (c ∷ cs) = if is_space c then skip_space cs else c ∷ cs

-- The number behind an optional sign: whether it is negative, and its size.
unfoldable pub signed_digits : List ℕ → Bool × ℕ
unfolding digits_value
signed_digits [] = (false, 0)
signed_digits (c ∷ cs) =
    if c == 45
    then (true, digits_value 0 cs)
    else if c == 43
    then (false, digits_value 0 cs)
    else (false, digits_value 0 (c ∷ cs))

-- `strtol` to base ten, which `atol` is; it stops at the limits of `long`.
unfoldable pub atol : List ℕ → ℤ
unfolding signed_digits skip_space
atol s =
    let (minus, n) = signed_digits (skip_space s) in
    if minus
    then (if n == 0 then pos 0 else negsuc (min n (2 ^ 63) - 1))
    else pos (min n (2 ^ 63 - 1))

-- The low 32 bits of a `long`, as an `int`.
unfoldable pub to_int32 : ℤ → ℤ
to_int32 (pos n) = let w = n % 2 ^ 32 in if ltb w (2 ^ 31) then pos w else negsuc (2 ^ 32 - w - 1)
to_int32 (negsuc n) =
    let w = 2 ^ 32 - 1 - n % 2 ^ 32 in if ltb w (2 ^ 31) then pos w else negsuc (2 ^ 32 - w - 1)

-- `atoi`: glibc's `(int) strtol(s, NULL, 10)`.
unfoldable pub atoi : List ℕ → ℤ
unfolding atol to_int32
atoi s = to_int32 (atol s)
