-- ===== src/Base64/Digits.antt =====
-- One character of the encoding, and what the decoder makes of it.
use universe.Base.{
  ℕ, zero, suc, ◌+◌, ◌-◌, ◌/◌, ◌%◌, ◌^◌, ◌<◌, ◌≡◌, refl, ◌==◌, ==_iff, ltb, leb, Bool, true, false,
  not, if◌then◌else◌, List, [], ◌∷◌, ◌++◌, drop, replicate, get_or, arith,
}
use universe.Base.Text.{is_space}
use universe.Base.Bits.{holds_below, holds_below_sound}
use universe.Base64.{reverse_table, letter, shift_in, decode_loop}

-- What the decoder tests of a character, at all 64.
letter-is_space : holds_below 64 (λ d. not (is_space (letter d))) ≡ true
unfolding holds_below letter
letter-is_space = refl

letter-no_padding : holds_below 64 (λ d. not (letter d == 61)) ≡ true
unfolding holds_below letter
letter-no_padding = refl

letter-small : holds_below 64 (λ d. not (ltb 127 (letter d))) ≡ true
unfolding holds_below letter
letter-small = refl

letter-reverse : holds_below 64 (λ d. get_or reverse_table (letter d) 64 == d) ≡ true
unfolding holds_below letter
letter-reverse = refl

refuted : (b : Bool) → not b ≡ true → b ≡ false
refuted true h = cc
refuted false h = refl

pub decode_loop-letter :
    (retval : List ℕ) (accumulator bits d : ℕ) (cs : List ℕ)
    → d < 64
    → decode_loop retval accumulator bits (letter d ∷ cs) ≡ (
        if leb 8 (bits + 6)
        then decode_loop
            (retval ++ (shift_in accumulator 6 d / 2 ^ (bits + 6 - 8) % 256 ∷ []))
            (shift_in accumulator 6 d)
            (bits + 6 - 8)
            cs
        else decode_loop retval (shift_in accumulator 6 d) (bits + 6) cs)
unfolding decode_loop
decode_loop-letter retval accumulator bits d cs h =
    rw
      (
        refuted _ (holds_below_sound 64 (λ x. not (is_space (letter x))) letter-is_space d h),
        refuted _ (holds_below_sound 64 (λ x. not (letter x == 61)) letter-no_padding d h),
        refuted _ (holds_below_sound 64 (λ x. not (ltb 127 (letter x))) letter-small d h),
        (==_iff _ d).0 (
            holds_below_sound 64 (λ x. get_or reverse_table (letter x) 64 == x) letter-reverse d h),
        big d h,
      )
      refl
  where
    big : (d : ℕ) → d < 64 → ltb 63 d ≡ false
    big d h = ground arith

-- The decoder skips the padding.
pub decode_loop-padding :
    (retval : List ℕ) (accumulator bits k n : ℕ)
    → decode_loop retval accumulator bits (drop k (replicate n 61)) ≡ retval
unfolding decode_loop
decode_loop-padding retval accumulator bits zero zero = refl
decode_loop-padding retval accumulator bits (suc k) zero = refl
decode_loop-padding retval accumulator bits zero (suc n) =
    decode_loop-padding retval accumulator bits zero n
decode_loop-padding retval accumulator bits (suc k) (suc n) =
    decode_loop-padding retval accumulator bits k n
