-- ===== src/Base64.antt =====
-- Codec/Base64.cpp.
pub mod Digits
pub mod Groups
pub mod RoundTrip
mod Tests
use universe.Base.{
  ℕ, zero, suc, ◌+◌, ◌*◌, ◌-◌, ◌/◌, ◌%◌, ◌^◌, ◌==◌, ltb, leb, Bool, if◌then◌else◌, List, [], ◌∷◌,
  ◌++◌, length, drop, replicate, codes, get_or, Option, none, some, not, sub_size,
}
use universe.Base.Text.{is_space}

abbrev pub b64_table : List ℕ
b64_table = codes "ABCDEFGHIJKLMNOPQRSTUVWXYZabcdefghijklmnopqrstuvwxyz0123456789+/"

abbrev pub reverse_table : List ℕ
reverse_table =
    replicate 43 64
    ++ (62 ∷ 64 ∷ 64 ∷ 64 ∷ 63 ∷ 52 ∷ 53 ∷ 54 ∷ 55 ∷ 56 ∷ 57 ∷ 58 ∷ 59 ∷ 60 ∷ 61 ∷ 64 ∷ 64 ∷ 64 ∷ 64
        ∷ 64 ∷ 64 ∷ 64 ∷ 0 ∷ 1 ∷ 2 ∷ 3 ∷ 4 ∷ 5 ∷ 6 ∷ 7 ∷ 8 ∷ 9 ∷ 10 ∷ 11 ∷ 12 ∷ 13 ∷ 14 ∷ 15 ∷ 16
        ∷ 17 ∷ 18 ∷ 19 ∷ 20 ∷ 21 ∷ 22 ∷ 23 ∷ 24 ∷ 25 ∷ 64 ∷ 64 ∷ 64 ∷ 64 ∷ 64 ∷ 64 ∷ 26 ∷ 27 ∷ 28
        ∷ 29 ∷ 30 ∷ 31 ∷ 32 ∷ 33 ∷ 34 ∷ 35 ∷ 36 ∷ 37 ∷ 38 ∷ 39 ∷ 40 ∷ 41 ∷ 42 ∷ 43 ∷ 44 ∷ 45 ∷ 46
        ∷ 47 ∷ 48 ∷ 49 ∷ 50 ∷ 51 ∷ 64 ∷ 64 ∷ 64 ∷ 64 ∷ 64 ∷ [])

unfoldable pub letter : ℕ → ℕ
letter d = get_or b64_table d 0

-- The low bits are free after the shift, so `|` is an addition.
abbrev pub shift_in : ℕ → ℕ → ℕ → ℕ
shift_in accumulator bits low = accumulator * 2 ^ bits % 2 ^ 32 + low

-- `while (bits_collected >= 6)`: what is written, and the bits that are left.
unfoldable pub emit : ℕ → ℕ → ℕ → List ℕ × ℕ
emit zero accumulator bits_collected = ([], bits_collected)
emit (suc fuel) accumulator bits_collected =
    let rest = emit fuel accumulator (bits_collected - 6) in
    if leb 6 bits_collected
    then (letter (accumulator / 2 ^ (bits_collected - 6) % 64) ∷ rest.0, rest.1)
    else ([], bits_collected)

-- The characters that are written to `retval`, the trailing bits included. Each round of the inner
-- loop takes six of at most 13 bits.
unfoldable pub encode_loop : ℕ → ℕ → List ℕ → List ℕ
unfolding emit
encode_loop accumulator bits_collected [] =
    if ltb 0 bits_collected
    then letter (accumulator * 2 ^ (6 - bits_collected) % 2 ^ 32 % 64) ∷ []
    else []
encode_loop accumulator bits_collected (b ∷ bs) =
    let accumulator' = shift_in accumulator 8 b in
    let (written, left) = emit 3 accumulator' (bits_collected + 8) in
    written ++ encode_loop accumulator' left bs

-- `((binlen + 2) / 3) * 4`
abbrev pub encoded_size : ℕ → ℕ
encoded_size binlen = (binlen + 2) / 3 * 4

-- The bits that are left when the loop ends.
unfoldable pub bits_left : ℕ → ℕ → List ℕ → ℕ
unfolding emit
bits_left accumulator bits_collected [] = bits_collected
bits_left accumulator bits_collected (b ∷ bs) =
    let accumulator' = shift_in accumulator 8 b in
    bits_left accumulator' (emit 3 accumulator' (bits_collected + 8)).1 bs

-- `retval` is `=` throughout, and its characters are overwritten from the front. None where one of
-- the three `L.assert` fails, which ends the process; `retval.size() - 2` is a `size_t`.
unfoldable pub encode : List ℕ → Option (List ℕ)
unfolding encode_loop bits_left
encode bindata =
    let written = encode_loop 0 0 bindata in
    let size = encoded_size (length bindata) in
    if leb 6 (bits_left 0 0 bindata)
    then none
    else if not (leb (sub_size size 2) (length written))
    then none
    else if not (leb (length written) size)
    then none
    else some (written ++ drop (length written) (replicate size 61))

unfoldable pub decode_loop : List ℕ → ℕ → ℕ → List ℕ → List ℕ
decode_loop retval accumulator bits_collected [] = retval
decode_loop retval accumulator bits_collected (c ∷ cs) =
    let d = get_or reverse_table c 64 in
    let accumulator' = shift_in accumulator 6 d in
    let skipped = decode_loop retval accumulator bits_collected cs in
    let short = decode_loop retval accumulator' (bits_collected + 6) cs in
    let full =
      decode_loop (retval ++ (accumulator' / 2 ^ (bits_collected + 6 - 8) % 256 ∷ [])) accumulator'
        (bits_collected + 6 - 8) cs in
    if is_space c
    then skipped
    else if c == 61
    then skipped
    else if ltb 127 c
    then []
    else if ltb 63 d
    then []
    else if leb 8 (bits_collected + 6)
    then full
    else short

unfoldable pub decode : List ℕ → List ℕ
unfolding decode_loop
decode ascdata = decode_loop [] 0 0 ascdata
