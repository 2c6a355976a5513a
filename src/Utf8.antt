-- ===== src/Utf8.antt =====
-- Codec/Utf8.cpp.
pub mod RoundTrip
mod Tests
use universe.Base.{
  ℕ, zero, suc, ◌+◌, ◌*◌, ◌/◌, ◌%◌, ◌^◌, ◌==◌, ltb, leb, Bool, true, false, if◌then◌else◌, List, [],
  ◌∷◌, ◌++◌, length, take, drop, Option, none, some, get_or,
}

-- The length of the character by its first byte, and 0 for a byte that begins none.
unfoldable pub char_size : ℕ → ℕ
char_size first_byte =
    if first_byte / 128 == 0
    then 1
    else if first_byte / 32 % 4 == 2
    then 2
    else if first_byte / 16 % 8 == 6
    then 3
    else if first_byte / 8 % 16 == 14
    then 4
    else 0

-- The code point of the `length` bytes at the front of `s`.
unfoldable pub codepoint : ℕ → List ℕ → ℕ
codepoint length s =
    if length == 1
    then get_or s 0 0
    else if length == 2
    then get_or s 0 0 % 32 * 2 ^ 6 + get_or s 1 0 % 64
    else if length == 3
    then get_or s 0 0 % 16 * 2 ^ 12 + get_or s 1 0 % 64 * 2 ^ 6 + get_or s 2 0 % 64
    else get_or s 0 0 % 8 * 2 ^ 18
      + get_or s 1 0 % 64 * 2 ^ 12
      + get_or s 2 0 % 64 * 2 ^ 6
      + get_or s 3 0 % 64

-- The length and the code point; a length of 0 leaves the code point alone.
unfoldable pub decode_char_length : List ℕ → ℕ → ℕ × Option ℕ
unfolding char_size codepoint
decode_char_length s offset =
    if leb (length s) offset
    then (0, none)
    else let size = char_size (get_or s offset 0) in
      if size == 0
      then (0, none)
      else if ltb (length s) (offset + size)
      then (0, none)
      else (size, some (codepoint size (drop offset s)))

-- The character and the offset behind it, and none for false.
unfoldable pub decode_char : List ℕ → ℕ → Option (List ℕ × ℕ)
unfolding decode_char_length
decode_char s offset =
    let size = (decode_char_length s offset).0 in
    if size == 0 then none else some (take size (drop offset s), offset + size)

-- Each round takes a byte at least, so the bytes of the string are rounds enough.
unfoldable pub length_loop : ℕ → List ℕ → ℕ → ℕ → ℕ
unfolding decode_char_length
length_loop zero s offset n = n
length_loop (suc fuel) s offset n =
    let char_length = (decode_char_length s offset).0 in
    let rest = length_loop fuel s (offset + char_length) (suc n) in
    if ltb offset (length s) then (if char_length == 0 then n else rest) else n

unfoldable pub length_of : List ℕ → ℕ
unfolding length_loop
length_of s = length_loop (length s) s 0 0

-- The marks of the first byte and of the others lie above the bits that are kept, so `|` adds.
unfoldable pub encode : ℕ → List ℕ
encode unicode =
    if leb unicode 0x7f
    then unicode ∷ []
    else if leb unicode 0x7ff
    then (0xc0 + unicode / 2 ^ 6 % 32) ∷ (0x80 + unicode % 64) ∷ []
    else if leb unicode 0xffff
    then (0xe0 + unicode / 2 ^ 12 % 16) ∷ (0x80 + unicode / 2 ^ 6 % 64) ∷ (0x80 + unicode % 64) ∷ []
    else (0xf0 + unicode / 2 ^ 18 % 8)
      ∷ (0x80 + unicode / 2 ^ 12 % 64)
      ∷ (0x80 + unicode / 2 ^ 6 % 64)
      ∷ (0x80 + unicode % 64)
      ∷ []
