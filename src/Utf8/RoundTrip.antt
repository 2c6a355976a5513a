-- ===== src/Utf8/RoundTrip.antt =====
-- Characters that `Utf8::encode` wrote are read back one by one.
use universe.Base.{
  ℕ, zero, suc, ◌+◌, ◌*◌, ◌/◌, ◌%◌, ◌^◌, ◌<◌, ◌≤◌, ◌≡◌, refl, sym, ap, ◌∙◌, ◌==◌, ==_iff, ltb, leb,
  true, false, inl, inr, Bool-cases, List, [], ◌∷◌, ◌++◌, length, length-append, take, drop,
  append_assoc, append-nil, All, some, get_or, arith,
}
use universe.Base.Bits.{holds_below, holds_below_sound}
use universe.Utf8.{char_size, codepoint, decode_char_length, length_loop, length_of, encode}

-- The first bytes.
sizes :
    (holds_below 128 (λ x. char_size x == 1) ≡ true)
    × (holds_below 32 (λ x. char_size (0xc0 + x) == 2) ≡ true)
    × (holds_below 16 (λ x. char_size (0xe0 + x) == 3) ≡ true)
    × (holds_below 8 (λ x. char_size (0xf0 + x) == 4) ≡ true)
unfolding char_size holds_below
sizes = (refl, refl, refl, refl)

size_one : (x : ℕ) → x < 128 → char_size x ≡ 1
size_one x h = (==_iff _ 1).0 (holds_below_sound 128 (λ y. char_size y == 1) sizes.0 x h)

size_two : (x : ℕ) → x < 32 → char_size (0xc0 + x) ≡ 2
size_two x h = (==_iff _ 2).0 (holds_below_sound 32 (λ y. char_size (0xc0 + y) == 2) sizes.1 x h)

size_three : (x : ℕ) → x < 16 → char_size (0xe0 + x) ≡ 3
size_three x h = (==_iff _ 3).0 (holds_below_sound 16 (λ y. char_size (0xe0 + y) == 3) sizes.2 x h)

size_four : (x : ℕ) → x < 8 → char_size (0xf0 + x) ≡ 4
size_four x h = (==_iff _ 4).0 (holds_below_sound 8 (λ y. char_size (0xf0 + y) == 4) sizes.3 x h)

value_two : (u : ℕ) → u < 2048 → (0xc0 + u / 2 ^ 6 % 32) % 32 * 2 ^ 6 + (0x80 + u % 64) % 64 ≡ u
value_two u h = omega arith

value_three :
    (u : ℕ)
    → u < 65536
    → (0xe0 + u / 2 ^ 12 % 16) % 16 * 2 ^ 12
        + (0x80 + u / 2 ^ 6 % 64) % 64 * 2 ^ 6
        + (0x80 + u % 64) % 64
      ≡ u
value_three u h = omega arith

value_four :
    (u : ℕ)
    → u < 2 ^ 21
    → (0xf0 + u / 2 ^ 18 % 8) % 8 * 2 ^ 18
        + (0x80 + u / 2 ^ 12 % 64) % 64 * 2 ^ 12
        + (0x80 + u / 2 ^ 6 % 64) % 64 * 2 ^ 6
        + (0x80 + u % 64) % 64
      ≡ u
value_four u h = omega arith

-- At the front of a string.
front_of :
    (unicode : ℕ) (rest : List ℕ)
    → unicode < 2 ^ 21
    → (char_size (get_or (encode unicode ++ rest) 0 0) ≡ length (encode unicode))
      × (codepoint (length (encode unicode)) (encode unicode ++ rest) ≡ unicode)
      × (0 < length (encode unicode))
unfolding codepoint encode
front_of u rest h = elim (Bool-cases (leb u 0x7f)) [
  | inl one ↦ rw one (size_one u (ground arith), refl, omega arith)
  | inr more ↦ elim (Bool-cases (leb u 0x7ff)) [
    | inl two ↦
        rw (more, two)
          (size_two (u / 2 ^ 6 % 32) (omega arith), value_two u (ground arith), omega arith)
    | inr more' ↦ elim (Bool-cases (leb u 0xffff)) [
      | inl three ↦
          rw (more, more', three)
            (size_three (u / 2 ^ 12 % 16) (omega arith), value_three u (ground arith), omega arith)
      | inr four ↦
          rw (more, more', four)
            (size_four (u / 2 ^ 18 % 8) (omega arith), value_four u h, omega arith)
    ]
  ]
]

drop_front : (xs ys : List ℕ) → drop (length xs) (xs ++ ys) ≡ ys
drop_front [] ys = refl
drop_front (x ∷ xs) ys = drop_front xs ys

take_front : (xs ys : List ℕ) → take (length xs) (xs ++ ys) ≡ xs
take_front [] ys = refl
take_front (x ∷ xs) ys = ap (λ (t : List ℕ). x ∷ t) (take_front xs ys)

get_or_front : (xs ys : List ℕ) → get_or (xs ++ ys) (length xs) 0 ≡ get_or ys 0 0
get_or_front [] ys = refl
get_or_front (x ∷ xs) ys = get_or_front xs ys

decode_char_length-whole :
    (s : List ℕ) (offset n u : ℕ)
    → 0 < n
    → offset + n ≤ length s
    → char_size (get_or s offset 0) ≡ n
    → codepoint n (drop offset s) ≡ u
    → decode_char_length s offset ≡ (n, some u)
unfolding decode_char_length
decode_char_length-whole s offset n u pos within size value =
    rw (inside (length s) within, size, nonzero n pos, enough (length s) within, value) refl
  where
    inside : (k : ℕ) → offset + n ≤ k → leb k offset ≡ false
    inside k h = ground arith

    enough : (k : ℕ) → offset + n ≤ k → ltb k (offset + n) ≡ false
    enough k h = ground arith

    nonzero : (m : ℕ) → 0 < m → (m == 0) ≡ false
    nonzero m h = ground arith

-- A character that the encoder wrote is decoded to its code point, which has at most 21 bits,
-- wherever it stands in a string.
pub decode_char_length-encode :
    (front : List ℕ) (unicode : ℕ) (rest : List ℕ)
    → unicode < 2 ^ 21
    → decode_char_length (front ++ (encode unicode ++ rest)) (length front)
      ≡ (length (encode unicode), some unicode)
decode_char_length-encode front unicode rest h =
    let (size, value, pos) = front_of unicode rest h in
    decode_char_length-whole (front ++ (encode unicode ++ rest)) (length front)
      (length (encode unicode)) unicode pos
      (omega
        (arith, length-append front (encode unicode ++ rest), length-append (encode unicode) rest))
      (ap char_size (get_or_front front (encode unicode ++ rest)) ∙ size)
      (ap (codepoint (length (encode unicode))) (drop_front front (encode unicode ++ rest)) ∙ value)

-- The characters of some code points.
abbrev pub text_of : List ℕ → List ℕ
text_of [] = []
text_of (u ∷ us) = encode u ++ text_of us

abbrev pub Encodable : ℕ → Type 0
Encodable u = u < 2 ^ 21

length_loop-text_of :
    (fuel : ℕ) (us front : List ℕ) (n : ℕ)
    → All Encodable us
    → length (text_of us) ≤ fuel
    → length_loop fuel (front ++ text_of us) (length front) n ≡ n + length us
unfolding length_loop
length_loop-text_of zero [] front n h enough = omega arith
length_loop-text_of zero (u ∷ us) front n h enough =
    let (size, value, pos) = front_of u [] h.0 in
    absurd (omega (arith, length-append (encode u) (text_of us)))
length_loop-text_of (suc fuel) [] front n h enough =
    rw (append-nil front, past (length front)) (omega arith)
  where
    past : (k : ℕ) → ltb k k ≡ false
    past k = ground arith
length_loop-text_of (suc fuel) (u ∷ us) front n h enough =
    let (size, value, pos) = front_of u [] h.0 in
    rw
      (
        decode_char_length-encode front u (text_of us) h.0,
        nonzero (length (encode u)) pos,
        before (length (front ++ (encode u ++ text_of us))) (
            omega (
              arith,
              length-append front (encode u ++ text_of us),
              length-append (encode u) (text_of us),
            )),
      )
      (ap (λ (t : List ℕ). length_loop fuel t (length front + length (encode u)) (suc n))
          (sym (append_assoc front (encode u) (text_of us)))
        ∙ ap (λ (k : ℕ). length_loop fuel ((front ++ encode u) ++ text_of us) k (suc n))
            (sym (length-append front (encode u)))
        ∙ length_loop-text_of fuel us (front ++ encode u) (suc n) h.1
            (omega (arith, length-append (encode u) (text_of us)))
        ∙ omega arith)
  where
    before : (k : ℕ) → length front < k → ltb (length front) k ≡ true
    before k e = ground arith

    nonzero : (m : ℕ) → 0 < m → (m == 0) ≡ false
    nonzero m e = ground arith

-- `Utf8::length` counts the characters of a text: as many as the code points that were encoded.
pub length_of-text_of : (us : List ℕ) → All Encodable us → length_of (text_of us) ≡ length us
unfolding length_of
length_of-text_of us h =
    length_loop-text_of (length (text_of us)) us [] 0 h (omega arith) ∙ omega arith
