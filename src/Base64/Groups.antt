-- ===== src/Base64/Groups.antt =====
-- Three bytes and their four characters, through the 32 bit accumulators of both loops.
use universe.Base.{
  ℕ, ◌+◌, ◌*◌, ◌/◌, ◌%◌, ◌^◌, ◌<◌, ◌≡◌, ap, ◌∙◌, List, [], ◌∷◌, ◌++◌, append_assoc, arith,
}
use universe.Base64.{letter, shift_in, emit, encode_loop, decode_loop}
use universe.Base64.Digits.{decode_loop-letter}

-- The accumulator after one, two and three bytes, and after as many characters, in its low bits.
one_byte : (A a : ℕ) → a < 256 → shift_in A 8 a % 256 ≡ a
one_byte A a h = omega arith

two_bytes : (e b : ℕ) → b < 256 → shift_in e 8 b % 65536 ≡ e % 256 * 256 + b
two_bytes e b h = omega arith

three_bytes : (e c : ℕ) → c < 256 → shift_in e 8 c % 16777216 ≡ e % 65536 * 256 + c
three_bytes e c h = omega arith

digit_below : (n : ℕ) → n % 64 < 64
digit_below n = omega arith

two_letters :
    (D d1 d2 : ℕ) → d1 < 64 → d2 < 64 → shift_in (shift_in D 6 d1) 6 d2 % 4096 ≡ d1 * 64 + d2
two_letters D d1 d2 h1 h2 = omega arith

first_out :
    (D d1 d2 : ℕ)
    → d1 < 64
    → d2 < 64
    → shift_in (shift_in D 6 d1) 6 d2 / 16 % 256 ≡ d1 * 4 + d2 / 16
first_out D d1 d2 h1 h2 = omega (arith, two_letters D d1 d2 h1 h2)

second_out :
    (D d2 d3 : ℕ)
    → d2 < 64
    → d3 < 64
    → shift_in (shift_in D 6 d2) 6 d3 / 4 % 256 ≡ d2 % 16 * 16 + d3 / 4
second_out D d2 d3 h2 h3 = omega (arith, two_letters D d2 d3 h2 h3)

third_out :
    (D d3 d4 : ℕ) → d3 < 64 → d4 < 64 → shift_in (shift_in D 6 d3) 6 d4 % 256 ≡ d3 % 4 * 64 + d4
third_out D d3 d4 h3 h4 = omega (arith, two_letters D d3 d4 h3 h4)

-- The characters of three bytes, in those bytes.
first_digit : (A a : ℕ) → a < 256 → shift_in A 8 a / 4 % 64 ≡ a / 4
first_digit A a h = omega (arith, one_byte A a h)

second_digit :
    (A a b : ℕ) → a < 256 → b < 256 → shift_in (shift_in A 8 a) 8 b / 16 % 64 ≡ a % 4 * 16 + b / 16
second_digit A a b ha hb = omega (arith, one_byte A a ha, two_bytes (shift_in A 8 a) b hb)

third_digit :
    (e b c : ℕ) → b < 256 → c < 256 → shift_in (shift_in e 8 b) 8 c / 64 % 64 ≡ b % 16 * 4 + c / 64
third_digit e b c hb hc = omega (arith, one_byte e b hb, two_bytes (shift_in e 8 b) c hc)

fourth_digit : (e c : ℕ) → c < 256 → shift_in e 8 c / 1 % 64 ≡ c % 64
fourth_digit e c h = omega (arith, one_byte e c h)

-- The trailing bits.
two_left : (A a : ℕ) → a < 256 → shift_in A 8 a * 16 % 2 ^ 32 % 64 ≡ a % 4 * 16
two_left A a h = omega (arith, one_byte A a h)

four_left : (e b : ℕ) → b < 256 → shift_in e 8 b * 4 % 2 ^ 32 % 64 ≡ b % 16 * 4
four_left e b h = omega (arith, one_byte e b h)

-- Four characters give three bytes, whatever was in the accumulator.
pub decode_loop-four :
    (retval : List ℕ) (D d1 d2 d3 d4 : ℕ) (cs : List ℕ)
    → d1 < 64
    → d2 < 64
    → d3 < 64
    → d4 < 64
    → (D' : ℕ) × (decode_loop retval D 0 (letter d1 ∷ letter d2 ∷ letter d3 ∷ letter d4 ∷ cs)
        ≡ decode_loop
            (retval ++ ((d1 * 4 + d2 / 16) ∷ (d2 % 16 * 16 + d3 / 4) ∷ (d3 % 4 * 64 + d4) ∷ []))
            D'
            0
            cs)
decode_loop-four retval D d1 d2 d3 d4 cs h1 h2 h3 h4 =
    let f1 = shift_in D 6 d1 in
    let f2 = shift_in f1 6 d2 in
    let f3 = shift_in f2 6 d3 in
    let f4 = shift_in f3 6 d4 in
    (
      f4,
      decode_loop-letter retval D 0 d1 _ h1
          ∙ decode_loop-letter retval f1 6 d2 _ h2
          ∙ decode_loop-letter (retval ++ (f2 / 16 % 256 ∷ [])) f2 4 d3 _ h3
          ∙ decode_loop-letter ((retval ++ (f2 / 16 % 256 ∷ [])) ++ (f3 / 4 % 256 ∷ [])) f3 2 d4 _
              h4
          ∙ ap (λ (r : List ℕ). decode_loop r f4 0 cs)
              (bytes (f2 / 16 % 256) (f3 / 4 % 256) (f4 / 1 % 256) (first_out D d1 d2 h1 h2)
                (second_out f1 d2 d3 h2 h3) (omega (arith, third_out f2 d3 d4 h3 h4))),
    )
  where
    bytes :
        (x y z : ℕ)
        → x ≡ d1 * 4 + d2 / 16
        → y ≡ d2 % 16 * 16 + d3 / 4
        → z ≡ d3 % 4 * 64 + d4
        → ((retval ++ (x ∷ [])) ++ (y ∷ [])) ++ (z ∷ [])
          ≡ retval ++ ((d1 * 4 + d2 / 16) ∷ (d2 % 16 * 16 + d3 / 4) ∷ (d3 % 4 * 64 + d4) ∷ [])
    bytes x y z ex ey ez = rw (ex, ey, ez) (simp append_assoc)

pub decode_loop-three :
    (retval : List ℕ) (D d1 d2 d3 : ℕ) (cs : List ℕ)
    → d1 < 64
    → d2 < 64
    → d3 < 64
    → (D' : ℕ) × (decode_loop retval D 0 (letter d1 ∷ letter d2 ∷ letter d3 ∷ cs)
        ≡ decode_loop (retval ++ ((d1 * 4 + d2 / 16) ∷ (d2 % 16 * 16 + d3 / 4) ∷ [])) D' 2 cs)
decode_loop-three retval D d1 d2 d3 cs h1 h2 h3 =
    let f1 = shift_in D 6 d1 in
    let f2 = shift_in f1 6 d2 in
    let f3 = shift_in f2 6 d3 in
    (
      f3,
      decode_loop-letter retval D 0 d1 _ h1
          ∙ decode_loop-letter retval f1 6 d2 _ h2
          ∙ decode_loop-letter (retval ++ (f2 / 16 % 256 ∷ [])) f2 4 d3 _ h3
          ∙ ap (λ (r : List ℕ). decode_loop r f3 2 cs)
              (rw (first_out D d1 d2 h1 h2, second_out f1 d2 d3 h2 h3)
                (append_assoc retval ((d1 * 4 + d2 / 16) ∷ []) _)),
    )

pub decode_loop-two :
    (retval : List ℕ) (D d1 d2 : ℕ) (cs : List ℕ)
    → d1 < 64
    → d2 < 64
    → (D' : ℕ) × (decode_loop retval D 0 (letter d1 ∷ letter d2 ∷ cs)
        ≡ decode_loop (retval ++ ((d1 * 4 + d2 / 16) ∷ [])) D' 4 cs)
decode_loop-two retval D d1 d2 cs h1 h2 =
    let f1 = shift_in D 6 d1 in
    let f2 = shift_in f1 6 d2 in
    (
      f2,
      decode_loop-letter retval D 0 d1 _ h1
          ∙ decode_loop-letter retval f1 6 d2 _ h2
          ∙ ap (λ (x : ℕ). decode_loop (retval ++ (x ∷ [])) f2 4 cs) (first_out D d1 d2 h1 h2),
    )

pub encode_loop-three :
    (A a b c : ℕ) (xs : List ℕ)
    → a < 256
    → b < 256
    → c < 256
    → (A' : ℕ) × (encode_loop A 0 (a ∷ b ∷ c ∷ xs)
        ≡ letter (a / 4)
          ∷ letter (a % 4 * 16 + b / 16)
          ∷ letter (b % 16 * 4 + c / 64)
          ∷ letter (c % 64)
          ∷ encode_loop A' 0 xs)
unfolding encode_loop emit
encode_loop-three A a b c xs ha hb hc =
    let e1 = shift_in A 8 a in
    let e2 = shift_in e1 8 b in
    (
      shift_in e2 8 c,
      λ i.
          letter (first_digit A a ha i)
          ∷ letter (second_digit A a b ha hb i)
          ∷ letter (third_digit e1 b c hb hc i)
          ∷ letter (fourth_digit e2 c hc i)
          ∷ encode_loop (shift_in e2 8 c) 0 xs,
    )

pub encode_loop-two :
    (A a b : ℕ)
    → a < 256
    → b < 256
    → encode_loop A 0 (a ∷ b ∷ [])
      ≡ letter (a / 4) ∷ letter (a % 4 * 16 + b / 16) ∷ letter (b % 16 * 4) ∷ []
unfolding encode_loop emit
encode_loop-two A a b ha hb = λ i.
    letter (first_digit A a ha i)
    ∷ letter (second_digit A a b ha hb i)
    ∷ letter (four_left (shift_in A 8 a) b hb i)
    ∷ []

pub encode_loop-one :
    (A a : ℕ) → a < 256 → encode_loop A 0 (a ∷ []) ≡ letter (a / 4) ∷ letter (a % 4 * 16) ∷ []
unfolding encode_loop emit
encode_loop-one A a ha = λ i. letter (first_digit A a ha i) ∷ letter (two_left A a ha i) ∷ []
