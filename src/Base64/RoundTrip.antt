-- ===== src/Base64/RoundTrip.antt =====
-- `Base64::decode` after `Base64::encode`, and the size of the encoding.
use universe.Base.{
  ℕ, ◌+◌, ◌*◌, ◌/◌, ◌%◌, ◌<◌, ◌≤◌, ◌≡◌, sym, ap, ◌∙◌, List, [], ◌∷◌, ◌++◌, length, drop, replicate,
  append_assoc, append-nil, All, arith, zero, suc, ◌-◌, leb, le→leb, sub_size, Option, none, some,
  ◌↔◌, false, refl,
}
use universe.Reader.Words.{IsByte}
use universe.Base64.{
  encode_loop, encode, encoded_size, decode_loop, decode, emit, bits_left, shift_in,
}
use universe.Base64.Digits.{decode_loop-padding}
use universe.Base64.Groups.{
  decode_loop-four, decode_loop-three, decode_loop-two, encode_loop-three, encode_loop-two,
  encode_loop-one,
}

decode_loop-encode_loop :
    (retval : List ℕ) (A D k n : ℕ) (xs : List ℕ)
    → All IsByte xs
    → decode_loop retval D 0 (encode_loop A 0 xs ++ drop k (replicate n 61)) ≡ retval ++ xs
decode_loop-encode_loop retval A D k n [] h =
    unfold encode_loop in decode_loop-padding retval D 0 k n ∙ sym (append-nil retval)
decode_loop-encode_loop retval A D k n (a ∷ []) h =
    let (D', e) =
      decode_loop-two retval D (a / 4) (a % 4 * 16) (drop k (replicate n 61)) (omega (arith, h.0))
        (omega arith) in
    ap (λ (t : List ℕ). decode_loop retval D 0 (t ++ drop k (replicate n 61)))
      (encode_loop-one A a h.0)
    ∙ e
    ∙ decode_loop-padding _ D' 4 k n
    ∙ ap (λ (x : ℕ). retval ++ (x ∷ [])) (omega (arith, h.0))
decode_loop-encode_loop retval A D k n (a ∷ b ∷ []) h =
    let (D', e) =
      decode_loop-three retval D (a / 4) (a % 4 * 16 + b / 16) (b % 16 * 4)
        (drop k (replicate n 61)) (omega (arith, h.0)) (omega (arith, h.1.0)) (omega arith) in
    ap (λ (t : List ℕ). decode_loop retval D 0 (t ++ drop k (replicate n 61)))
      (encode_loop-two A a b h.0 h.1.0)
    ∙ e
    ∙ decode_loop-padding _ D' 2 k n
    ∙ (λ i. retval ++ (byte a (b / 16) h.0 (omega (arith, h.1.0)) i ∷ nibbles b h.1.0 i ∷ []))
  where
    byte : (x y : ℕ) → x < 256 → y < 16 → x / 4 * 4 + (x % 4 * 16 + y) / 16 ≡ x
    byte x y hx hy = omega arith

    nibbles : (x : ℕ) → x < 256 → (a % 4 * 16 + x / 16) % 16 * 16 + x % 16 * 4 / 4 ≡ x
    nibbles x hx = omega arith
decode_loop-encode_loop retval A D k n (a ∷ b ∷ c ∷ xs) h =
    let (A', f) = encode_loop-three A a b c xs h.0 h.1.0 h.1.1.0 in
    let (D', e) =
      decode_loop-four retval D (a / 4) (a % 4 * 16 + b / 16) (b % 16 * 4 + c / 64) (c % 64)
        (encode_loop A' 0 xs ++ drop k (replicate n 61)) (omega (arith, h.0)) (omega (arith, h.1.0))
        (omega (arith, h.1.1.0)) (omega arith) in
    ap (λ (t : List ℕ). decode_loop retval D 0 (t ++ drop k (replicate n 61))) f
    ∙ e
    ∙ decode_loop-encode_loop
        (retval
          ++ ((a / 4 * 4 + (a % 4 * 16 + b / 16) / 16)
              ∷ ((a % 4 * 16 + b / 16) % 16 * 16 + (b % 16 * 4 + c / 64) / 4)
              ∷ ((b % 16 * 4 + c / 64) % 4 * 64 + c % 64)
              ∷ []))
        A' D' k n xs h.1.1.1
    ∙ append_assoc retval _ xs
    ∙ (λ i.
        retval
        ++ (byte a (b / 16) h.0 (omega (arith, h.1.0)) i
            ∷ middle b (c / 64) h.1.0 (omega (arith, h.1.1.0)) i
            ∷ low c h.1.1.0 i
            ∷ xs))
  where
    byte : (x y : ℕ) → x < 256 → y < 16 → x / 4 * 4 + (x % 4 * 16 + y) / 16 ≡ x
    byte x y hx hy = omega arith

    middle :
        (x y : ℕ) → x < 256 → y < 4 → (a % 4 * 16 + x / 16) % 16 * 16 + (x % 16 * 4 + y) / 4 ≡ x
    middle x y hx hy = omega arith

    low : (x : ℕ) → x < 256 → (b % 16 * 4 + x / 64) % 4 * 64 + x % 64 ≡ x
    low x hx = omega arith

-- The encoder writes no character past the end of the string that it laid out, and at most two of
-- its characters are padding.
encode_loop-encoded_size :
    (accumulator : ℕ) (bindata : List ℕ)
    → All IsByte bindata
    → (length (encode_loop accumulator 0 bindata) ≤ encoded_size (length bindata))
      × (encoded_size (length bindata) ≤ length (encode_loop accumulator 0 bindata) + 2)
encode_loop-encoded_size A [] h = unfold encode_loop in (omega arith, omega arith)
encode_loop-encoded_size A (a ∷ []) h =
    let e = ap length (encode_loop-one A a h.0) in (omega (arith, e), omega (arith, e))
encode_loop-encoded_size A (a ∷ b ∷ []) h =
    let e = ap length (encode_loop-two A a b h.0 h.1.0) in (omega (arith, e), omega (arith, e))
encode_loop-encoded_size A (a ∷ b ∷ c ∷ xs) h =
    let (A', f) = encode_loop-three A a b c xs h.0 h.1.0 h.1.1.0 in
    let e = ap length f in
    let k = encode_loop-encoded_size A' xs h.1.1.1 in (omega (arith, e, k.0), omega (arith, e, k.1))

emit_left : (fuel acc n : ℕ) → n < 6 * fuel + 6 → (emit fuel acc n).1 < 6
unfolding emit
emit_left zero acc n h = omega arith
emit_left (suc fuel) acc n h = ground (arith, emit_left fuel acc (n - 6))

bits_left-lt : (bs : List ℕ) (acc n : ℕ) → n < 6 → bits_left acc n bs < 6
unfolding bits_left
bits_left-lt [] acc n h = h
bits_left-lt (b ∷ bs) acc n h =
    bits_left-lt bs _ _ (emit_left 3 (shift_in acc 8 b) (n + 8) (omega arith))

-- A string that is not empty passes the three assertions.
encode-some :
    (b : ℕ) (bs : List ℕ)
    → All IsByte (b ∷ bs)
    → encode (b ∷ bs)
      ≡ some (
          encode_loop 0 0 (b ∷ bs)
          ++ drop
              (length (encode_loop 0 0 (b ∷ bs)))
              (replicate (encoded_size (length (b ∷ bs))) 61))
unfolding encode
encode-some b bs h =
    let few = bits_left-lt (b ∷ bs) 0 0 (omega arith) in
    let k = encode_loop-encoded_size 0 (b ∷ bs) h in
    let lower : sub_size (encoded_size (length (b ∷ bs))) 2 ≤ length (encode_loop 0 0 (b ∷ bs)) =
      ground (arith, k.1) in
    let upper : length (encode_loop 0 0 (b ∷ bs)) ≤ encoded_size (length (b ∷ bs)) = k.0 in
    rw (few_bits _ few, le→leb _ _ lower, le→leb _ _ upper, encode) refl
  where
    few_bits : (n : ℕ) → n < 6 → leb 6 n ≡ false
    few_bits n e = ground arith

-- What is encoded is decoded again: every string of bytes that is not empty has an encoding, and
-- that decodes to the string.
pub decode-encode :
    (b : ℕ) (bs : List ℕ)
    → All IsByte (b ∷ bs)
    → (ascdata : List ℕ) × (encode (b ∷ bs) ≡ some ascdata) × (decode ascdata ≡ b ∷ bs)
unfolding decode
decode-encode b bs h = (
  _,
  encode-some b bs h,
  decode_loop-encode_loop [] 0 0 (length (encode_loop 0 0 (b ∷ bs)))
      (encoded_size (length (b ∷ bs))) (b ∷ bs) h,
)

-- The encoder ends the process for the empty string, and for no other string of bytes: there, the
-- size less two wraps around in the assertion before the last.
pub encode-none : (bindata : List ℕ) → All IsByte bindata → (encode bindata ≡ none) ↔ (bindata ≡ [])
unfolding encode encode_loop bits_left
encode-none [] h = (λ e. refl, λ e. refl)
encode-none (b ∷ bs) h = (λ e. absurd (gives_some _ _ (encode-some b bs h) e), λ e. cc)
  where
    gives_some : (m : Option (List ℕ)) (asc : List ℕ) → m ≡ some asc → m ≡ none → ⊥
    gives_some m asc e f = cc
