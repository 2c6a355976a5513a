-- ===== src/Utf8/Tests.antt =====
-- Characters of one to four bytes.
use universe.Base.{◌≡◌, refl, [], ◌∷◌, ◌++◌, length, some, ltb→lt}
use universe.Utf8.{decode_char_length, length_of, encode}
use universe.Utf8.RoundTrip.{text_of, decode_char_length-encode, length_of-text_of}

-- The euro sign.
encode_euro : encode 0x20ac ≡ 0xe2 ∷ 0x82 ∷ 0xac ∷ []
unfolding encode
encode_euro = refl

decode_char_length-encode_example :
    decode_char_length (65 ∷ (encode 0x20ac ++ (66 ∷ []))) 1 ≡ (length (encode 0x20ac), some 0x20ac)
decode_char_length-encode_example =
    decode_char_length-encode (65 ∷ []) 0x20ac (66 ∷ []) (ltb→lt _ _ refl)

length_of-text_of_example : length_of (text_of (65 ∷ 0x20ac ∷ 0x1f600 ∷ [])) ≡ 3
length_of-text_of_example =
    length_of-text_of (65 ∷ 0x20ac ∷ 0x1f600 ∷ [])
      (ltb→lt _ _ refl, (ltb→lt _ _ refl, (ltb→lt _ _ refl, tt)))
