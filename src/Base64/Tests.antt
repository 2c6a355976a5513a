-- ===== src/Base64/Tests.antt =====
-- Encodings of concrete strings.
use universe.Base.{ℕ, ◌≡◌, refl, List, [], ◌∷◌, All, codes, ltb→lt, none, some, ◌↔◌}
use universe.Reader.Words.{IsByte}
use universe.Base64.{letter, encode_loop, encode, emit, bits_left, decode}
use universe.Base64.RoundTrip.{decode-encode, encode-none}

encode_word : encode (codes "hello") ≡ some (codes "aGVsbG8=")
unfolding encode letter encode_loop emit bits_left
encode_word = refl

abbrev some_bytes : List ℕ
some_bytes = 255 ∷ 0 ∷ 171 ∷ 16 ∷ []

some_bytes-IsByte : All IsByte some_bytes
some_bytes-IsByte = (ltb→lt _ _ refl, (ltb→lt _ _ refl, (ltb→lt _ _ refl, (ltb→lt _ _ refl, tt))))

decode-encode_example :
    (ascdata : List ℕ) × (encode some_bytes ≡ some ascdata) × (decode ascdata ≡ some_bytes)
decode-encode_example = decode-encode 255 (0 ∷ 171 ∷ 16 ∷ []) some_bytes-IsByte

encode-none_example : (encode some_bytes ≡ none) ↔ (some_bytes ≡ [])
encode-none_example = encode-none some_bytes some_bytes-IsByte
