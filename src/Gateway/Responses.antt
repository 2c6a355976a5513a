-- ===== src/Gateway/Responses.antt =====
-- HttpGateway::parse_response and Http::parse_chunked_body, with Utils::hex2long.
use universe.Base.{
  ℕ, zero, suc, ◌+◌, ◌-◌, ◌*◌, ◌^◌, ltb, leb, ◌==◌, ◌&&◌, ◌||◌, not, Bool, true, false,
  if◌then◌else◌, List, [], ◌∷◌, ◌++◌, Option, none, some, codes,
}
use universe.Base.Text.{ℤ, negsuc, positive, pos_part, atoi, bytes_eq, skip_space, is_digit}
use universe.Reader.{
  R, spent, pure, ◌>>=◌, ◌>>◌, read_size, read_byte, pread_byte, read_until, read_up, fail_if,
  resize,
}
use universe.Reader.Fuel.{with_fuel}
use universe.Http.{HttpResponse, cr, read_crlf}

-- The value of a digit to base 16.
abbrev pub hex_digit : ℕ → Option ℕ
hex_digit c =
    if is_digit c
    then some (c - 48)
    else if leb 65 c && leb c 70
    then some (c - 55)
    else if leb 97 c && leb c 102
    then some (c - 87)
    else none

unfoldable pub hex_digits : ℕ → List ℕ → ℕ
hex_digits acc [] = acc
hex_digits acc (c ∷ cs) = elim (hex_digit c) [ some d ↦ hex_digits (acc * 16 + d) cs | none ↦ acc ]

-- `0x` or `0X` may stand before the digits.
abbrev pub skip_0x : List ℕ → List ℕ
skip_0x (a ∷ b ∷ cs) = if a == 48 && (b == 120 || b == 88) then cs else a ∷ b ∷ cs
skip_0x (a ∷ []) = a ∷ []
skip_0x [] = []

-- `iss >> std::hex >> value` on 64 bits: past them it is the greatest value, behind a minus it wraps, and
-- with no digit it is 0. With nothing but spaces `value` stays unset.
unfoldable pub hex2long : ℕ → List ℕ → ℕ
unfolding hex_digits skip_space
hex2long junk s = elim (skip_space s) [
  | [] ↦ junk
  | c ∷ cs ↦
      let n = hex_digits 0 (skip_0x (if c == 43 || c == 45 then cs else c ∷ cs)) in
      if ltb (2 ^ 64 - 1) n then 2 ^ 64 - 1 else if c == 45 && ltb 0 n then 2 ^ 64 - n else n
]

abbrev pub read_if : Bool → ℕ → R (List ℕ)
read_if true size = read_size size
read_if false size = pure []

-- The loop of `parse_chunked_body`: `body` is what the response has so far.
unfoldable pub chunk_loop : ℕ → ℕ → List ℕ → R (List ℕ)
unfolding hex2long
chunk_loop junk zero body = λ s. spent
chunk_loop junk (suc fuel) body = do
  length_string ← read_until cr [] false
  read_crlf
  bytes ← read_if (ltb 0 (hex2long junk length_string)) (hex2long junk length_string)
  read_crlf
  if hex2long junk length_string == 0 then pure body else chunk_loop junk fuel (body ++ bytes)

-- What the header lines of a response come to.
pub record Headers : Type 0 where
  pub headers : List (List ℕ × List ℕ)
  pub content_length : ℤ
  pub is_chunked : Bool

unfoldable pub read_header : R (List ℕ × List ℕ)
read_header = do
  header_name ← read_until (codes ":") [] true
  next_char ← read_byte
  fail_if (not (next_char == 32))
  header_value ← read_until cr [] false
  read_crlf
  pure (header_name, header_value)

-- The end of the loop's body: a header is put behind the others, `Transfer-Encoding` is not kept.
unfoldable pub put_header : List ℕ → List ℕ → Headers → R Headers
put_header name value h =
    if bytes_eq name (codes "Transfer-Encoding")
    then fail_if (not (bytes_eq value (codes "chunked"))) >> pure (record h { is_chunked = true })
    else pure (record h {
      headers = h.headers ++ ((name, value) ∷ []);
      content_length =
          if bytes_eq name (codes "Content-Length") then atoi value else h.content_length;
    })

unfoldable pub header_loop : ℕ → Headers → R Headers
unfolding read_header put_header
header_loop zero h = λ s. spent
header_loop (suc fuel) h = do
  next_char ← pread_byte
  elim (next_char == 13) [
    | true ↦ pure h
    | false ↦ do (name, value) ← read_header; h' ← put_header name value h; header_loop fuel h'
  ]

unfoldable pub read_body : ℕ → ℕ → ℕ → Headers → R (List ℕ)
unfolding chunk_loop
read_body max_size junk fuel h =
    if positive h.content_length
    then resize max_size (pos_part h.content_length) >> read_size (pos_part h.content_length)
    else if h.is_chunked
    then chunk_loop junk fuel []
    else fail_if true >> pure []

-- `http_version` is "HTTP/1.1" to begin with, and stays so where nothing is read.
abbrev pub version_or : List ℕ → List ℕ
version_or [] = codes "HTTP/1.1"
version_or (c ∷ cs) = c ∷ cs

-- `HttpGateway::parse_response`, with fuel for the header lines and the chunks.
unfoldable pub parse_response_loop : ℕ → ℕ → ℕ → R HttpResponse
unfolding header_loop read_body
parse_response_loop max_size junk fuel = do
  version ← read_until (codes " ") [] false
  blanks ← read_up (codes " ") true
  status ← read_until (codes " ") [] false
  blanks ← read_up (codes " ") true
  reason_phrase ← read_until cr [] false
  read_crlf
  h ← header_loop fuel (record { headers = []; content_length = negsuc 0; is_chunked = false })
  read_crlf
  body ← read_body max_size junk fuel h
  pure (record {
    status_code = atoi status;
    reason_phrase = reason_phrase;
    headers = h.headers;
    body = body;
    http_version = version_or version;
  })

unfoldable pub parse_response : ℕ → ℕ → R HttpResponse
unfolding parse_response_loop with_fuel
parse_response max_size junk = with_fuel (parse_response_loop max_size junk)
