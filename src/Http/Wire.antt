-- ===== src/Http/Wire.antt =====
-- Requests as they stand on the wire, and what `Http::parse_request` makes of them.
use universe.Base.{
  ℕ, zero, suc, ◌<◌, ◌≤◌, ◌≡◌, ◌≢◌, refl, sym, ap, ◌∙◌, ◌==◌, true, false, if◌then◌else◌, List, [],
  ◌∷◌, ◌++◌, append_assoc, append-nil, length, length-append, arith, codes, All, ◌⊎◌, inl, inr,
}
use universe.Base.Maps.{insert}
use universe.Base.Text.{ℤ, negsuc, positive, pos_part, atoi, bytes_eq, bytes_key}
use universe.Reader.{
  ok, read_size, read_byte, pread_byte, read_until, read_up, fail_if, resize, find_char,
}
use universe.Reader.Local.{at, >>=-ok}
use universe.Reader.Scans.{
  Clear, read_until-at, read_up-at, read_size-at, pread_byte-at, fail_if-false, fail_if_no,
  resize_fits,
}
use universe.Reader.Words.{read_byte-at}
use universe.Reader.Fuel.{with_fuel-ok}
use universe.Http.{
  HttpRequest, crlf, cr, header_line, read_crlf, read_header, header_loop, read_body,
  parse_request_loop, parse_request,
}
use universe.Http.Framing.{Steady-parse_request_loop}

-- The header lines in the order of the wire, none left out.
abbrev pub lines_of : List (List ℕ × List ℕ) → List ℕ
lines_of [] = []
lines_of ((name, value) ∷ hs) = header_line name value ++ lines_of hs

-- A request as bytes: request line, header lines, empty line, body.
abbrev pub wire : List ℕ → List ℕ → List ℕ → List (List ℕ × List ℕ) → List ℕ → List ℕ
wire method uri version hs body =
    method ++ (32 ∷ (uri ++ (32 ∷ (version ++ (13 ∷ 10 ∷ (lines_of hs ++ (13 ∷ 10 ∷ body)))))))

-- What the lines come to: a later line of a name replaces an earlier one.
abbrev pub headers_of : List (List ℕ × List ℕ) → List (List ℕ × List ℕ) → List (List ℕ × List ℕ)
headers_of done [] = done
headers_of done ((name, value) ∷ hs) = headers_of (insert name value done) hs

-- The last `Content-Length`, and -1 without one.
abbrev pub declared : ℤ → List (List ℕ × List ℕ) → ℤ
declared n [] = n
declared n ((name, value) ∷ hs) =
    declared (if bytes_eq name (codes "Content-Length") then atoi value else n) hs

-- A line that the parser can take apart and does not refuse.
abbrev pub IsHeader : List ℕ × List ℕ → Type 0
IsHeader (name, value) =
    Clear (codes ":") name
    × Clear cr name
    × Clear cr value
    × (bytes_eq name (codes "Transfer-Encoding") ≡ false)

read_crlf-at :
    (front rest : List ℕ) → read_crlf (at front (13 ∷ 10 ∷ rest)) ≡ ok (tt, at (front ++ crlf) rest)
unfolding read_crlf bytes_eq
read_crlf-at front rest = >>=-ok (read_size 2) _ (read_size-at front crlf rest) ∙ fail_if-false _

read_header-at :
    (front name value rest : List ℕ)
    → IsHeader (name, value)
    → read_header (at front (header_line name value ++ rest))
      ≡ ok ((name, value), at (front ++ header_line name value) rest)
unfolding read_header header_line find_char
read_header-at front name value rest (clear_name, _, clear_value, plain) =
    rw (append_assoc name (58 ∷ 32 ∷ (value ++ crlf)) rest, append_assoc value crlf rest)
      (>>=-ok (read_until (codes ":") [] true) _ (
          read_until-at (codes ":") name 58 (32 ∷ (value ++ (13 ∷ 10 ∷ rest))) true front clear_name
            refl)
        ∙ >>=-ok read_byte _ (read_byte-at 32 _ (value ++ (13 ∷ 10 ∷ rest)))
        ∙ >>=-ok (fail_if false) _ (fail_if-false _)
        ∙ >>=-ok (fail_if (bytes_eq name (codes "Transfer-Encoding"))) _ (fail_if_no _ _ plain)
        ∙ >>=-ok (read_until cr [] false) _
            (read_until-at cr value 13 (10 ∷ rest) false _ clear_value refl)
        ∙ >>=-ok read_crlf _ (read_crlf-at _ rest)
        ∙ ap (λ (t : List ℕ). ok ((name, value), at t rest)) (simp append_assoc))

-- The next byte of a header line is not the `\r` of the empty line.
line_start :
    (name value rest : List ℕ)
    → Clear cr name
    → (c : ℕ) × (cs : List ℕ) × (header_line name value ++ rest ≡ c ∷ cs) × ((c == 13) ≡ false)
unfolding header_line find_char
line_start [] value rest h = (58, _, refl, refl)
line_start (c ∷ cs) value rest h = (c, _, refl, ground (arith, h.0))

header_loop_line :
    (fuel : ℕ) (hs : List (List ℕ × List ℕ)) (n : ℤ) (front name value rest : List ℕ)
    → IsHeader (name, value)
    → header_loop (suc fuel) hs n (at front (header_line name value ++ rest))
      ≡ header_loop fuel
          (insert name value hs)
          (if bytes_eq name (codes "Content-Length") then atoi value else n)
          (at (front ++ header_line name value) rest)
unfolding header_loop
header_loop_line fuel hs n front name value rest h = go (line_start name value rest h.1)
  where
    go :
        (c : ℕ) × (cs : List ℕ) × (header_line name value ++ rest ≡ c ∷ cs) × ((c == 13) ≡ false)
        → header_loop (suc fuel) hs n (at front (header_line name value ++ rest))
          ≡ header_loop fuel
              (insert name value hs)
              (if bytes_eq name (codes "Content-Length") then atoi value else n)
              (at (front ++ header_line name value) rest)
    go (c, cs, e, other) =
        >>=-ok pread_byte _ (
          ap (λ (t : List ℕ). pread_byte (at front t)) e
          ∙ pread_byte-at c front cs
          ∙ ap (λ (t : List ℕ). ok (c, at front t)) (sym e))
        ∙ rw other (>>=-ok read_header _ (read_header-at front name value rest h))

header_loop-at :
    (hs : List (List ℕ × List ℕ)) (fuel : ℕ) (done : List (List ℕ × List ℕ)) (n : ℤ)
    (front rest : List ℕ)
    → length hs < fuel
    → All IsHeader hs
    → header_loop fuel done n (at front (lines_of hs ++ (13 ∷ rest)))
      ≡ ok ((headers_of done hs, declared n hs), at (front ++ lines_of hs) (13 ∷ rest))
header_loop-at hs zero done n front rest h good = absurd (omega arith)
header_loop-at [] (suc fuel) done n front rest h good =
    unfold header_loop in
    >>=-ok pread_byte _ (pread_byte-at 13 front rest)
    ∙ ap (λ (t : List ℕ). ok ((done, n), at t (13 ∷ rest))) (simp append-nil)
header_loop-at ((name, value) ∷ hs) (suc fuel) done n front rest h good =
    rw (append_assoc (header_line name value) (lines_of hs) (13 ∷ rest)) (
      header_loop_line fuel done n front name value (lines_of hs ++ (13 ∷ rest)) good.0
      ∙ header_loop-at hs fuel _ _ (front ++ header_line name value) rest (omega arith) good.1
      ∙ ap
          (λ (t : List ℕ). ok (
            (
              headers_of (insert name value done) hs,
              declared (if bytes_eq name (codes "Content-Length") then atoi value else n) hs,
            ),
            at t (13 ∷ rest),
          ))
          (append_assoc front (header_line name value) (lines_of hs)))

-- The body that the request has by its headers.
abbrev pub HasBody : ℕ → ℤ → List ℕ → Type 0
HasBody max_size n body =
    ((positive n ≡ true) × (length body ≡ pos_part n) × (length body ≤ max_size))
    ⊎ ((positive n ≡ false) × (body ≡ []))

read_body-at :
    (max_size : ℕ) (n : ℤ) (body front rest : List ℕ)
    → HasBody max_size n body
    → read_body max_size n (at front (body ++ rest)) ≡ ok (body, at (front ++ body) rest)
unfolding read_body
read_body-at max_size n body front rest (inl (some, size, fits)) =
    rw (some, read_body)
      (rw (← size) (
        >>=-ok (resize max_size (length body)) _ (resize_fits max_size (length body) _ fits)
        ∙ read_size-at front body rest))
read_body-at max_size n body front rest (inr (none_declared, e)) =
    rw (none_declared, read_body)
      (rw e (ap (λ (t : List ℕ). ok ([], at t rest)) (sym (append-nil front))))

-- A word of the request line, which is not empty, holds no blank and no `\r`.
abbrev pub IsWord : List ℕ → Type 0
IsWord w = (w ≢ []) × Clear (codes " ") w × Clear cr w

blanks-at :
    (front w rest : List ℕ)
    → IsWord w
    → read_up (codes " ") true (at front (32 ∷ (w ++ rest)))
      ≡ ok (32 ∷ [], at (front ++ (32 ∷ [])) (w ++ rest))
unfolding find_char
blanks-at front [] rest h = absurd (h.0 refl)
blanks-at front (c ∷ cs) rest h =
    read_up-at (codes " ") (32 ∷ []) c (cs ++ rest) front (refl, tt) h.1.0

module _ (max_size client : ℕ) (method uri version : List ℕ) (hs : List (List ℕ × List ℕ))
    (body : List ℕ) where
  abbrev pub request : HttpRequest
  request = record {
    client = client;
    method = method;
    uri = uri;
    http_version = version;
    headers = headers_of [] hs;
    body = body;
  }

  parse_request_loop-wire :
      (fuel : ℕ) (front rest : List ℕ)
      → length hs < fuel
      → Clear (codes " ") method
      → IsWord uri
      → IsWord version
      → All IsHeader hs
      → HasBody max_size (declared (negsuc 0) hs) body
      → parse_request_loop max_size client fuel (at front (wire method uri version hs body ++ rest))
        ≡ ok (request, at (front ++ wire method uri version hs body) rest)
  unfolding parse_request_loop find_char
  parse_request_loop-wire fuel front rest enough clear_method word_uri word_version good whole =
      rw split (
        >>=-ok (read_until (codes " ") [] false) _ (
          read_until-at (codes " ") method 32 (uri ++ (32 ∷ (version ++ (13 ∷ 10 ∷ tail)))) false
            front clear_method refl)
        ∙ >>=-ok (read_up (codes " ") true) _
            (blanks-at _ uri (32 ∷ (version ++ (13 ∷ 10 ∷ tail))) word_uri)
        ∙ >>=-ok (read_until (codes " ") [] false) _
            (read_until-at (codes " ") uri 32 (version ++ (13 ∷ 10 ∷ tail)) false _ word_uri.1 refl)
        ∙ >>=-ok (read_up (codes " ") true) _ (blanks-at _ version (13 ∷ 10 ∷ tail) word_version)
        ∙ >>=-ok (read_until cr [] false) _
            (read_until-at cr version 13 (10 ∷ tail) false _ word_version.2 refl)
        ∙ >>=-ok read_crlf _ (read_crlf-at _ tail)
        ∙ >>=-ok (header_loop fuel [] (negsuc 0)) _
            (header_loop-at hs fuel [] (negsuc 0) _ (10 ∷ (body ++ rest)) enough good)
        ∙ >>=-ok read_crlf _ (read_crlf-at _ (body ++ rest))
        ∙ >>=-ok (read_body max_size (declared (negsuc 0) hs)) _
            (read_body-at max_size _ body _ rest whole)
        ∙ ap (λ (t : List ℕ). ok (request, at t rest)) (simp append_assoc))
    where
      tail : List ℕ
      tail = lines_of hs ++ (13 ∷ 10 ∷ (body ++ rest))

      split :
          wire method uri version hs body ++ rest
          ≡ method ++ (32 ∷ (uri ++ (32 ∷ (version ++ (13 ∷ 10 ∷ tail)))))
      split = simp append_assoc

  lines_longer : (gs : List (List ℕ × List ℕ)) → length gs ≤ length (lines_of gs)
  unfolding header_line
  lines_longer [] = omega arith
  lines_longer ((name, value) ∷ gs) = omega (
    arith,
    length-append (header_line name value) (lines_of gs),
    length-append name (58 ∷ 32 ∷ (value ++ crlf)),
    lines_longer gs,
  )

  wire_longer : length hs < length (wire method uri version hs body)
  wire_longer = omega (
    arith,
    lines_longer hs,
    length-append method
        (32 ∷ (uri ++ (32 ∷ (version ++ (13 ∷ 10 ∷ (lines_of hs ++ (13 ∷ 10 ∷ body))))))),
    length-append uri (32 ∷ (version ++ (13 ∷ 10 ∷ (lines_of hs ++ (13 ∷ 10 ∷ body))))),
    length-append version (13 ∷ 10 ∷ (lines_of hs ++ (13 ∷ 10 ∷ body))),
    length-append (lines_of hs) (13 ∷ 10 ∷ body),
  )

  -- A request on the wire is parsed into its parts, and the reader stands behind its body, whatever
  -- follows it there.
  pub parse_request-wire :
      (front rest : List ℕ)
      → Clear (codes " ") method
      → IsWord uri
      → IsWord version
      → All IsHeader hs
      → HasBody max_size (declared (negsuc 0) hs) body
      → parse_request max_size client (at front (wire method uri version hs body ++ rest))
        ≡ ok (request, at (front ++ wire method uri version hs body) rest)
  unfolding parse_request
  parse_request-wire front rest clear_method word_uri word_version good whole =
      with_fuel-ok (parse_request_loop max_size client) (Steady-parse_request_loop max_size client)
        (suc (length hs)) (at front (wire method uri version hs body ++ rest))
        (omega (
          arith,
          wire_longer,
          length-append front (wire method uri version hs body ++ rest),
          length-append (wire method uri version hs body) rest,
        ))
        (parse_request_loop-wire (suc (length hs)) front rest (omega arith) clear_method word_uri
          word_version good whole)
        (λ e. cc)
