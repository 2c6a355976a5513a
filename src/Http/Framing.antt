-- ===== src/Http/Framing.antt =====
-- The request parser fits the message loop: it reads on from where it stands, takes a byte at least,
-- and its header loop always ends.
use universe.Base.{
  ℕ, zero, suc, refl, ◌==◌, Bool, true, false, not, if◌then◌else◌, List, [], arith, codes,
}
use universe.Base.Maps.{insert}
use universe.Base.Text.{ℤ, negsuc, positive, pos_part, atoi, bytes_eq, bytes_key}
use universe.Reader.{
  R, pure, ◌>>=◌, ◌>>◌, read_size, read_byte, pread_byte, read_until, read_up, fail_if, resize,
}
use universe.Reader.Local.{Local, starves, Local-pure, Local-bind, Local-then, Local-fail_if}
use universe.Reader.Scans.{
  Local-read_size, Local-read_byte, Local-pread_byte, Local-read_until, Local-read_up, Local-resize,
}
use universe.Reader.Fuel.{Steady, Steady-refl, Steady-bind, Steady-head, IsFraming-with_fuel}
use universe.Session.Framing.{
  IsFraming, Grows, Ends, Grows-bind, Grows-bind_after, Ends-bind, Ends-pure, Grows-read_size,
  Grows-read_byte, Ends-read_size, Ends-read_byte, Ends-pread_byte, Ends-read_until, Ends-read_up,
  Ends-fail_if, Ends-resize,
}
use universe.Session.Bounded.{
  EndsBelow, EndsBelow-zero, EndsBelow-Ends, EndsBelow-bind, EndsBelow-bind_after,
}
use universe.Http.{
  HttpRequest, cr, read_crlf, read_header, header_loop, read_body, parse_request_loop,
  parse_request,
}

pub Local-read_crlf : Local read_crlf
unfolding read_crlf
Local-read_crlf = Local-bind (read_size 2) _ (Local-read_size 2) (λ bytes. Local-fail_if _)

pub Ends-read_crlf : Ends read_crlf
unfolding read_crlf
Ends-read_crlf =
    Ends-bind (read_size 2) _ (Ends-read_size 2) (Local-read_size 2) (λ bytes. Ends-fail_if _)

Grows-read_crlf : Grows read_crlf
unfolding read_crlf
Grows-read_crlf =
    Grows-bind (read_size 2) _ (Grows-read_size 2 (omega arith)) (Local-read_size 2)
      (λ bytes. Local-fail_if _)

-- A header line after its name, and after the blank.
abbrev after_blank : List ℕ → R (List ℕ × List ℕ)
after_blank name = do
  fail_if (bytes_eq name (codes "Transfer-Encoding"))
  header_value ← read_until cr [] false
  read_crlf
  pure (name, header_value)

abbrev after_name : List ℕ → R (List ℕ × List ℕ)
after_name name = do next_char ← read_byte; fail_if (not (next_char == 32)); after_blank name

Local-after_blank : (name : List ℕ) → Local (after_blank name)
Local-after_blank name = Local-then (fail_if _) _ (Local-fail_if _) (
    Local-bind (read_until cr [] false) _ (Local-read_until cr false)
      (λ value. Local-then read_crlf _ Local-read_crlf (Local-pure _)))

Local-after_name : (name : List ℕ) → Local (after_name name)
Local-after_name name =
    Local-bind read_byte _ Local-read_byte
      (λ c. Local-then (fail_if _) _ (Local-fail_if _) (Local-after_blank name))

pub Local-read_header : Local read_header
unfolding read_header
Local-read_header =
    Local-bind (read_until (codes ":") [] true) _ (Local-read_until (codes ":") true)
      Local-after_name

Grows-read_header : Grows read_header
unfolding read_header
Grows-read_header =
    Grows-bind_after (read_until (codes ":") [] true) _ (Local-read_until (codes ":") true) (λ name.
      Grows-bind read_byte _ Grows-read_byte Local-read_byte
        (λ c. Local-then (fail_if _) _ (Local-fail_if _) (Local-after_blank name)))

Ends-read_header : Ends read_header
unfolding read_header
Ends-read_header =
    Ends-bind (read_until (codes ":") [] true) _ (Ends-read_until (codes ":") [] true)
      (Local-read_until (codes ":") true)
      (λ name. Ends-bind read_byte _ Ends-read_byte Local-read_byte (λ c.
        Ends-bind (fail_if _) _ (Ends-fail_if _) (Local-fail_if _) (λ _.
          Ends-bind (fail_if _) _ (Ends-fail_if _) (Local-fail_if _) (λ _.
            Ends-bind (read_until cr [] false) _ (Ends-read_until cr [] false)
              (Local-read_until cr false)
              (λ value. Ends-bind read_crlf _ Ends-read_crlf Local-read_crlf (λ _. Ends-pure _))))))

-- The loop after it has looked at the next byte, for `rest` what it does behind a header line.
abbrev branch :
    (List (List ℕ × List ℕ) → ℤ → R (List (List ℕ × List ℕ) × ℤ))
    → List (List ℕ × List ℕ)
    → ℤ
    → Bool
    → R (List (List ℕ × List ℕ) × ℤ)
branch rest headers n b = elim b [
  | true ↦ pure (headers, n)
  | false ↦ do
    (name, value) ← read_header
    rest (insert name value headers)
        (if bytes_eq name (codes "Content-Length") then atoi value else n)
]

Local-header_loop :
    (fuel : ℕ) (headers : List (List ℕ × List ℕ)) (n : ℤ) → Local (header_loop fuel headers n)
unfolding header_loop
Local-header_loop zero headers n = unfold Local in λ xs. starves (λ front more. refl)
Local-header_loop (suc fuel) headers n =
    Local-bind pread_byte _ Local-pread_byte (λ c.
      by_test (c == 13) (λ name value m. Local-header_loop fuel (insert name value headers) m))
  where
    by_test :
        (b : Bool)
        → ((name value : List ℕ) (m : ℤ) → Local (header_loop fuel (insert name value headers) m))
        → Local (branch (header_loop fuel) headers n b)
    by_test true ih = Local-pure _
    by_test false ih = Local-bind read_header _ Local-read_header (λ nv. ih nv.0 nv.1 _)

Steady-header_loop :
    (fuel : ℕ) (headers : List (List ℕ × List ℕ)) (n : ℤ)
    → Steady (header_loop fuel headers n) (header_loop (suc fuel) headers n)
unfolding header_loop
Steady-header_loop zero headers n = unfold Steady in λ r h. absurd (h refl)
Steady-header_loop (suc fuel) headers n =
    Steady-bind pread_byte _ _ (λ c.
      by_test (c == 13) (λ name value m. Steady-header_loop fuel (insert name value headers) m))
  where
    by_test :
        (b : Bool)
        → ((name value : List ℕ) (m : ℤ)
            → Steady
                (header_loop fuel (insert name value headers) m)
                (header_loop (suc fuel) (insert name value headers) m))
        → Steady
            (branch (header_loop fuel) headers n b)
            (branch (header_loop (suc fuel)) headers n b)
    by_test true ih = Steady-refl _
    by_test false ih = Steady-bind read_header _ _ (λ nv. ih nv.0 nv.1 _)

-- Each header line takes a byte at least.
EndsBelow-header_loop :
    (fuel : ℕ) (headers : List (List ℕ × List ℕ)) (n : ℤ)
    → EndsBelow fuel (header_loop fuel headers n)
unfolding header_loop
EndsBelow-header_loop zero headers n = EndsBelow-zero _
EndsBelow-header_loop (suc fuel) headers n =
    EndsBelow-bind pread_byte _ Local-pread_byte (suc fuel)
      (EndsBelow-Ends (suc fuel) pread_byte Ends-pread_byte)
      (λ c.
        by_test (c == 13)
          (λ name value m. EndsBelow-header_loop fuel (insert name value headers) m))
  where
    by_test :
        (b : Bool)
        → ((name value : List ℕ) (m : ℤ)
            → EndsBelow fuel (header_loop fuel (insert name value headers) m))
        → EndsBelow (suc fuel) (branch (header_loop fuel) headers n b)
    by_test true ih = EndsBelow-Ends (suc fuel) _ (Ends-pure _)
    by_test false ih =
        EndsBelow-bind_after read_header _ Local-read_header fuel Grows-read_header
          (EndsBelow-Ends (suc fuel) read_header Ends-read_header) (λ nv. ih nv.0 nv.1 _)

Local-read_body : (max_size : ℕ) (n : ℤ) → Local (read_body max_size n)
unfolding read_body
Local-read_body max_size n = go (positive n)
  where
    go :
        (b : Bool)
        → Local {A = List ℕ} (elim b [
          | true ↦ resize max_size (pos_part n) >> read_size (pos_part n)
          | false ↦ pure []
        ])
    go true = Local-then (resize _ _) _ (Local-resize _ _) (Local-read_size _)
    go false = Local-pure _

Ends-read_body : (max_size : ℕ) (n : ℤ) → Ends (read_body max_size n)
unfolding read_body
Ends-read_body max_size n = go (positive n)
  where
    go :
        (b : Bool)
        → Ends {A = List ℕ} (elim b [
          | true ↦ resize max_size (pos_part n) >> read_size (pos_part n)
          | false ↦ pure []
        ])
    go true = Ends-bind (resize _ _) _ (Ends-resize _ _) (Local-resize _ _) (λ _. Ends-read_size _)
    go false = Ends-pure _

-- The request after the request line, and after the headers.
abbrev after_headers : ℕ → ℕ → List ℕ → List ℕ → List ℕ → List (List ℕ × List ℕ) × ℤ → R HttpRequest
after_headers max_size client method uri version (headers, n) = do
  read_crlf
  body ← read_body max_size n
  pure (record {
    client = client;
    method = method;
    uri = uri;
    http_version = version;
    headers = headers;
    body = body;
  })

abbrev after_line : ℕ → ℕ → ℕ → List ℕ → List ℕ → List ℕ → R HttpRequest
after_line max_size client fuel method uri version = do
  read_crlf
  hn ← header_loop fuel [] (negsuc 0)
  after_headers max_size client method uri version hn

module _ (max_size client : ℕ) where
  Local-after_headers :
      (m u v : List ℕ) (hn : List (List ℕ × List ℕ) × ℤ)
      → Local (after_headers max_size client m u v hn)
  Local-after_headers m u v (hs, n) =
      Local-then read_crlf _ Local-read_crlf
        (Local-bind (read_body max_size n) _ (Local-read_body max_size n) (λ body. Local-pure _))

  Local-after_line : (fuel : ℕ) (m u v : List ℕ) → Local (after_line max_size client fuel m u v)
  Local-after_line fuel m u v = Local-then read_crlf _ Local-read_crlf (
      Local-bind (header_loop fuel [] (negsuc 0)) _ (Local-header_loop fuel [] (negsuc 0))
        (Local-after_headers m u v))

  Grows-after_line : (fuel : ℕ) (m u v : List ℕ) → Grows (after_line max_size client fuel m u v)
  Grows-after_line fuel m u v = Grows-bind read_crlf _ Grows-read_crlf Local-read_crlf (λ _.
      Local-bind (header_loop fuel [] (negsuc 0)) _ (Local-header_loop fuel [] (negsuc 0))
        (Local-after_headers m u v))

  EndsBelow-after_line :
      (fuel : ℕ) (m u v : List ℕ) → EndsBelow fuel (after_line max_size client fuel m u v)
  EndsBelow-after_line fuel m u v =
      EndsBelow-bind read_crlf _ Local-read_crlf fuel (EndsBelow-Ends fuel read_crlf Ends-read_crlf)
        (λ _.
          EndsBelow-bind (header_loop fuel [] (negsuc 0)) _ (Local-header_loop fuel [] (negsuc 0))
            fuel (EndsBelow-header_loop fuel [] (negsuc 0))
            (λ hn. EndsBelow-Ends fuel _ (
              Ends-bind read_crlf _ Ends-read_crlf Local-read_crlf (λ _.
                Ends-bind (read_body max_size hn.1) _ (Ends-read_body max_size hn.1)
                  (Local-read_body max_size hn.1) (λ body. Ends-pure _)))))

  Steady-after_line :
      (fuel : ℕ) (m u v : List ℕ)
      → Steady (after_line max_size client fuel m u v) (after_line max_size client (suc fuel) m u v)
  Steady-after_line fuel m u v = Steady-bind read_crlf _ _ (λ _. bind_steady)
    where
      bind_steady :
          Steady
            (header_loop fuel [] (negsuc 0) >>= after_headers max_size client m u v)
            (header_loop (suc fuel) [] (negsuc 0) >>= after_headers max_size client m u v)
      bind_steady = Steady-head _ _ _ (Steady-header_loop fuel [] (negsuc 0))

-- A word of the request line, and the blanks behind it.
abbrev word : R (List ℕ)
word = read_until (codes " ") [] false

abbrev blanks : R (List ℕ)
blanks = read_up (codes " ") true

Local-word : Local word
Local-word = Local-read_until (codes " ") false

Local-blanks : Local blanks
Local-blanks = Local-read_up (codes " ")

Ends-word : Ends word
Ends-word = Ends-read_until (codes " ") [] false

Ends-blanks : Ends blanks
Ends-blanks = Ends-read_up (codes " ") true

Local-parse_request_loop :
    (max_size client fuel : ℕ) → Local (parse_request_loop max_size client fuel)
unfolding parse_request_loop
Local-parse_request_loop max_size client fuel = Local-bind word _ Local-word (λ m.
    Local-bind blanks _ Local-blanks (λ _. Local-bind word _ Local-word (λ u.
      Local-bind blanks _ Local-blanks (λ _.
        Local-bind (read_until cr [] false) _ (Local-read_until cr false)
          (Local-after_line max_size client fuel m u)))))

Grows-parse_request_loop :
    (max_size client fuel : ℕ) → Grows (parse_request_loop max_size client fuel)
unfolding parse_request_loop
Grows-parse_request_loop max_size client fuel = Grows-bind_after word _ Local-word (λ m.
    Grows-bind_after blanks _ Local-blanks (λ _. Grows-bind_after word _ Local-word (λ u.
      Grows-bind_after blanks _ Local-blanks (λ _.
        Grows-bind_after (read_until cr [] false) _ (Local-read_until cr false)
          (Grows-after_line max_size client fuel m u)))))

EndsBelow-parse_request_loop :
    (max_size client fuel : ℕ) → EndsBelow fuel (parse_request_loop max_size client fuel)
unfolding parse_request_loop
EndsBelow-parse_request_loop max_size client fuel =
    EndsBelow-bind word _ Local-word fuel (EndsBelow-Ends fuel word Ends-word) (λ m.
      EndsBelow-bind blanks _ Local-blanks fuel (EndsBelow-Ends fuel blanks Ends-blanks) (λ _.
        EndsBelow-bind word _ Local-word fuel (EndsBelow-Ends fuel word Ends-word) (λ u.
          EndsBelow-bind blanks _ Local-blanks fuel (EndsBelow-Ends fuel blanks Ends-blanks) (λ _.
            EndsBelow-bind (read_until cr [] false) _ (Local-read_until cr false) fuel
              (EndsBelow-Ends fuel _ (Ends-read_until cr [] false))
              (EndsBelow-after_line max_size client fuel m u)))))

pub Steady-parse_request_loop :
    (max_size client fuel : ℕ)
    → Steady
        (parse_request_loop max_size client fuel)
        (parse_request_loop max_size client (suc fuel))
unfolding parse_request_loop
Steady-parse_request_loop max_size client fuel = Steady-bind word _ _ (λ m.
    Steady-bind blanks _ _ (λ _. Steady-bind word _ _ (λ u. Steady-bind blanks _ _ (λ _.
      Steady-bind (read_until cr [] false) _ _ (Steady-after_line max_size client fuel m u)))))

pub parse_request-IsFraming : (max_size client : ℕ) → IsFraming (parse_request max_size client)
unfolding parse_request
parse_request-IsFraming max_size client =
    IsFraming-with_fuel (parse_request_loop max_size client)
      (Steady-parse_request_loop max_size client) (Local-parse_request_loop max_size client)
      (EndsBelow-parse_request_loop max_size client) (Grows-parse_request_loop max_size client)
