-- ===== src/Gateway/Endings.antt =====
-- HttpGateway::parse_response ends on every input.
use universe.Base.{
  ℕ, zero, suc, ◌==◌, ◌≢◌, true, false, Bool, List, [], ◌++◌, length, length-append, codes, arith,
}
use universe.Base.Text.{positive, bytes_eq}
use universe.Session.Branches.{Local-spent, Local-if, EndsBelow-if}
use universe.Reader.{
  R, spent, pure, ◌>>=◌, read_byte, pread_byte, read_size, read_until, read_up, fail_if, resize,
}
use universe.Reader.Local.{at, Local, Local-pure, Local-bind, Local-then, Local-fail_if}
use universe.Reader.Scans.{
  Local-read_size, Local-read_byte, Local-pread_byte, Local-read_until, Local-read_up, Local-resize,
}
use universe.Reader.Fuel.{with_fuel}
use universe.Session.Framing.{
  Grows, Ends, Grows-bind, Grows-bind_after, Grows-read_byte, Grows-read_size, Ends-bind, Ends-pure,
  Ends-read_size, Ends-read_until, Ends-read_byte, Ends-pread_byte, Ends-fail_if, Ends-resize,
  Ends-read_up,
}
use universe.Session.Bounded.{
  EndsBelow, EndsBelow-zero, EndsBelow-Ends, EndsBelow-bind, EndsBelow-bind_after,
}
use universe.Http.{cr, read_crlf}
use universe.Http.Framing.{Local-read_crlf, Ends-read_crlf}
use universe.Gateway.Responses.{
  Headers, hex2long, read_if, chunk_loop, read_header, put_header, header_loop, read_body,
  parse_response_loop, parse_response,
}

Grows-read_crlf : Grows read_crlf
unfolding read_crlf
Grows-read_crlf =
    Grows-bind (read_size 2) _ (Grows-read_size 2 (omega arith)) (Local-read_size 2)
      (λ bytes. Local-fail_if _)

Local-read_if : (b : Bool) (n : ℕ) → Local (read_if b n)
Local-read_if true n = Local-read_size n
Local-read_if false n = Local-pure []

Ends-read_if : (b : Bool) (n : ℕ) → Ends (read_if b n)
Ends-read_if true n = Ends-read_size n
Ends-read_if false n = Ends-pure []

Local-chunk_loop : (junk fuel : ℕ) (body : List ℕ) → Local (chunk_loop junk fuel body)
unfolding chunk_loop
Local-chunk_loop junk zero body = Local-spent _
Local-chunk_loop junk (suc fuel) body =
    Local-bind (read_until cr [] false) _ (Local-read_until cr false) (λ line.
      Local-then read_crlf _ Local-read_crlf (
        Local-bind (read_if _ _) _ (Local-read_if _ _) (λ bytes.
          Local-then read_crlf _ Local-read_crlf (
            Local-if (hex2long junk line == 0) _ _ (Local-pure body)
              (Local-chunk_loop junk fuel (body ++ bytes))))))

-- Each chunk takes two bytes at least.
EndsBelow-chunk_loop : (junk fuel : ℕ) (body : List ℕ) → EndsBelow fuel (chunk_loop junk fuel body)
unfolding chunk_loop
EndsBelow-chunk_loop junk zero body = EndsBelow-zero _
EndsBelow-chunk_loop junk (suc fuel) body =
    EndsBelow-bind (read_until cr [] false) _ (Local-read_until cr false) (suc fuel)
      (EndsBelow-Ends (suc fuel) _ (Ends-read_until cr [] false))
      (λ line.
        EndsBelow-bind_after read_crlf _ Local-read_crlf fuel Grows-read_crlf
          (EndsBelow-Ends (suc fuel) _ Ends-read_crlf)
          (λ _.
            EndsBelow-bind (read_if _ _) _ (Local-read_if _ _) fuel
              (EndsBelow-Ends fuel _ (Ends-read_if _ _))
              (λ bytes.
                EndsBelow-bind read_crlf _ Local-read_crlf fuel
                  (EndsBelow-Ends fuel _ Ends-read_crlf)
                  (λ _.
                    EndsBelow-if fuel (hex2long junk line == 0) _ _
                      (EndsBelow-Ends fuel _ (Ends-pure body))
                      (EndsBelow-chunk_loop junk fuel (body ++ bytes))))))

Local-read_header : Local read_header
unfolding read_header
Local-read_header =
    Local-bind (read_until (codes ":") [] true) _ (Local-read_until (codes ":") true) (λ name.
      Local-bind read_byte _ Local-read_byte (λ c. Local-then (fail_if _) _ (Local-fail_if _) (
        Local-bind (read_until cr [] false) _ (Local-read_until cr false)
          (λ value. Local-then read_crlf _ Local-read_crlf (Local-pure _)))))

Grows-read_header : Grows read_header
unfolding read_header
Grows-read_header =
    Grows-bind_after (read_until (codes ":") [] true) _ (Local-read_until (codes ":") true) (λ name.
      Grows-bind read_byte _ Grows-read_byte Local-read_byte (λ c.
        Local-then (fail_if _) _ (Local-fail_if _) (
          Local-bind (read_until cr [] false) _ (Local-read_until cr false)
            (λ value. Local-then read_crlf _ Local-read_crlf (Local-pure _)))))

Ends-read_header : Ends read_header
unfolding read_header
Ends-read_header =
    Ends-bind (read_until (codes ":") [] true) _ (Ends-read_until (codes ":") [] true)
      (Local-read_until (codes ":") true)
      (λ name. Ends-bind read_byte _ Ends-read_byte Local-read_byte (λ c.
        Ends-bind (fail_if _) _ (Ends-fail_if _) (Local-fail_if _) (λ _.
          Ends-bind (read_until cr [] false) _ (Ends-read_until cr [] false)
            (Local-read_until cr false)
            (λ value. Ends-bind read_crlf _ Ends-read_crlf Local-read_crlf (λ _. Ends-pure _)))))

Local-put_header : (name value : List ℕ) (h : Headers) → Local (put_header name value h)
unfolding put_header
Local-put_header name value h =
    Local-if (bytes_eq name (codes "Transfer-Encoding")) _ _
      (Local-then (fail_if _) _ (Local-fail_if _) (Local-pure _)) (Local-pure _)

EndsBelow-put_header :
    (n : ℕ) (name value : List ℕ) (h : Headers) → EndsBelow n (put_header name value h)
unfolding put_header
EndsBelow-put_header n name value h =
    EndsBelow-if n (bytes_eq name (codes "Transfer-Encoding")) _ _
      (EndsBelow-Ends n _
        (Ends-bind (fail_if _) _ (Ends-fail_if _) (Local-fail_if _) (λ _. Ends-pure _)))
      (EndsBelow-Ends n _ (Ends-pure _))

-- The rest of a round, by whether the next byte is the end of the headers.
abbrev branch : ℕ → Headers → Bool → R Headers
branch fuel h b = elim b [
  | true ↦ pure h
  | false ↦ read_header >>= λ nv. put_header nv.0 nv.1 h >>= λ h'. header_loop fuel h'
]

Local-branch :
    (fuel : ℕ) (h : Headers) (b : Bool)
    → ((h' : Headers) → Local (header_loop fuel h'))
    → Local (branch fuel h b)
Local-branch fuel h true ih = Local-pure h
Local-branch fuel h false ih =
    Local-bind read_header _ Local-read_header
      (λ nv. Local-bind (put_header nv.0 nv.1 h) _ (Local-put_header nv.0 nv.1 h) (λ h'. ih h'))

Local-header_loop : (fuel : ℕ) (h : Headers) → Local (header_loop fuel h)
unfolding header_loop
Local-header_loop zero h = Local-spent _
Local-header_loop (suc fuel) h =
    Local-bind pread_byte _ Local-pread_byte
      (λ c. Local-branch fuel h (c == 13) (λ h'. Local-header_loop fuel h'))

EndsBelow-branch :
    (fuel : ℕ) (h : Headers) (b : Bool)
    → ((h' : Headers) → EndsBelow fuel (header_loop fuel h'))
    → EndsBelow (suc fuel) (branch fuel h b)
EndsBelow-branch fuel h true ih = EndsBelow-Ends (suc fuel) _ (Ends-pure h)
EndsBelow-branch fuel h false ih =
    EndsBelow-bind_after read_header _ Local-read_header fuel Grows-read_header
      (EndsBelow-Ends (suc fuel) _ Ends-read_header)
      (λ nv.
        EndsBelow-bind (put_header nv.0 nv.1 h) _ (Local-put_header nv.0 nv.1 h) fuel
          (EndsBelow-put_header fuel nv.0 nv.1 h) (λ h'. ih h'))

EndsBelow-header_loop : (fuel : ℕ) (h : Headers) → EndsBelow fuel (header_loop fuel h)
unfolding header_loop
EndsBelow-header_loop zero h = EndsBelow-zero _
EndsBelow-header_loop (suc fuel) h =
    EndsBelow-bind pread_byte _ Local-pread_byte (suc fuel)
      (EndsBelow-Ends (suc fuel) pread_byte Ends-pread_byte)
      (λ c. EndsBelow-branch fuel h (c == 13) (λ h'. EndsBelow-header_loop fuel h'))

module _ (max_size junk : ℕ) where
  Local-read_body : (fuel : ℕ) (h : Headers) → Local (read_body max_size junk fuel h)
  unfolding read_body
  Local-read_body fuel h =
      Local-if (positive h.content_length) _ _
        (Local-then (resize _ _) _ (Local-resize _ _) (Local-read_size _))
        (Local-if h.is_chunked _ _ (Local-chunk_loop junk fuel [])
          (Local-then (fail_if true) _ (Local-fail_if true) (Local-pure [])))

  EndsBelow-read_body : (fuel : ℕ) (h : Headers) → EndsBelow fuel (read_body max_size junk fuel h)
  unfolding read_body
  EndsBelow-read_body fuel h =
      EndsBelow-if fuel (positive h.content_length) _ _
        (EndsBelow-Ends fuel _
          (Ends-bind (resize _ _) _ (Ends-resize _ _) (Local-resize _ _) (λ _. Ends-read_size _)))
        (EndsBelow-if fuel h.is_chunked _ _ (EndsBelow-chunk_loop junk fuel []) (
          EndsBelow-Ends fuel _ (
            Ends-bind (fail_if true) _ (Ends-fail_if true) (Local-fail_if true)
              (λ _. Ends-pure []))))

  EndsBelow-parse_response_loop :
      (fuel : ℕ) → EndsBelow fuel (parse_response_loop max_size junk fuel)
  unfolding parse_response_loop
  EndsBelow-parse_response_loop fuel =
      EndsBelow-bind (read_until (codes " ") [] false) _ (Local-read_until (codes " ") false) fuel
        (EndsBelow-Ends fuel _ (Ends-read_until (codes " ") [] false))
        (λ version.
          EndsBelow-bind (read_up (codes " ") true) _ (Local-read_up (codes " ")) fuel
            (EndsBelow-Ends fuel _ (Ends-read_up (codes " ") true))
            (λ _.
              EndsBelow-bind (read_until (codes " ") [] false) _
                (Local-read_until (codes " ") false) fuel
                (EndsBelow-Ends fuel _ (Ends-read_until (codes " ") [] false))
                (λ status.
                  EndsBelow-bind (read_up (codes " ") true) _ (Local-read_up (codes " ")) fuel
                    (EndsBelow-Ends fuel _ (Ends-read_up (codes " ") true))
                    (λ _.
                      EndsBelow-bind (read_until cr [] false) _ (Local-read_until cr false) fuel
                        (EndsBelow-Ends fuel _ (Ends-read_until cr [] false))
                        (λ reason.
                          EndsBelow-bind read_crlf _ Local-read_crlf fuel
                            (EndsBelow-Ends fuel _ Ends-read_crlf)
                            (λ _.
                              EndsBelow-bind (header_loop fuel _) _ (Local-header_loop fuel _) fuel
                                (EndsBelow-header_loop fuel _)
                                (λ h.
                                  EndsBelow-bind read_crlf _ Local-read_crlf fuel
                                    (EndsBelow-Ends fuel _ Ends-read_crlf)
                                    (λ _.
                                      EndsBelow-bind (read_body max_size junk fuel h) _
                                        (Local-read_body fuel h) fuel (EndsBelow-read_body fuel h)
                                        (λ body. EndsBelow-Ends fuel _ (Ends-pure _))))))))))

  -- The parser of responses ends on every input, whatever has been read of it before.
  pub every_response_is_read :
      (front xs : List ℕ) → parse_response max_size junk (at front xs) ≢ spent
  unfolding parse_response with_fuel EndsBelow
  every_response_is_read front xs =
      EndsBelow-parse_response_loop (suc (length (front ++ xs))) front xs
        (omega (arith, length-append front xs))
