-- ===== src/Http.antt =====
-- Protocol/Http.h and Protocol/Http.cpp: the HTTP server protocol.
pub mod Framing
pub mod Wire
pub mod Delivery
mod Tests
use universe.Base.{
  ℕ, zero, suc, ◌+◌, ◌==◌, ltb, Bool, true, false, not, ◌&&◌, if◌then◌else◌, List, [], ◌∷◌, ◌++◌,
  length, drop, Option, none, some, codes,
}
use universe.Base.Maps.{lookup, insert, nat_key}
use universe.Base.Text.{
  ℤ, pos, negsuc, positive, pos_part, atoi, decimal, decimal_int, bytes_eq, bytes_key,
}
use universe.Reader.{
  Reader, R, spent, pure, ◌>>=◌, ◌>>◌, read_size, read_byte, pread_byte, read_until, read_up,
  fail_if, resize,
}
use universe.Reader.Fuel.{with_fuel}
use universe.Session.{Exit, stay, leave, throws}
use universe.Session.Host.{Action, wrote, Host, Session, receive}
use universe.StateMachine.Buffers.{erase_buf}

abbrev pub crlf : List ℕ
crlf = 13 ∷ 10 ∷ []

abbrev pub cr : List ℕ
cr = 13 ∷ []

pub record HttpRequest : Type 0 where
  pub client : ℕ
  pub method : List ℕ
  pub uri : List ℕ
  pub http_version : List ℕ
  pub headers : List (List ℕ × List ℕ)
  pub body : List ℕ

pub record HttpResponse : Type 0 where
  pub status_code : ℤ
  pub reason_phrase : List ℕ
  pub headers : List (List ℕ × List ℕ)
  pub body : List ℕ
  pub http_version : List ℕ

-- `HttpResponse(const HttpRequest& r)`
unfoldable pub response_to : HttpRequest → HttpResponse
response_to r = record {
  status_code = pos 200;
  reason_phrase = codes "OK";
  headers = [];
  body = [];
  http_version = r.http_version;
}

unfoldable pub header_line : List ℕ → List ℕ → List ℕ
header_line name value = name ++ (codes ": " ++ (value ++ crlf))

-- The loop of `HttpResponse::to_string`, which leaves out a `Content-Length` that is there.
unfoldable pub header_lines : List (List ℕ × List ℕ) → List ℕ
unfolding header_line
header_lines [] = []
header_lines ((name, value) ∷ hs) =
    if bytes_eq name (codes "Content-Length")
    then header_lines hs
    else header_line name value ++ header_lines hs

-- `HttpResponse::to_string`
unfoldable pub to_string : HttpResponse → List ℕ
unfolding header_lines header_line
to_string r =
    r.http_version
    ++ (codes " "
        ++ (decimal_int r.status_code
            ++ (codes " "
                ++ (r.reason_phrase
                    ++ (crlf
                        ++ (header_lines r.headers
                            ++ (header_line (codes "Content-Length") (decimal (length r.body))
                                ++ (crlf ++ r.body))))))))

-- `s.read_size(sizeof(crlf), crlf); s.fail_if(strncmp(crlf, "\r\n", 2) != 0);`
unfoldable pub read_crlf : R (Unit {0})
read_crlf = do bytes ← read_size 2; fail_if (not (bytes_eq bytes crlf))

-- One header line: its name and its value.
unfoldable pub read_header : R (List ℕ × List ℕ)
read_header = do
  header_name ← read_until (codes ":") [] true
  next_char ← read_byte
  fail_if (not (next_char == 32))
  fail_if (bytes_eq header_name (codes "Transfer-Encoding"))
  header_value ← read_until cr [] false
  read_crlf
  pure (header_name, header_value)

-- The header lines, up to the `\r` of the empty line: the headers and `content_length`.
unfoldable pub header_loop : ℕ → List (List ℕ × List ℕ) → ℤ → R (List (List ℕ × List ℕ) × ℤ)
header_loop zero headers content_length = λ s. spent
header_loop (suc fuel) headers content_length = do
  next_char ← pread_byte
  elim (next_char == 13) [
    | true ↦ pure (headers, content_length)
    | false ↦ do
      (name, value) ← read_header
      header_loop fuel (insert name value headers)
          (if bytes_eq name (codes "Content-Length") then atoi value else content_length)
  ]

-- `if (content_length > 0) { r.body.resize(content_length); s.read_size(content_length, &r.body[0]); }`
unfoldable pub read_body : ℕ → ℤ → R (List ℕ)
read_body max_size content_length = elim (positive content_length) [
  | true ↦ do resize max_size (pos_part content_length); read_size (pos_part content_length)
  | false ↦ pure []
]

-- `Http::parse_request`, with fuel for the header lines.
unfoldable pub parse_request_loop : ℕ → ℕ → ℕ → R HttpRequest
parse_request_loop max_size client fuel = do
  method ← read_until (codes " ") [] false
  blanks ← read_up (codes " ") true
  uri ← read_until (codes " ") [] false
  blanks ← read_up (codes " ") true
  http_version ← read_until (cr) [] false
  read_crlf
  (headers, content_length) ← header_loop fuel [] (negsuc 0)
  read_crlf
  body ← read_body max_size content_length
  pure (record {
    client = client;
    method = method;
    uri = uri;
    http_version = http_version;
    headers = headers;
    body = body;
  })

unfoldable pub parse_request : ℕ → ℕ → R HttpRequest
parse_request max_size client = with_fuel (parse_request_loop max_size client)

-- `http_version.substr(sizeof("HTTP/") - 1) == "1.0"`: `none` is the `std::out_of_range` that `substr`
-- throws where the string is shorter than five bytes.
unfoldable pub is_http_1_0 : List ℕ → Option Bool
is_http_1_0 version =
    if ltb (length version) 5 then none else some (bytes_eq (drop 5 version) (codes "1.0"))

-- `Http::close_if_necessary`: whether it closes the connection; `none` as above.
unfoldable pub close_if_necessary : HttpRequest → Option Bool
close_if_necessary r = elim (lookup (codes "Connection") r.headers) [
  | some value ↦ some (bytes_eq value (codes "close"))
  | none ↦ is_http_1_0 r.http_version
]

-- `hooks` stands for the callbacks of `ON_REQUEST`, which may change the request (not its `client`) and
-- the response.
module _ (max_size : ℕ) (hooks : HttpRequest × HttpResponse → HttpRequest × HttpResponse) where
  abbrev pub exit_of : Option Bool → Exit
  exit_of (some true) = leave
  exit_of (some false) = stay
  exit_of none = throws

  -- The body of the loop of `Http::on_message`.
  unfoldable pub respond : ℕ → HttpRequest → List Action → List Action × Exit
  respond client r acts =
      let (r', resp) = hooks (r, response_to r) in
      (acts ++ (wrote client (to_string resp) ∷ []), exit_of (close_if_necessary r'))

  unfoldable pub on_message : ℕ → List ℕ → Host → Session
  on_message client message h =
      receive (parse_request max_size client) (respond client) client message h

unfoldable pub on_connect : ℕ → Host → Host
on_connect client h = h

unfoldable pub on_close : ℕ → Host → Host
on_close client h = record h { buf = erase_buf client h.buf }
