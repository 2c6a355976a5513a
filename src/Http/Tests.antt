-- ===== src/Http/Tests.antt =====
-- HTTP requests at concrete values.
use universe.Base.{ℕ, ◌≡◌, ◌≢◌, refl, List, [], ◌∷◌, ◌++◌, All, codes, inl, none, ltb→lt, leb→le}
use universe.Base.Text.{negsuc, decimal, bytes_eq, bytes_before, bytes_key, atoi, positive}
use universe.Base.Maps.{insert, lookup, nat_key}
use universe.Reader.{
  ok, open_reader, read_until, until_loop, find_char, read_up, up_loop, read_size, pread_size,
  read_byte, read_network, network_value, pread_byte, fail_if, resize,
}
use universe.Reader.Local.{at}
use universe.Reader.Scans.{Clear}
use universe.Reader.Fuel.{with_fuel}
use universe.Session.Host.{Host, dead, wrote, stuck, receive_pieces}
use universe.Http.{
  HttpRequest, HttpResponse, parse_request, parse_request_loop, header_loop, read_body, read_crlf,
  read_header, crlf, to_string, response_to, respond, on_message,
}
use universe.Http.Wire.{wire, request, declared, IsWord, IsHeader, HasBody, parse_request-wire}
use universe.Http.Delivery.{requests_in_pieces, every_request_ends, on_message_short_version}

abbrev get_request : List ℕ
get_request =
    codes "GET / HTTP/1.1"
    ++ (crlf
        ++ (codes "Host: a"
            ++ (crlf ++ (codes "Content-Length: 3" ++ (crlf ++ (crlf ++ codes "abc!"))))))

abbrev parsed : HttpRequest
parsed = record {
  client = 7;
  method = codes "GET";
  uri = codes "/";
  http_version = codes "HTTP/1.1";
  headers = (codes "Content-Length", codes "3") ∷ (codes "Host", codes "a") ∷ [];
  body = codes "abc";
}

get_request-parsed :
    parse_request 1000 7 (open_reader get_request)
    ≡ ok (parsed, record { str = get_request; offset = 49 })
unfolding read_header parse_request parse_request_loop with_fuel header_loop read_body read_crlf
    read_until until_loop find_char read_up up_loop read_size pread_size read_byte read_network
    network_value pread_byte fail_if resize bytes_eq bytes_before atoi positive insert
get_request-parsed = refl

decimal_runs : decimal 1203 ≡ codes "1203"
unfolding decimal
decimal_runs = refl

abbrev no_hooks : HttpRequest × HttpResponse → HttpRequest × HttpResponse
no_hooks p = p

abbrev a_host : Host
a_host = record { buf = []; actions = [] }

abbrev some_headers : List (List ℕ × List ℕ)
some_headers = (codes "Host", codes "a") ∷ (codes "Content-Length", codes "3") ∷ []

words : Clear (codes " ") (codes "GET") × IsWord (codes "/") × IsWord (codes "HTTP/1.1")
unfolding find_char
words = (
  (refl, (refl, (refl, tt))),
  ((λ e. cc), (refl, tt), (refl, tt)),
  (
    (λ e. cc),
    (refl, (refl, (refl, (refl, (refl, (refl, (refl, (refl, tt)))))))),
    (refl, (refl, (refl, (refl, (refl, (refl, (refl, (refl, tt)))))))),
  ),
)

headers_good : All IsHeader some_headers
unfolding find_char bytes_eq bytes_before
headers_good = (
  ((refl, (refl, (refl, (refl, tt)))), (refl, (refl, (refl, (refl, tt)))), (refl, tt), refl),
  (
    (
      (
        refl,
        (
          refl,
          (
            refl,
            (
              refl,
              (refl, (refl, (refl, (refl, (refl, (refl, (refl, (refl, (refl, (refl, tt)))))))))),
            ),
          ),
        ),
      ),
      (
        refl,
        (
          refl,
          (
            refl,
            (
              refl,
              (refl, (refl, (refl, (refl, (refl, (refl, (refl, (refl, (refl, (refl, tt)))))))))),
            ),
          ),
        ),
      ),
      (refl, tt),
      refl,
    ),
    tt,
  ),
)

has_body : HasBody 1000 (declared (negsuc 0) some_headers) (codes "abc")
unfolding bytes_eq bytes_before atoi positive
has_body = inl (refl, refl, leb→le _ _ refl)

parse_request-wire_example :
    parse_request 1000 7 (
      at []
        (wire (codes "GET") (codes "/") (codes "HTTP/1.1") some_headers (codes "abc") ++ codes "!"))
    ≡ ok (
      request 1000 7 (codes "GET") (codes "/") (codes "HTTP/1.1") some_headers (codes "abc"),
      at (wire (codes "GET") (codes "/") (codes "HTTP/1.1") some_headers (codes "abc")) (codes "!"),
    )
parse_request-wire_example =
    parse_request-wire 1000 7 (codes "GET") (codes "/") (codes "HTTP/1.1") some_headers
      (codes "abc") [] (codes "!") words.0 words.1 words.2 headers_good has_body

requests_in_pieces_example :
    receive_pieces
      (parse_request 1000 7)
      (respond 1000 no_hooks 7)
      7
      (codes " / HT" ∷ [])
      (on_message 1000 no_hooks 7 (codes "GET") a_host)
    ≡ on_message 1000 no_hooks 7 (codes "GET" ++ (codes " / HT" ++ [])) a_host
requests_in_pieces_example =
    requests_in_pieces 1000 no_hooks 7 (codes "GET") (codes " / HT" ∷ []) a_host ((λ e. cc), tt)

every_request_ends_example : on_message 1000 no_hooks 7 get_request a_host ≢ stuck
every_request_ends_example = every_request_ends 1000 no_hooks 7 get_request a_host

abbrev short_request : HttpRequest
short_request = record {
  client = 7;
  method = codes "GET";
  uri = codes "/";
  http_version = codes "1.0";
  headers = [];
  body = [];
}

abbrev short_message : List ℕ
short_message = codes "GET / 1.0" ++ (crlf ++ crlf)

short_message_parsed :
    parse_request 1000 7 (open_reader short_message)
    ≡ ok (short_request, record { str = short_message; offset = 13 })
unfolding read_header parse_request parse_request_loop with_fuel header_loop read_body read_crlf
    read_until until_loop find_char read_up up_loop read_size pread_size read_byte read_network
    network_value pread_byte fail_if resize bytes_eq bytes_before atoi positive insert
short_message_parsed = refl

nothing_held : lookup 7 a_host.buf ≡ none
unfolding lookup
nothing_held = refl

no_connection : lookup (codes "Connection") short_request.headers ≡ none
unfolding lookup
no_connection = refl

on_message_short_version_example :
    on_message 1000 no_hooks 7 short_message a_host
    ≡ dead (wrote 7 (to_string (response_to short_request)) ∷ [])
on_message_short_version_example =
    on_message_short_version 1000 no_hooks 7 short_message a_host short_request
      (record { str = short_message; offset = 13 }) nothing_held short_message_parsed refl
      no_connection (ltb→lt _ _ refl)
