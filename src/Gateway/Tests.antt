-- ===== src/Gateway/Tests.antt =====
-- Runs of the gateway.
use universe.Base.{
  ℕ, List, [], ◌∷◌, ◌++◌, codes, false, none, some, ◌≡◌, ◌==◌, refl, All, ltb→lt, flatten,
  if◌then◌else◌,
}
use universe.Base.Maps.{lookup, insert, nat_key}
use universe.Reader.{
  ok, find_char, read_until, until_loop, read_up, up_loop, read_size, fail_if, pread_byte,
  pread_size, network_value,
}
use universe.Reader.Fuel.{with_fuel}
use universe.Base.Text.{bytes_eq, positive}
use universe.Utils.{parse_url}
use universe.Reader.Local.{at}
use universe.Reader.Scans.{Clear}
use universe.StateMachine.States.{get_state}
use universe.Session.Host.{wrote}
use universe.Tunnel.{pending, at_once}
use universe.Http.{cr, crlf, parse_request, parse_request_loop, read_crlf, header_loop, read_body}
use universe.Gateway.{
  Gateway, Outside, HttpProviderAddress, standing, running, parsing_response, parsing_request,
  on_connect, on_message, forward, on_remote_connect,
}
use universe.Gateway.Responses.{hex2long, chunk_loop}
use universe.Gateway.Bodies.{chunks_wire, chunks_body, IsChunk, chunk_loop-chunks_wire}
use universe.Gateway.Turns.{held, on_messages, on_messages-held}

abbrev nothing_known : Outside
nothing_known = record {
  max_size = 1000;
  junk = 5;
  route = λ r. (r, none);
  edit = λ p. p;
  dial = λ client target. pending 9;
}

abbrev waiting : Gateway
waiting = record {
  states = (4, parsing_response) ∷ [];
  buf = [];
  c2r = (4, 9) ∷ [];
  r2c = (9, 4) ∷ [];
  forward_info = [];
  remotes = (9, standing 4) ∷ [];
  actions = [];
}

waiting-due : (get_state parsing_request 4 waiting.states).0 ≡ parsing_response
unfolding get_state lookup
waiting-due = refl

-- An empty line leaves the length unset.
unset : hex2long 5 [] ≡ 5
unfolding hex2long
unset = refl

-- The digits are to base 16, in either case, and what is behind them does not count.
to_base_16 : (hex2long 5 (codes "1f;name") ≡ 31) × (hex2long 5 (codes "0A0") ≡ 160)
unfolding hex2long
to_base_16 = (refl, refl)

abbrev two_chunks : List (List ℕ × List ℕ)
two_chunks = (codes "2", codes "ab") ∷ (codes "1;x", codes "c") ∷ []

two_chunks-IsChunk : All (IsChunk 5) two_chunks
unfolding hex2long find_char
two_chunks-IsChunk =
    (((refl, tt), refl, ltb→lt _ _ refl), (((refl, (refl, (refl, tt))), refl, ltb→lt _ _ refl), tt))

last-Clear : Clear cr (codes "0")
unfolding find_char
last-Clear = (refl, tt)

last-zero : hex2long 5 (codes "0") ≡ 0
unfolding hex2long
last-zero = refl

chunk_loop-chunks_wire_example :
    chunk_loop 5 3 [] (at [] (chunks_wire two_chunks ++ (codes "0" ++ (crlf ++ (crlf ++ [])))))
    ≡ ok (
      [] ++ chunks_body two_chunks,
      at ([] ++ (chunks_wire two_chunks ++ (codes "0" ++ (crlf ++ crlf)))) [],
    )
chunk_loop-chunks_wire_example =
    chunk_loop-chunks_wire 5 two_chunks 3 [] (codes "0") [] [] (ltb→lt _ _ refl) two_chunks-IsChunk
      last-Clear last-zero

on_messages-held_example :
    (buf : List (ℕ × List ℕ)) × (on_messages nothing_known 4
        ((1 ∷ []) ∷ (2 ∷ []) ∷ [])
        (running waiting)
      ≡ running (record waiting { buf = buf }))
    × ((j : ℕ)
        → held j buf ≡ (
            if 4 == j
            then held j waiting.buf ++ flatten ((1 ∷ []) ∷ (2 ∷ []) ∷ [])
            else held j waiting.buf))
on_messages-held_example =
    on_messages-held nothing_known 4 ((1 ∷ []) ∷ (2 ∷ []) ∷ []) waiting waiting-due

-- A provider that a connection is made to at once.
abbrev the_provider : HttpProviderAddress
the_provider = record { host = codes "h"; port = 80; path = codes "/p"; query = []; ssl = false }

abbrev one_provider : Outside
one_provider = record nothing_known {
  route = λ r. (r, some the_provider);
  dial = λ client target. at_once 9;
}

abbrev nobody : Gateway
nobody = record {
  states = [];
  buf = [];
  c2r = [];
  r2c = [];
  forward_info = [];
  remotes = [];
  actions = [];
}

abbrev end_of_line : List ℕ
end_of_line = 13 ∷ 10 ∷ []

abbrev the_request : List ℕ
the_request = codes "GET / HTTP/1.1" ++ (end_of_line ++ end_of_line)

abbrev the_packet : List ℕ
the_packet =
    codes "GET /p HTTP/1.1" ++ (end_of_line ++ (codes "Host: h" ++ (end_of_line ++ end_of_line)))

-- The gateway once a request is forwarded.
abbrev forwarded : Gateway
forwarded = record {
  states = (4, parsing_response) ∷ [];
  buf = (4, []) ∷ [];
  c2r = (4, 9) ∷ [];
  r2c = (9, 4) ∷ [];
  forward_info =
      (
        4,
        (
          record {
            client = 4;
            method = codes "GET";
            uri = codes "/";
            http_version = codes "HTTP/1.1";
            headers = [];
            body = [];
          },
          the_provider,
        ),
      )
      ∷ [];
  remotes = (9, standing 4) ∷ [];
  actions = wrote 9 the_packet ∷ [];
}

comes_to_forwarded : on_message one_provider 4 the_request (on_connect 4 nobody) ≡ running forwarded
unfolding on_message on_connect forward on_remote_connect lookup find_char insert parse_request
    with_fuel parse_request_loop read_until until_loop read_up up_loop read_crlf read_size fail_if
    bytes_eq header_loop pread_byte pread_size network_value read_body positive parse_url
comes_to_forwarded = refl
