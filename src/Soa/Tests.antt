-- ===== src/Soa/Tests.antt =====
-- SOA packets at concrete values.
use universe.Base.{ℕ, ◌≡◌, ◌≢◌, refl, none, List, [], ◌∷◌, ◌++◌, length, replicate, ltb→lt, leb→le}
use universe.Base.Maps.{lookup, nat_key}
use universe.Reader.{ok, throw, fatal, ag}
use universe.Reader.Local.{at}
use universe.Reader.Words.{network_bytes}
use universe.Session.Host.{Host, opened, stuck, receive_pieces}
use universe.Soa.{SoaRequest, uuid_size, to_string, parse_request, respond, on_message}
use universe.Soa.Packets.{parse_request-to_string, parse_request_short, parse_request_fatal}
use universe.Soa.Delivery.{
  packets, answers, on_message-packets, packets_in_pieces, every_packet_ends,
}

abbrev a_uuid : List ℕ
a_uuid = replicate uuid_size 7

abbrev a_json : List ℕ
a_json = 123 ∷ 125 ∷ []

abbrev an_answer : SoaRequest → List ℕ
an_answer r = 91 ∷ r.json

abbrev a_host : Host
a_host = record { buf = []; actions = [] }

a_uuid-length : length a_uuid ≡ uuid_size
a_uuid-length = refl

parse_request-to_string_example :
    parse_request 1000 3 (at [] (to_string a_uuid a_json ++ (9 ∷ [])))
    ≡ ok
        (record { client = 3; uuid = a_uuid; json = a_json }, at (to_string a_uuid a_json) (9 ∷ []))
parse_request-to_string_example =
    parse_request-to_string 1000 3 a_uuid a_json [] (9 ∷ []) a_uuid-length (ltb→lt _ _ refl)
      (leb→le _ _ refl)

parse_request_short_example :
    parse_request 1000 3 (at [] (a_uuid ++ (network_bytes 8 5 ++ a_json))) ≡ throw ag
parse_request_short_example =
    parse_request_short 1000 3 5 a_uuid [] a_json a_uuid-length (ltb→lt _ _ refl) (leb→le _ _ refl)
      (ltb→lt _ _ refl)

parse_request_fatal_example :
    parse_request 1000 3 (at [] (a_uuid ++ (network_bytes 8 1001 ++ a_json))) ≡ fatal
parse_request_fatal_example =
    parse_request_fatal 1000 3 1001 a_uuid [] a_json a_uuid-length (ltb→lt _ _ refl)
      (ltb→lt _ _ refl)

nothing_held : lookup 3 a_host.buf ≡ none
unfolding lookup
nothing_held = refl

on_message-packets_example :
    on_message 1000 an_answer 3 (packets ((a_uuid, a_json) ∷ (a_uuid, []) ∷ [])) a_host
    ≡ opened
        (record a_host { actions = answers 3 an_answer ((a_uuid, a_json) ∷ (a_uuid, []) ∷ []) })
on_message-packets_example =
    on_message-packets 1000 an_answer 3 (a_uuid, a_json) ((a_uuid, []) ∷ []) a_host
      (
        (a_uuid-length, ltb→lt _ _ refl, leb→le _ _ refl),
        ((a_uuid-length, ltb→lt _ _ refl, leb→le _ _ refl), tt),
      )
      nothing_held

packets_in_pieces_example :
    receive_pieces
      (parse_request 1000 3)
      (respond 1000 an_answer 3)
      3
      (a_json ∷ a_uuid ∷ [])
      (on_message 1000 an_answer 3 a_uuid a_host)
    ≡ on_message 1000 an_answer 3 (a_uuid ++ (a_json ++ (a_uuid ++ []))) a_host
packets_in_pieces_example =
    packets_in_pieces 1000 an_answer 3 a_uuid (a_json ∷ a_uuid ∷ []) a_host
      ((λ e. cc), ((λ e. cc), tt))

every_packet_ends_example : on_message 1000 an_answer 3 a_uuid a_host ≢ stuck
every_packet_ends_example = every_packet_ends 1000 an_answer 3 a_uuid a_host
