-- ===== src/Redis/Tests.antt =====
-- Runs of the Redis client on replies.
use universe.Base.{
  ℕ, List, [], ◌∷◌, ◌++◌, length, drop, codes, ◌≡◌, ◌≢◌, refl, some, none, ltb→lt, leb→le,
}
use universe.Base.Maps.{lookup, nat_key}
use universe.Base.Text.{decimal}
use universe.Reader.{ok}
use universe.Reader.Local.{at}
use universe.Reader.{find_char}
use universe.Redis.Endings.{every_reply_ends}
use universe.Redis.{Redis, running, stuck, parse_response, on_message, packet_get}
use universe.Redis.Wire.{
  Sent, plain, bulk, null, array, none_sent, then_sent, wire, reply, IsSent, parse_response-wire,
}
use universe.Redis.Queue.{wires, answered, IsServed, on_message-wires}

abbrev max_size : ℕ
max_size = 1000

-- An array of an integer, a null and a string.
abbrev nested : Sent
nested =
    array
      (then_sent (plain 58 (49 ∷ 50 ∷ [])) (then_sent null (then_sent (bulk (97 ∷ [])) none_sent)))

abbrev one_line : Sent
one_line = plain 43 (79 ∷ 75 ∷ [])

nested-IsSent : IsSent max_size nested
unfolding IsSent find_char
nested-IsSent =
    (ltb→lt _ _ refl, ((refl, (refl, (refl, tt))), (tt, ((leb→le _ _ refl, ltb→lt _ _ refl), tt))))

one_line-IsSent : IsSent max_size one_line
unfolding IsSent find_char
one_line-IsSent = (refl, (refl, (refl, tt)))

abbrev two_waiting : Redis
two_waiting = record {
  buf = [];
  callbacks = (4, (1, 10) ∷ (2, 20) ∷ []) ∷ [];
  replied = [];
  closed = [];
}

nothing_held : lookup {K = ℕ} {V = List ℕ} 4 [] ≡ none
unfolding lookup
nothing_held = refl

waiting_of : lookup 4 two_waiting.callbacks ≡ some ((1, 10) ∷ (2, 20) ∷ [])
unfolding lookup
waiting_of = refl

get_key :
    packet_get (codes "k")
    ≡ codes "*2"
      ++ (13 ∷ 10 ∷ codes "$3")
      ++ (13 ∷ 10 ∷ codes "GET")
      ++ (13 ∷ 10 ∷ codes "$1")
      ++ (13 ∷ 10 ∷ codes "k")
      ++ (13 ∷ 10 ∷ [])
unfolding packet_get decimal
get_key = refl

parse_response-wire_example :
    parse_response max_size (at (43 ∷ []) (wire nested ++ (36 ∷ [])))
    ≡ ok (reply nested, at ((43 ∷ []) ++ wire nested) (36 ∷ []))
parse_response-wire_example = parse_response-wire max_size nested (43 ∷ []) (36 ∷ []) nested-IsSent

on_message-wires_example :
    (w' : Redis) × (on_message max_size 4 (wires (one_line ∷ nested ∷ [])) two_waiting ≡ running w')
    × IsServed 4
        (drop (length (one_line ∷ nested ∷ [])) ((1, 10) ∷ (2, 20) ∷ []))
        (answered ((1, 10) ∷ (2, 20) ∷ []) (one_line ∷ nested ∷ []))
        two_waiting
        w'
on_message-wires_example =
    on_message-wires max_size 4 one_line (nested ∷ []) ((1, 10) ∷ (2, 20) ∷ []) two_waiting
      (one_line-IsSent, (nested-IsSent, tt)) nothing_held waiting_of (leb→le _ _ refl)

every_reply_ends_example : on_message max_size 4 (wires (one_line ∷ [])) two_waiting ≢ stuck
every_reply_ends_example = every_reply_ends max_size 4 (wires (one_line ∷ [])) two_waiting
