-- ===== src/SoaClient/Tests.antt =====
-- Two requests whose responses come in the other order.
use universe.Base.{ℕ, List, [], ◌∷◌, codes, none, some, ◌≡◌, refl, All, replicate, ltb→lt, leb→le}
use universe.Base.Maps.{lookup, nat_key}
use universe.Base.Text.{bytes_key, bytes_eq}
use universe.Soa.{uuid_size}
use universe.SoaClient.{SoaClient, running, on_message}
use universe.SoaClient.Responses.{
  Awaited, IsAwaited, AreDistinct, IsAnswered, packets, calls, on_message-packets_awaited,
}

abbrev first_uuid : List ℕ
first_uuid = replicate uuid_size 1

abbrev second_uuid : List ℕ
second_uuid = replicate uuid_size 2

abbrev both : List (List ℕ × ℕ)
both = (first_uuid, 10) ∷ (second_uuid, 20) ∷ []

abbrev two_asked : SoaClient
two_asked = record {
  buf = [];
  callbacks = (4, both) ∷ [];
  push_callback = none;
  called = [];
  notified = [];
  closed = [];
}

abbrev first_answer : Awaited
first_answer = record { uuid = first_uuid; cb = 10; json = codes "[]" }

abbrev second_answer : Awaited
second_answer = record { uuid = second_uuid; cb = 20; json = codes "{}" }

answers-IsAwaited : All (IsAwaited 1000 both) (second_answer ∷ first_answer ∷ [])
unfolding lookup bytes_eq
answers-IsAwaited = (
  record { full = refl; fits = ltb→lt _ _ refl; small = leb→le _ _ refl; waits = refl },
  (record { full = refl; fits = ltb→lt _ _ refl; small = leb→le _ _ refl; waits = refl }, tt),
)

answers-AreDistinct : AreDistinct (second_answer ∷ first_answer ∷ [])
unfolding bytes_eq
answers-AreDistinct = ((refl, tt), (tt, tt))

nothing_held : lookup 4 two_asked.buf ≡ none
unfolding lookup
nothing_held = refl

asked : lookup 4 two_asked.callbacks ≡ some both
unfolding lookup
asked = refl

on_message-packets_awaited_example :
    (s' : SoaClient) × (on_message 1000 4 (packets (second_answer ∷ first_answer ∷ [])) two_asked
      ≡ running s')
    × IsAnswered 4 (calls (second_answer ∷ first_answer ∷ [])) two_asked s'
on_message-packets_awaited_example =
    on_message-packets_awaited 1000 4 second_answer (first_answer ∷ []) both two_asked
      answers-IsAwaited answers-AreDistinct nothing_held asked
