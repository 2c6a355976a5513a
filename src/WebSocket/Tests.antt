-- ===== src/WebSocket/Tests.antt =====
-- WebSocket frames at concrete values.
use universe.Base.{ℕ, ◌≡◌, ◌≢◌, refl, List, [], ◌∷◌, ◌++◌, All, ltb→lt, leb→le}
use universe.Reader.{ok}
use universe.Reader.Local.{at}
use universe.Reader.Words.{IsByte}
use universe.Session.Host.{Host, Action, wrote, stuck, receive_pieces}
use universe.WebSocket.{WebSocketMessage, unmask, parse_message, respond, on_open_message}
use universe.WebSocket.Masks.{mask_with, unmask-mask_with}
use universe.WebSocket.Frames.{plain, keyed, message_bytes, message_of, parse_message-frames}
use universe.WebSocket.Delivery.{frames_in_pieces, every_frame_ends}

abbrev a_key : List ℕ
a_key = 1 ∷ 2 ∷ 3 ∷ 250 ∷ []

abbrev a_payload : List ℕ
a_payload = 72 ∷ 105 ∷ []

abbrev echo : WebSocketMessage → WebSocketMessage × List Action
echo m = (m, wrote m.client m.payload ∷ [])

abbrev a_host : Host
a_host = record { buf = []; actions = [] }

a_key_bytes : All IsByte a_key
a_key_bytes = (ltb→lt _ _ refl, (ltb→lt _ _ refl, (ltb→lt _ _ refl, (ltb→lt _ _ refl, tt))))

a_payload_bytes : All IsByte a_payload
a_payload_bytes = (ltb→lt _ _ refl, (ltb→lt _ _ refl, tt))

unmask-mask_with_example : unmask 0 a_key (mask_with a_key a_payload) ≡ a_payload
unmask-mask_with_example = unmask-mask_with a_key a_payload refl a_key_bytes a_payload_bytes

parse_message-frames_example :
    parse_message 1000 3
      (at [] (message_bytes (keyed 1 a_key a_payload) (plain 0 a_payload ∷ []) ++ (9 ∷ [])))
    ≡ ok (
      message_of 1000 3 (keyed 1 a_key a_payload) (plain 0 a_payload ∷ []),
      at (message_bytes (keyed 1 a_key a_payload) (plain 0 a_payload ∷ [])) (9 ∷ []),
    )
parse_message-frames_example =
    parse_message-frames 1000 3 (keyed 1 a_key a_payload) (plain 0 a_payload ∷ []) [] (9 ∷ []) (
      (ltb→lt _ _ refl, ltb→lt _ _ refl, leb→le _ _ refl, refl, a_key_bytes, a_payload_bytes),
      ((ltb→lt _ _ refl, ltb→lt _ _ refl, leb→le _ _ refl), tt),
    )

frames_in_pieces_example :
    receive_pieces
      (parse_message 1000 3)
      (respond 1000 echo 3)
      3
      (a_payload ∷ [])
      (on_open_message 1000 echo 3 (0x81 ∷ 2 ∷ []) a_host)
    ≡ on_open_message 1000 echo 3 (0x81 ∷ 2 ∷ (a_payload ++ [])) a_host
frames_in_pieces_example =
    frames_in_pieces 1000 echo 3 (0x81 ∷ 2 ∷ []) (a_payload ∷ []) a_host ((λ e. cc), tt)

every_frame_ends_example : on_open_message 1000 echo 3 (0 ∷ 0 ∷ []) a_host ≢ stuck
every_frame_ends_example = every_frame_ends 1000 echo 3 (0 ∷ 0 ∷ []) a_host
