-- ===== src/WebSocket/Delivery.antt =====
-- `WebSocket::on_message` of an open connection as the receiver of a byte stream, and the end of
-- every message.
use universe.Base.{ℕ, ◌≡◌, ◌≢◌, List, [], ◌++◌, All, flatten}
use universe.Session.Host.{Host, Action, stuck, receive_pieces}
use universe.Session.Delivery.{receive-ne-stuck, receive_pieces-flatten}
use universe.WebSocket.{WebSocketMessage, parse_message, respond, on_open_message}
use universe.WebSocket.Framing.{parse_message-IsFraming}

module _ (max_size : ℕ) (on_msg : WebSocketMessage → WebSocketMessage × List Action)
    (client : ℕ) where
  -- However the stream of an open connection is cut into messages, the server writes the same frames
  -- in the same order, closes the connection at the same frame, and holds back the same bytes. (No
  -- piece but the first is empty.)
  pub frames_in_pieces :
      (first : List ℕ) (pieces : List (List ℕ)) (h : Host)
      → All (λ p. p ≢ []) pieces
      → receive_pieces
          (parse_message max_size client)
          (respond max_size on_msg client)
          client
          pieces
          (on_open_message max_size on_msg client first h)
        ≡ on_open_message max_size on_msg client (first ++ flatten pieces) h
  unfolding on_open_message
  frames_in_pieces =
      receive_pieces-flatten (parse_message max_size client) (respond max_size on_msg client)
        (parse_message-IsFraming max_size client) client

  -- The handler of an open connection ends on every message: neither the loop over messages nor the
  -- loop over frames runs on.
  pub every_frame_ends :
      (message : List ℕ) (h : Host) → on_open_message max_size on_msg client message h ≢ stuck
  unfolding on_open_message
  every_frame_ends =
      receive-ne-stuck (parse_message max_size client) (respond max_size on_msg client)
        (parse_message-IsFraming max_size client) client
