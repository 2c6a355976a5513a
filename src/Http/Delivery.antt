-- ===== src/Http/Delivery.antt =====
-- `Http::on_message` as the receiver of a byte stream, and the end of a connection.
use universe.Base.{
  ℕ, ◌<◌, ◌≡◌, ◌≢◌, refl, ◌∙◌, List, [], ◌∷◌, ◌++◌, length, All, flatten, codes, ltb, none, some,
  drop, if◌then◌else◌, lt→ltb,
}
use universe.Base.Maps.{lookup, nat_key}
use universe.Base.Text.{bytes_eq, bytes_key}
use universe.Reader.{Reader, ok, open_reader}
use universe.Session.{serve_loop}
use universe.Session.Host.{Host, wrote, stuck, dead, receive, receive_pieces, catch_block}
use universe.Session.Delivery.{receive-ne-stuck, receive_pieces-flatten}
use universe.StateMachine.Buffers.{append_buf-none}
use universe.Http.{
  HttpRequest, HttpResponse, to_string, response_to, parse_request, respond, on_message,
  close_if_necessary, is_http_1_0,
}
use universe.Http.Framing.{parse_request-IsFraming}

-- A connection is closed behind a response exactly where the request says `Connection: close`, or
-- says nothing of it and is of version 1.0.
pub close_if_necessary_lem :
    (r : HttpRequest) (value : List ℕ)
    → (lookup (codes "Connection") r.headers ≡ some value
        → close_if_necessary r ≡ some (bytes_eq value (codes "close")))
      × (lookup (codes "Connection") r.headers ≡ none
          → close_if_necessary r ≡ (
              if ltb (length r.http_version) 5
              then none
              else some (bytes_eq (drop 5 r.http_version) (codes "1.0"))))
unfolding close_if_necessary is_http_1_0
close_if_necessary_lem r value = (λ e. rw (e, close_if_necessary), λ e. rw (e, close_if_necessary))

module _ (max_size : ℕ) (hooks : HttpRequest × HttpResponse → HttpRequest × HttpResponse)
    (client : ℕ) where
  -- However the stream of a client is cut into messages, the server writes the same responses in the
  -- same order, closes the connection behind the same one, and holds back the same bytes. (No piece
  -- but the first is empty.)
  pub requests_in_pieces :
      (first : List ℕ) (pieces : List (List ℕ)) (h : Host)
      → All (λ p. p ≢ []) pieces
      → receive_pieces
          (parse_request max_size client)
          (respond max_size hooks client)
          client
          pieces
          (on_message max_size hooks client first h)
        ≡ on_message max_size hooks client (first ++ flatten pieces) h
  unfolding on_message
  requests_in_pieces =
      receive_pieces-flatten (parse_request max_size client) (respond max_size hooks client)
        (parse_request-IsFraming max_size client) client

  -- The handler ends on every message: neither its loop nor the header loop runs on.
  pub every_request_ends :
      (message : List ℕ) (h : Host) → on_message max_size hooks client message h ≢ stuck
  unfolding on_message
  every_request_ends =
      receive-ne-stuck (parse_request max_size client) (respond max_size hooks client)
        (parse_request-IsFraming max_size client) client

  -- A whole request whose version is shorter than five bytes, with no `Connection` line, ends the
  -- process once its response is written: `substr` throws what no handler catches. (The hooks leave
  -- the request as it is, and nothing of the client is held back.)
  pub on_message_short_version :
      (message : List ℕ) (h : Host) (r : HttpRequest) (s : Reader)
      → lookup client h.buf ≡ none
      → parse_request max_size client (open_reader message) ≡ ok (r, s)
      → (hooks (r, response_to r)).0 ≡ r
      → lookup (codes "Connection") r.headers ≡ none
      → length r.http_version < 5
      → on_message max_size hooks client message h
        ≡ dead (h.actions ++ (wrote client (to_string (hooks (r, response_to r)).1) ∷ []))
  unfolding on_message receive serve_loop respond catch_block
  on_message_short_version message h r s absent parsed same no_line short =
      rw (append_buf-none client message h.buf absent)
        (rw (parsed, serve_loop) (rw same (rw (thrown) refl)))
    where
      thrown : close_if_necessary r ≡ none
      thrown = (close_if_necessary_lem r []).1 no_line ∙ rw (lt→ltb _ _ short)
