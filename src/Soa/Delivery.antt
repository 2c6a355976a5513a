-- ===== src/Soa/Delivery.antt =====
-- `Soa::on_message` as the receiver of a byte stream.
use universe.Base.{
  ℕ, ◌<◌, ◌≤◌, ◌^◌, ◌≡◌, ◌≢◌, List, [], ◌∷◌, ◌++◌, length, All, flatten, append-nil, append_assoc,
  ap, sym, ◌∙◌, none, arith,
}
use universe.Base.Maps.{lookup, nat_key}
use universe.Reader.{ok, at_end}
use universe.Reader.Local.{at}
use universe.Session.{serve_loop}
use universe.StateMachine.Buffers.{append_buf-none}
use universe.Session.Host.{
  Host, Action, wrote, stuck, opened, then_receive, receive, receive_pieces, catch_block,
}
use universe.Session.Delivery.{receive-append, receive-ne-stuck, receive_pieces-flatten}
use universe.Soa.{SoaRequest, uuid_size, to_string, parse_request, respond, on_message}
use universe.Soa.Packets.{parse_request-IsFraming, parse_request-to_string}

-- The packets of a list of uuids and jsons, and what the server writes for them.
abbrev pub packets : List (List ℕ × List ℕ) → List ℕ
packets [] = []
packets ((uuid, json) ∷ rs) = to_string uuid json ++ packets rs

abbrev pub answers : ℕ → (SoaRequest → List ℕ) → List (List ℕ × List ℕ) → List Action
answers client answer [] = []
answers client answer ((uuid, json) ∷ rs) =
    wrote client (to_string uuid (answer (record { client = client; uuid = uuid; json = json })))
    ∷ answers client answer rs

abbrev pub Fits : ℕ → List ℕ × List ℕ → Type 0
Fits max_size (uuid, json) =
    (length uuid ≡ uuid_size) × (length json < 2 ^ 64) × (length json ≤ max_size)

module _ (max_size : ℕ) (answer : SoaRequest → List ℕ) (client : ℕ) where
  -- However the stream of a client is cut into messages, the server answers the same requests in the
  -- same order and holds back the same bytes. (No piece but the first is empty.)
  pub packets_in_pieces :
      (first : List ℕ) (pieces : List (List ℕ)) (h : Host)
      → All (λ p. p ≢ []) pieces
      → receive_pieces
          (parse_request max_size client)
          (respond max_size answer client)
          client
          pieces
          (on_message max_size answer client first h)
        ≡ on_message max_size answer client (first ++ flatten pieces) h
  unfolding on_message
  packets_in_pieces =
      receive_pieces-flatten (parse_request max_size client) (respond max_size answer client)
        (parse_request-IsFraming max_size client) client

  on_message-append :
      (first second : List ℕ) (h : Host)
      → second ≢ []
      → on_message max_size answer client (first ++ second) h
        ≡ then_receive
            (parse_request max_size client)
            (respond max_size answer client)
            client
            second
            (on_message max_size answer client first h)
  unfolding on_message
  on_message-append =
      receive-append (parse_request max_size client) (respond max_size answer client)
        (parse_request-IsFraming max_size client) client

  parsed_alone :
      (uuid json : List ℕ)
      → Fits max_size (uuid, json)
      → parse_request max_size client (at [] (to_string uuid json))
        ≡ ok (record { client = client; uuid = uuid; json = json }, at (to_string uuid json) [])
  parsed_alone uuid json (full, fits, small) =
      ap (λ (t : List ℕ). parse_request max_size client (at [] t))
        (sym (append-nil (to_string uuid json)))
      ∙ parse_request-to_string max_size client uuid json [] [] full fits small

  -- One whole packet is answered at once.
  one_packet :
      (uuid json : List ℕ) (h : Host)
      → Fits max_size (uuid, json)
      → lookup client h.buf ≡ none
      → on_message max_size answer client (to_string uuid json) h
        ≡ opened (record h { actions = h.actions ++ answers client answer ((uuid, json) ∷ []) })
  unfolding on_message receive serve_loop respond catch_block at_end
  one_packet uuid json h fit absent =
      rw (append_buf-none client (to_string uuid json) h.buf absent) (
        rw (parsed_alone uuid json fit, serve_loop)
          (ground (arith, append-nil (to_string uuid json))))

  some_bytes :
      (uuid json : List ℕ) (more : List ℕ)
      → Fits max_size (uuid, json)
      → to_string uuid json ++ more ≢ []
  unfolding to_string
  some_bytes [] json more fit e = absurd (omega (arith, fit.0))
  some_bytes (b ∷ bs) json more fit e = cc

  -- Whole packets are answered one by one and in order, each under its own uuid, and nothing is held
  -- back. (Each has a uuid of 16 bytes and a json that a string can hold, and there is one at least.)
  pub on_message-packets :
      (r : List ℕ × List ℕ) (rs : List (List ℕ × List ℕ)) (h : Host)
      → All (Fits max_size) (r ∷ rs)
      → lookup client h.buf ≡ none
      → on_message max_size answer client (packets (r ∷ rs)) h
        ≡ opened (record h { actions = h.actions ++ answers client answer (r ∷ rs) })
  unfolding on_message then_receive
  on_message-packets (uuid, json) [] h fit absent =
      rw (append-nil (to_string uuid json)) (one_packet uuid json h fit.0 absent)
  on_message-packets (uuid, json) (r ∷ rs) h fit absent =
      on_message-append (to_string uuid json) (packets (r ∷ rs)) h
        (some_bytes r.0 r.1 (packets rs) fit.1.0)
      ∙ ap
          (then_receive (parse_request max_size client) (respond max_size answer client) client
            (packets (r ∷ rs)))
          (one_packet uuid json h fit.0 absent)
      ∙ on_message-packets r rs
          (record h { actions = h.actions ++ answers client answer ((uuid, json) ∷ []) }) fit.1
          absent
      ∙ ap (λ (t : List Action). opened (record h { actions = t })) (append_assoc h.actions _ _)

  -- The handler ends on every message.
  pub every_packet_ends :
      (message : List ℕ) (h : Host) → on_message max_size answer client message h ≢ stuck
  unfolding on_message
  every_packet_ends =
      receive-ne-stuck (parse_request max_size client) (respond max_size answer client)
        (parse_request-IsFraming max_size client) client
