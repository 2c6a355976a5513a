-- ===== src/WebSocket.antt =====
-- Protocol/WebSocket.h and Protocol/WebSocket.cpp: the server side of a WebSocket connection.
pub mod Frames
pub mod Masks
pub mod Framing
pub mod Delivery
mod Tests
use Prim.Native.Nat.{bit_xor}
use universe.Base.{
  ℕ, zero, suc, ◌+◌, ◌*◌, ◌/◌, ◌%◌, ◌==◌, ltb, leb, Bool, true, false, not, if◌then◌else◌, List, [],
  ◌∷◌, ◌++◌, length, take, Option, none, some, codes, get_or,
}
use universe.Base.Maps.{lookup, nat_key}
use universe.Base.Text.{pos, bytes_key}
use universe.Reader.{
  Reader, Result, R, ok, throw, ng, ag, fatal, spent, open_reader, at_end, pure, ◌>>=◌, ◌>>◌,
  read_size, read_byte, read_network, resize,
}
use universe.Reader.Fuel.{with_fuel}
use universe.Reader.Words.{network_bytes}
use universe.Session.{Exit, stay, leave, throws}
use universe.Session.Host.{Action, wrote, closed, Host, Session, opened, shut, dead, stuck, receive}
use universe.StateMachine.Buffers.{Buffers, append_buf, need_buf, erase_buf}
use universe.StateMachine.States.{set_state, get_state, erase_state_buffer}
use universe.Http
use universe.Http.{HttpRequest, HttpResponse}

-- `HANDSHAKE` and `OPEN`.
pub data WebSocketState : Type 0 where
  handshake : WebSocketState
  upgraded : WebSocketState

pub record WebSocketMessage : Type 0 where
  pub client : ℕ
  pub opcode : ℕ
  pub payload : List ℕ

-- `payload[i] ^ mask_value[i % 4]` from index `i` on.
unfoldable pub unmask : ℕ → List ℕ → List ℕ → List ℕ
unmask i mask_value [] = []
unmask i mask_value (p ∷ ps) =
    bit_xor p (get_or mask_value (i % 4) 0) ∷ unmask (i + 1) mask_value ps

-- The length that follows the seven bits of the second byte.
unfoldable pub payload_length : ℕ → R ℕ
payload_length payload_len = elim (payload_len == 0x7e) [
  | true ↦ read_network 2
  | false ↦ elim (payload_len == 0x7f) [ true ↦ read_network 8 | false ↦ pure payload_len ]
]

unfoldable pub mask_key : ℕ → R (List ℕ)
mask_key mask = elim (mask == 0) [ true ↦ pure [] | false ↦ read_size 4 ]

-- One frame: `fin`, the opcode and the payload. `string payload(payload_len, 0)` may throw.
unfoldable pub read_frame : ℕ → R (ℕ × ℕ × List ℕ)
read_frame max_size = do
  first_byte ← read_byte
  second_byte ← read_byte
  payload_len ← payload_length (second_byte % 128)
  mask_value ← mask_key (second_byte / 128)
  resize max_size payload_len
  payload ← read_size payload_len
  pure (
    first_byte / 128,
    first_byte % 16,
    if second_byte / 128 == 0 then payload else unmask 0 mask_value payload,
  )

-- `do { … m.payload += payload; } while (!fin)`, from what the message is so far.
unfoldable pub frames_loop : ℕ → ℕ → WebSocketMessage → R WebSocketMessage
frames_loop max_size zero m = λ s. spent
frames_loop max_size (suc fuel) m = do
  (fin, opcode, payload) ← read_frame max_size
  elim (fin == 0) [
    | true ↦ frames_loop max_size fuel (record m { payload = m.payload ++ payload })
    | false ↦ pure (record m { payload = m.payload ++ payload })
  ]

-- The first frame gives the opcode.
unfoldable pub parse_message_loop : ℕ → ℕ → ℕ → R WebSocketMessage
parse_message_loop max_size client fuel = do
  (fin, opcode, payload) ← read_frame max_size
  elim (fin == 0) [
    | true ↦
        frames_loop max_size fuel (record { client = client; opcode = opcode; payload = payload })
    | false ↦ pure (record { client = client; opcode = opcode; payload = payload })
  ]

-- The part of `WebSocket::on_message` from `PARSE_MESSAGE` to the end of the loop over frames.
unfoldable pub parse_message : ℕ → ℕ → R WebSocketMessage
parse_message max_size client = with_fuel (parse_message_loop max_size client)

abbrev pub close_normal : ℕ
close_normal = 1000

abbrev pub close_protocol_error : ℕ
close_protocol_error = 1002

-- The bytes that `WebSocket::send` writes. `fin` is 0 or 1, and the first byte is a `uint8_t`.
unfoldable pub frame : ℕ → ℕ → List ℕ → List ℕ
frame fin opcode payload =
    let payload_len = length payload in
    (fin * 128 + opcode) % 256
    ∷ ((if ltb 0xffff payload_len
          then 0x7f ∷ network_bytes 8 payload_len
          else if ltb 0x7d payload_len
          then 0x7e ∷ network_bytes 2 payload_len
          else payload_len ∷ [])
        ++ payload)

-- `WebSocket::send`, `WebSocket::pong`, and the frame that `WebSocket::close` sends: the code goes out
-- as it lies in memory on a little-endian machine.
unfoldable pub send : ℕ → List ℕ → ℕ → ℕ → Action
unfolding frame
send client payload opcode fin = wrote client (frame fin opcode payload)

unfoldable pub pong : ℕ → List ℕ → Action
unfolding send
pong client payload = send client payload 0xa 1

unfoldable pub close_frame : ℕ → ℕ → List ℕ → Action
unfolding send
close_frame client code reason = send client (code % 256 ∷ code / 256 % 256 ∷ reason) 0x8 1

-- `m.payload.length() >= 2 ? *(uint16_t*)&m.payload[0] : CLOSE_NORMAL`
unfoldable pub close_code : List ℕ → ℕ
close_code [] = close_normal
close_code (a ∷ []) = close_normal
close_code (a ∷ b ∷ rest) = a + b * 256

-- `switch (m.opcode)`. Leaving the loop goes with `_scheduler.close(client)`.
unfoldable pub dispatch : ℕ → WebSocketMessage → List Action × Exit
unfolding close_frame pong close_code
dispatch client m =
    if m.opcode == 0x1
    then ([], stay)
    else if m.opcode == 0x2
    then ([], stay)
    else if m.opcode == 0x8
    then (close_frame client (close_code m.payload) (codes "OPCODE_CONNECTION_CLOSE") ∷ [], leave)
    else if m.opcode == 0x9
    then (pong client m.payload ∷ [], stay)
    else if m.opcode == 0xa
    then ([], stay)
    else (close_frame client close_protocol_error (codes "unkown opcode") ∷ [], leave)

-- `on_msg` stands for the callbacks of `ON_MESSAGE`, which take the message by reference: what they
-- make of it, and what they write. They do not close the connection or touch the buffers.
module _ (max_size : ℕ) (on_msg : WebSocketMessage → WebSocketMessage × List Action) where
  unfoldable pub respond : ℕ → WebSocketMessage → List Action → List Action × Exit
  unfolding dispatch
  respond client m acts =
      let (m', written) = on_msg m in
      let (more, exit) = dispatch client m' in (acts ++ (written ++ more), exit)

  -- The case `WebSocketState::OPEN` of `on_message`.
  unfoldable pub on_open_message : ℕ → List ℕ → Host → Session
  on_open_message client message h =
      receive (parse_message max_size client) (respond client) client message h

-- The protocol object: the states of the connections beside the buffers and the actions.
pub record WebSocketHost : Type 0 where
  pub states : List (ℕ × WebSocketState)
  pub host : Host

-- What becomes of the process.
pub data Run : Type 0 where
  runs : WebSocketHost → Run
  dies : List Action → Run
  spins : Run

-- `_scheduler.close(client)`, whose callback is `on_close`: `erase_state_buffer(client)`.
unfoldable pub close : ℕ → WebSocketHost → WebSocketHost
unfolding erase_state_buffer
close client w =
    let (states, buf) = erase_state_buffer client (w.states, w.host.buf) in
    record {
      states = states;
      host = record { buf = buf; actions = w.host.actions ++ (closed client ∷ []) };
    }

unfoldable pub on_connect : ℕ → WebSocketHost → WebSocketHost
on_connect client w = record w { states = set_state client handshake w.states }

abbrev pub guid : List ℕ
guid = codes "258EAFA5-E914-47DA-95CA-C5AB0DC85B11"

-- The response to a handshake, for the value of `Sec-WebSocket-Accept`.
unfoldable pub switching : List ℕ → HttpResponse
switching accept = record {
  status_code = pos 101;
  reason_phrase = codes "Switching Protocols";
  headers =
      (codes "Upgrade", codes "websocket")
      ∷ (codes "Connection", codes "Upgrade")
      ∷ (codes "Sec-WebSocket-Accept", accept)
      ∷ (codes "Sec-WebSocket-Version", codes "13")
      ∷ [];
  body = [];
  http_version = codes "HTTP/1.1";
}

-- `sha1` is `Utils::sha1`, that is OpenSSL's SHA1; `encode` is `Base64::encode`, which
-- gives a string for the twenty bytes of a digest.
module _ (max_size : ℕ) (sha1 encode : List ℕ → List ℕ)
    (on_msg : WebSocketMessage → WebSocketMessage × List Action) where
  -- The case `WebSocketState::HANDSHAKE`, behind a request that was parsed.
  unfoldable pub upgrade : ℕ → HttpRequest → Reader → WebSocketHost → WebSocketHost
  unfolding switching
  upgrade client r s w = elim (lookup (codes "Sec-WebSocket-Key") r.headers) [
    | none ↦ close client w
    | some key ↦
        let output = Http.to_string (switching (encode (sha1 (key ++ guid)))) in
        let w' : WebSocketHost = record {
          states = set_state client upgraded w.states;
          host = record {
            buf = w.host.buf;
            actions = w.host.actions ++ (wrote client output ∷ []);
          };
        } in
        if not (at_end s) then close client w' else w'
  ]

  unfoldable pub on_handshake_message : ℕ → List ℕ → WebSocketHost → Run
  unfolding upgrade
  on_handshake_message client message w =
      let (found, whole, buf) = append_buf client message w.host.buf in
      let w' : WebSocketHost = record {
        states = w.states;
        host = record { buf = buf; actions = w.host.actions };
      } in
      elim (Http.parse_request max_size client (open_reader whole)) [
        | ok (r, s) ↦ runs (upgrade client r s w')
        | throw ag ↦ runs (record w' {
          host = record { buf = (need_buf client whole true buf).1; actions = w.host.actions };
        })
        | throw ng ↦ runs (close client w')
        | fatal ↦ dies w.host.actions
        | spent ↦ spins
      ]

  -- A session that was shut has lost its buffer already; the state goes with it.
  unfoldable pub settle_open : ℕ → WebSocketHost → Session → Run
  settle_open client w (opened h) = runs (record w { host = h })
  settle_open client w (shut h) =
      runs (record { states = (erase_state_buffer client (w.states, h.buf)).0; host = h })
  settle_open client w (dead acts) = dies acts
  settle_open client w stuck = spins

  unfoldable pub on_message : ℕ → List ℕ → WebSocketHost → Run
  unfolding on_handshake_message settle_open
  on_message client message w = elim (get_state handshake client w.states).0 [
    | handshake ↦ on_handshake_message client message w
    | upgraded ↦ settle_open client w (on_open_message max_size on_msg client message w.host)
  ]

unfoldable pub on_close : ℕ → WebSocketHost → WebSocketHost
on_close client w =
    let (states, buf) = erase_state_buffer client (w.states, w.host.buf) in
    record { states = states; host = record { buf = buf; actions = w.host.actions } }
