-- ===== src/Tunnel.antt =====
-- Protocol/ITunnelLike.cpp and Protocol/Proxy.cpp: every client is paired with a connection to a
-- remote address, and bytes go through in both directions once that connection stands.
pub mod Pairs
pub mod Joins
pub mod Runs
pub mod Relay
mod Tests
use universe.Base.{
  ℕ, suc, ◌%◌, ◌^◌, List, [], ◌∷◌, ◌++◌, length, Bool, true, false, not, if◌then◌else◌, none, some,
  get_or,
}
use universe.Base.Maps.{lookup, insert, erase, nat_key}
use universe.Session.Host.{Action, wrote, closed}
use universe.StateMachine.Buffers.{Buffers, append_buf, need_buf, has_buf, get_buf}
use universe.StateMachine.States.{set_state, get_state, erase_state_buffer}

-- `B4CONNECT`, `CONNECT` and `CONNECTED`.
pub data ConnectState : Type 0 where
  b4connect connecting connected : ConnectState

pub data ConnectResult : Type 0 where
  ok ng game_over : ConnectResult

abbrev pub is_connected : ConnectState → Bool
is_connected connected = true
is_connected connecting = false
is_connected b4connect = false

abbrev pub is_b4connect : ConnectState → Bool
is_b4connect b4connect = true
is_b4connect connecting = false
is_b4connect connected = false

-- The object, with what it has called of `_server` so far, the newest last.
pub record Tunnel : Type 0 where
  pub states : List (ℕ × ConnectState)
  pub buf : Buffers
  pub c2r : List (ℕ × ℕ)
  pub r2c : List (ℕ × ℕ)
  pub rr_index : ℕ
  pub actions : List Action

-- `this->get_state(client)`
abbrev pub state_of : ℕ → Tunnel → ConnectState
state_of client t = (get_state b4connect client t.states).0

unfoldable pub register_pair_info : ℕ → ℕ → Tunnel → Tunnel
register_pair_info client remote t = record t {
  c2r = insert client remote t.c2r;
  r2c = insert remote client t.r2c;
}

unfoldable pub erase_client_info : ℕ → Tunnel → Tunnel
unfolding erase_state_buffer
erase_client_info client t =
    let (states, buf) = erase_state_buffer client (t.states, t.buf) in
    elim (lookup client t.c2r) [
      | some remote ↦ record t {
        states = states;
        buf = buf;
        r2c = erase remote t.r2c;
        c2r = erase client t.c2r;
      }
      | none ↦ record t { states = states; buf = buf }
    ]

-- `_c2r[client]`, which makes an entry of 0 where there is none.
unfoldable pub remote_of : ℕ → Tunnel → ℕ × Tunnel
remote_of client t = elim (lookup client t.c2r) [
  | some remote ↦ (remote, t)
  | none ↦ (0, record t { c2r = insert client 0 t.c2r })
]

unfoldable pub on_message : ℕ → List ℕ → Tunnel → Tunnel
unfolding remote_of
on_message client message t =
    let (found, whole, buf) = append_buf client message t.buf in
    let (buffered, buf') = need_buf client whole (not (is_connected (state_of client t))) buf in
    if buffered
    then record t { buf = buf' }
    else let (remote, t') = remote_of client (record t { buf = buf' }) in
      record t' { actions = t'.actions ++ (wrote remote whole ∷ []) }

unfoldable pub on_remote_message : ℕ → List ℕ → ℕ → Tunnel → Tunnel
on_remote_message remote message client t = record t {
  actions = t.actions ++ (wrote client message ∷ []);
}

-- `_server.close` calls back `on_close` here, which finds no entry.
unfoldable pub on_remote_close : ℕ → ℕ → Tunnel → Tunnel
unfolding erase_client_info
on_remote_close remote client t = elim (lookup client t.c2r) [
  | none ↦ t
  | some _ ↦
      let t' = erase_client_info client t in
      record t' { actions = t'.actions ++ (closed client ∷ []) }
]

-- `Proxy::on_remote_connect`
unfoldable pub on_remote_connect : ℕ → ConnectResult → ℕ → Tunnel → Tunnel
unfolding on_message erase_client_info
on_remote_connect remote ok client t =
    let t' : Tunnel = record t { states = set_state client connected t.states } in
    if has_buf client t'.buf
    then (let (held, buf) = get_buf client true t'.buf in
        on_message client held (record t' { buf = buf }))
    else t'
on_remote_connect remote ng client t =
    let t' = erase_client_info client t in
    record t' { actions = t'.actions ++ (closed client ∷ []) }
on_remote_connect remote game_over client t =
    let t' = erase_client_info client t in
    record t' { actions = t'.actions ++ (closed client ∷ []) }

-- `_server.close` calls back `on_remote_close`, which finds no entry, where the remote connection
-- stands, and `on_remote_connect` with GAME_OVER where it is being made.
unfoldable pub on_close : ℕ → Tunnel → Tunnel
unfolding erase_client_info on_remote_connect
on_close client t = elim (lookup client t.c2r) [
  | none ↦ t
  | some remote ↦
      let t' = erase_client_info client t in
      let u : Tunnel = record t' { actions = t'.actions ++ (closed remote ∷ []) } in
      if is_connected (state_of client t) then u else on_remote_connect remote game_over client u
]

-- What `_server.connect` does: it calls back with a failure and gives -1; it calls back with a
-- failure and still gives the socket that stood for the connection; it gives a socket that is
-- connecting; or, with `AF_UNIX`, it calls back with success before it gives the socket.
pub data Dial : Type 0 where
  refused : Dial
  failed_at : ℕ → Dial
  pending : ℕ → Dial
  at_once : ℕ → Dial

-- `Proxy::on_connect`. The index is an `unsigned int`, and `dial` is given the address's index.
unfoldable pub on_connect : ℕ → (ℕ → ℕ → Dial) → ℕ → Tunnel → Tunnel
unfolding register_pair_info on_remote_connect
on_connect addresses dial client t =
    let t' : Tunnel = record t {
      states = set_state client b4connect t.states;
      rr_index = suc t.rr_index % 2 ^ 32;
    } in
    elim (dial client (t.rr_index % addresses)) [
      | refused ↦ on_remote_connect 0 ng client t'
      | failed_at remote ↦
          let u = on_remote_connect remote ng client t' in
          register_pair_info client remote (
            if is_b4connect (state_of client u)
            then record u { states = set_state client connecting u.states }
            else u)
      | pending remote ↦ register_pair_info client remote (
          if is_b4connect (state_of client t')
          then record t' { states = set_state client connecting t'.states }
          else t')
      | at_once remote ↦
          let u = on_remote_connect remote ok client t' in
          register_pair_info client remote (
            if is_b4connect (state_of client u)
            then record u { states = set_state client connecting u.states }
            else u)
    ]
