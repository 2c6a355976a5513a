-- ===== src/Tunnel/Relay.antt =====
-- What a client sends goes to its remote in order, whenever the remote connection is made.
use universe.Base.{
  ℕ, ◌≡◌, refl, sym, ap, ◌∙◌, List, [], ◌∷◌, ◌++◌, append-nil, append_assoc, flatten, true, false,
  Bool, Option, none, some,
}
use universe.Base.Maps.{
  lookup, insert, erase, contains, lookup-insert_self, lookup-erase_self, nat_key,
}
use universe.Session.Host.{Action, wrote}
use universe.StateMachine.Buffers.{
  append_buf, need_buf, append_buf_held, append_buf-none, has_buf, get_buf,
}
use universe.StateMachine.States.{get_state, set_state}
use universe.Tunnel.{
  Tunnel, ConnectState, b4connect, connected, ok, is_connected, remote_of, state_of, on_message,
  on_remote_connect,
}

-- The messages of one client in turn.
unfoldable pub on_messages : ℕ → List (List ℕ) → Tunnel → Tunnel
on_messages client [] t = t
on_messages client (m ∷ ms) t = on_messages client ms (on_message client m t)

-- The writes of some messages to one socket.
abbrev pub written : ℕ → List (List ℕ) → List Action
written remote [] = []
written remote (m ∷ ms) = wrote remote m ∷ written remote ms

pub on_message-paired :
    (client remote : ℕ) (message : List ℕ) (t : Tunnel)
    → is_connected (state_of client t) ≡ true
    → lookup client t.c2r ≡ some remote
    → on_message client message t ≡ record t {
      buf = (append_buf client message t.buf).2;
      actions = t.actions ++ (wrote remote (append_buf client message t.buf).1 ∷ []);
    }
unfolding on_message need_buf remote_of
on_message-paired client remote message t state paired =
    rw (state, need_buf) (rw (paired, remote_of) refl)

-- `_c2r[client]` makes an entry of 0.
pub on_message-unpaired :
    (client : ℕ) (message : List ℕ) (t : Tunnel)
    → is_connected (state_of client t) ≡ true
    → lookup client t.c2r ≡ none
    → on_message client message t ≡ record t {
      c2r = insert client 0 t.c2r;
      buf = (append_buf client message t.buf).2;
      actions = t.actions ++ (wrote 0 (append_buf client message t.buf).1 ∷ []);
    }
unfolding on_message need_buf remote_of
on_message-unpaired client message t state absent =
    rw (state, need_buf) (rw (absent, remote_of) refl)

state_of-connected :
    (client : ℕ) (t : Tunnel)
    → lookup client t.states ≡ some connected
    → is_connected (state_of client t) ≡ true
state_of-connected client t state =
    unfold get_state in
    ap
      (λ (m : Option ConnectState).
        let p : ConnectState × Bool = elim m [ some s ↦ (s, true) | none ↦ (b4connect, false) ] in
        is_connected p.0)
      state

on_message-connected :
    (client remote : ℕ) (message : List ℕ) (t : Tunnel)
    → lookup client t.states ≡ some connected
    → lookup client t.c2r ≡ some remote
    → lookup client t.buf ≡ none
    → on_message client message t ≡ record t { actions = t.actions ++ (wrote remote message ∷ []) }
on_message-connected client remote message t state paired empty =
    on_message-paired client remote message t (state_of-connected client t state) paired
    ∙ rw (append_buf-none client message t.buf empty) refl

pub on_message-waiting :
    (client : ℕ) (message : List ℕ) (t : Tunnel)
    → is_connected (state_of client t) ≡ false
    → on_message client message t ≡ record t {
      buf = insert client (append_buf client message t.buf).1 (append_buf client message t.buf).2;
    }
unfolding on_message need_buf
on_message-waiting client message t waiting = rw (waiting, need_buf) refl

-- The messages before the connection stands come to one string in the buffer.
on_messages-waiting :
    (client : ℕ) (held : List ℕ) (ms : List (List ℕ)) (t : Tunnel)
    → is_connected (state_of client t) ≡ false
    → lookup client t.buf ≡ some held
    → (b : List (ℕ × List ℕ)) × (on_messages client ms t ≡ record t { buf = b })
      × (lookup client b ≡ some (held ++ flatten ms))
unfolding on_messages
on_messages-waiting client held [] t waiting some_held =
    (t.buf, refl, some_held ∙ ap some (sym (append-nil held)))
on_messages-waiting client held (m ∷ ms) t waiting some_held =
    let u : Tunnel = record t { buf = insert client (held ++ m) (erase client t.buf) } in
    let step : on_message client m t ≡ u =
      on_message-waiting client m t waiting
      ∙ rw (append_buf_held client held m t.buf some_held) refl in
    let (b, e, f) =
      on_messages-waiting client (held ++ m) ms u waiting
        (lookup-insert_self client (held ++ m) (erase client t.buf)) in
    (b, ap (on_messages client ms) step ∙ e, f ∙ ap some (append_assoc held m (flatten ms)))

on_messages-connected :
    (client remote : ℕ) (ms : List (List ℕ)) (t : Tunnel)
    → lookup client t.states ≡ some connected
    → lookup client t.c2r ≡ some remote
    → lookup client t.buf ≡ none
    → (on_messages client ms t).actions ≡ t.actions ++ written remote ms
unfolding on_messages
on_messages-connected client remote [] t state paired empty = sym (append-nil t.actions)
on_messages-connected client remote (m ∷ ms) t state paired empty =
    ap (λ (x : Tunnel). (on_messages client ms x).actions)
      (on_message-connected client remote m t state paired empty)
    ∙ (on_messages-connected client remote ms
          (record t { actions = t.actions ++ (wrote remote m ∷ []) }) state paired empty
        ∙ append_assoc t.actions (wrote remote m ∷ []) (written remote ms))

on_remote_connect-held :
    (client remote dialed : ℕ) (held : List ℕ) (t : Tunnel)
    → lookup client t.buf ≡ some held
    → lookup client t.c2r ≡ some remote
    → on_remote_connect dialed ok client t ≡ record t {
      states = set_state client connected t.states;
      buf = erase client t.buf;
      actions = t.actions ++ (wrote remote held ∷ []);
    }
unfolding on_remote_connect has_buf get_buf
on_remote_connect-held client remote dialed held t some_held paired =
    rw (some_held, on_remote_connect, has_buf, contains, get_buf)
      (on_message-connected client remote held
        (record t { states = set_state client connected t.states; buf = erase client t.buf })
        (unfold set_state in lookup-insert_self client connected t.states) paired
        (lookup-erase_self client t.buf))

-- Whatever a client sends while its remote connection is being made is written to the remote in one
-- piece once the connection stands, and what it sends after that is written behind it, message by
-- message, in the order of sending. (The client is paired and has sent one message at least.)
pub on_messages-on_remote_connect :
    (client remote dialed : ℕ) (first : List ℕ) (early later : List (List ℕ)) (t : Tunnel)
    → is_connected (state_of client t) ≡ false
    → lookup client t.c2r ≡ some remote
    → lookup client t.buf ≡ none
    → (on_messages client later
        (on_remote_connect dialed ok client (on_messages client (first ∷ early) t))).actions
      ≡ t.actions ++ (wrote remote (first ++ flatten early) ∷ written remote later)
unfolding on_messages
on_messages-on_remote_connect client remote dialed first early later t waiting paired empty =
    let u : Tunnel = record t { buf = insert client first t.buf } in
    let step : on_message client first t ≡ u =
      on_message-waiting client first t waiting
      ∙ rw (append_buf-none client first t.buf empty) refl in
    let (b, e, f) =
      on_messages-waiting client first early u waiting (lookup-insert_self client first t.buf) in
    let v : Tunnel = record u { buf = b } in
    let w : Tunnel = record v {
      states = set_state client connected t.states;
      buf = erase client b;
      actions = t.actions ++ (wrote remote (first ++ flatten early) ∷ []);
    } in
    ap
      (λ (x : Tunnel).
        (on_messages client later
          (on_remote_connect dialed ok client (on_messages client early x))).actions)
      step
    ∙ ap (λ (x : Tunnel). (on_messages client later (on_remote_connect dialed ok client x)).actions)
        e
    ∙ ap (λ (x : Tunnel). (on_messages client later x).actions)
        (on_remote_connect-held client remote dialed (first ++ flatten early) v f paired)
    ∙ on_messages-connected client remote later w
        (unfold set_state in lookup-insert_self client connected t.states) paired
        (lookup-erase_self client b)
    ∙ append_assoc t.actions (wrote remote (first ++ flatten early) ∷ []) (written remote later)
