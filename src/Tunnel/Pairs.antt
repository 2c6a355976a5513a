-- ===== src/Tunnel/Pairs.antt =====
-- The pairs of clients and remotes stay one to one.
use universe.Base.{
  ℕ, inl, inr, ◌≢◌, ◌≡◌, refl, sym, List, [], ◌∷◌, ◌++◌, arith, ◌↔◌, true, false, none, some,
  Option, Bool, Option-cases, Bool-cases, subst,
}
use universe.Base.Maps.{lookup, insert, erase, contains, lookup-insert, lookup-erase, nat_key}
use universe.StateMachine.States.{erase_state_buffer, erase_state, set_state, get_state}
use universe.StateMachine.Buffers.{has_buf}
use universe.Session.Host.{closed}
use universe.Tunnel.Relay.{on_message-waiting, on_message-paired}
use universe.Tunnel.{
  Tunnel, ConnectState, b4connect, connecting, is_connected, state_of, connected, ConnectResult, ok,
  ng, game_over, erase_client_info, on_message, on_close, on_remote_connect, on_remote_close,
}

-- `_r2c` is the inverse of `_c2r`.
unfoldable pub IsPaired : List (ℕ × ℕ) → List (ℕ × ℕ) → Type 0
IsPaired c2r r2c =
    (client remote : ℕ) → (lookup client c2r ≡ some remote) ↔ (lookup remote r2c ≡ some client)

pub IsPaired-insert :
    (client remote : ℕ) (c2r r2c : List (ℕ × ℕ))
    → lookup client c2r ≡ none
    → lookup remote r2c ≡ none
    → IsPaired c2r r2c
    → IsPaired (insert client remote c2r) (insert remote client r2c)
unfolding IsPaired
IsPaired-insert client remote c2r r2c new_client new_remote h c r =
    let p = h c r in
    ground (arith, lookup-insert client c remote c2r, lookup-insert remote r client r2c)

pub IsPaired-erase :
    (client remote : ℕ) (c2r r2c : List (ℕ × ℕ))
    → lookup client c2r ≡ some remote
    → IsPaired c2r r2c
    → IsPaired (erase client c2r) (erase remote r2c)
unfolding IsPaired
IsPaired-erase client remote c2r r2c paired h c r =
    let p = h c r in
    let q = h c remote in
    let q' = h client r in
    let q'' = h client remote in
    ground (arith, lookup-erase client c c2r, lookup-erase remote r r2c)

-- The maps are inverse to each other, and a connected client is paired.
pub record IsSound (t : Tunnel) : Type 0 where
  pub paired : IsPaired t.c2r t.r2c
  pub remote_known :
      (client : ℕ) → lookup client t.states ≡ some connected → lookup client t.c2r ≢ none

connected_state :
    (client : ℕ) (t : Tunnel)
    → is_connected (state_of client t) ≡ true
    → lookup client t.states ≡ some connected
connected_state client t h = go (lookup client t.states) (unfold get_state in h)
  where
    go :
        (m : Option ConnectState)
        → (let p : ConnectState × Bool = elim m [
          | some s ↦ (s, true)
          | none ↦ (b4connect, false)
        ] in
            is_connected p.0)
          ≡ true
        → m ≡ some connected
    go (some connected) k = refl
    go (some connecting) k = cc
    go (some b4connect) k = cc
    go none k = cc

pub IsSound-on_message :
    (client : ℕ) (message : List ℕ) (t : Tunnel) → IsSound t → IsSound (on_message client message t)
IsSound-on_message client message t h = elim (Bool-cases (is_connected (state_of client t))) [
  | inr waiting ↦
      subst IsSound (sym (on_message-waiting client message t waiting))
        (record { paired = h.paired; remote_known = h.remote_known })
  | inl open_now ↦ elim (Option-cases (lookup client t.c2r)) [
    | inl absent ↦ absurd (h.remote_known client (connected_state client t open_now) absent)
    | inr (remote, found) ↦
        subst IsSound (sym (on_message-paired client remote message t open_now found))
          (record { paired = h.paired; remote_known = h.remote_known })
  ]
]

IsSound-erase_client_info :
    (client : ℕ) (t : Tunnel) → IsSound t → IsSound (erase_client_info client t)
unfolding erase_client_info erase_state_buffer erase_state
IsSound-erase_client_info client t h = elim (Option-cases (lookup client t.c2r)) [
  | inl absent ↦
      rw (absent, erase_client_info)
        (record {
          paired = h.paired;
          remote_known =
              λ c e. let k = h.remote_known c in ground (arith, lookup-erase client c t.states);
        })
  | inr (remote, found) ↦
      rw (found, erase_client_info)
        (record {
          paired = IsPaired-erase client remote t.c2r t.r2c found h.paired;
          remote_known = λ c e.
              let k = h.remote_known c in
              ground (arith, lookup-erase client c t.states, lookup-erase client c t.c2r);
        })
]

-- A paired client may be set to any state, and its buffer to any bytes.
pub IsSound-set_state :
    (client remote : ℕ) (s : ConnectState) (t : Tunnel) (buf : List (ℕ × List ℕ))
    → IsSound t
    → lookup client t.c2r ≡ some remote
    → IsSound (record t { states = set_state client s t.states; buf = buf })
unfolding set_state
IsSound-set_state client remote s t buf h found = record {
  paired = h.paired;
  remote_known =
      λ c e. let k = h.remote_known c in ground (arith, lookup-insert client c s t.states);
}

pub IsSound-closing :
    (client fd : ℕ) (t : Tunnel)
    → IsSound t
    → IsSound (
        let t' = erase_client_info client t in
        record t' { actions = t'.actions ++ (closed fd ∷ []) })
IsSound-closing client fd t h =
    let k = IsSound-erase_client_info client t h in
    record { paired = k.paired; remote_known = k.remote_known }

pub IsSound-on_remote_connect :
    (remote client other : ℕ) (r : ConnectResult) (t : Tunnel)
    → IsSound t
    → lookup client t.c2r ≡ some other
    → IsSound (on_remote_connect remote r client t)
unfolding on_remote_connect has_buf contains
IsSound-on_remote_connect remote client other ok t h found =
    elim (Option-cases (lookup client t.buf)) [
      | inl nothing ↦
          rw (nothing, contains) (IsSound-set_state client other connected t t.buf h found)
      | inr (held, e) ↦
          rw (e, contains)
            (IsSound-on_message client _ _ (IsSound-set_state client other connected t _ h found))
    ]
IsSound-on_remote_connect remote client other ng t h found = IsSound-closing client client t h
IsSound-on_remote_connect remote client other game_over t h found =
    IsSound-closing client client t h

pub IsSound-on_close : (client : ℕ) (t : Tunnel) → IsSound t → IsSound (on_close client t)
unfolding on_close
IsSound-on_close client t h = elim (Option-cases (lookup client t.c2r)) [
  | inl absent ↦ rw (absent, on_close) h
  | inr (remote, found) ↦
      let k = IsSound-closing client remote t h in
      rw (found, on_close)
        (elim (Bool-cases (is_connected (state_of client t))) [
          | inl up ↦ rw up k
          | inr down ↦ rw down (unfold on_remote_connect in IsSound-closing client client _ k)
        ])
]

pub IsSound-on_remote_close :
    (remote client : ℕ) (t : Tunnel) → IsSound t → IsSound (on_remote_close remote client t)
unfolding on_remote_close
IsSound-on_remote_close remote client t h = elim (Option-cases (lookup client t.c2r)) [
  | inl absent ↦ rw (absent, on_remote_close) h
  | inr (other, found) ↦ rw (found, on_remote_close) (IsSound-closing client client t h)
]
