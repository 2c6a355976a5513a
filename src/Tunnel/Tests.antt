-- ===== src/Tunnel/Tests.antt =====
-- The proxy at concrete values.
use universe.Base.{ℕ, ◌≡◌, refl, [], ◌∷◌, inr, inl, false, none, some}
use universe.Base.Maps.{lookup, nat_key}
use universe.Session.Host.{wrote}
use universe.StateMachine.States.{get_state}
use universe.Tunnel.{
  Tunnel, Dial, pending, connecting, ok, is_connected, state_of, on_connect, on_message,
  on_remote_connect,
}
use universe.Tunnel.Relay.{on_messages, on_messages-on_remote_connect}
use universe.Tunnel.Runs.{Reachable, start, next, connects, says, empty_tunnel, Reachable-IsSound}
use universe.Tunnel.Pairs.{IsSound}

abbrev dial_nine : ℕ → ℕ → Dial
dial_nine client index = pending 9

abbrev one_client : Tunnel
one_client = on_message 4 (1 ∷ []) (on_connect 2 dial_nine 4 empty_tunnel)

one_client_reachable : Reachable 2 one_client
unfolding lookup
one_client_reachable =
    next _ _ (next _ _ start (connects 4 9 dial_nine empty_tunnel refl refl (inr (inl refl))))
      (says 4 (1 ∷ []) _)

Reachable-IsSound_example : IsSound one_client
Reachable-IsSound_example = Reachable-IsSound 2 one_client one_client_reachable

abbrev waiting_client : Tunnel
waiting_client = record {
  states = (4, connecting) ∷ [];
  buf = [];
  c2r = (4, 9) ∷ [];
  r2c = (9, 4) ∷ [];
  rr_index = 1;
  actions = [];
}

waiting_client_waits :
    (is_connected (state_of 4 waiting_client) ≡ false)
    × (lookup 4 waiting_client.c2r ≡ some 9)
    × (lookup 4 waiting_client.buf ≡ none)
unfolding get_state lookup
waiting_client_waits = (refl, refl, refl)

on_messages-on_remote_connect_example :
    (on_messages 4
      ((3 ∷ []) ∷ [])
      (on_remote_connect 9 ok 4 (on_messages 4 ((1 ∷ []) ∷ (2 ∷ []) ∷ []) waiting_client))).actions
    ≡ wrote 9 (1 ∷ 2 ∷ []) ∷ wrote 9 (3 ∷ []) ∷ []
on_messages-on_remote_connect_example =
    on_messages-on_remote_connect 4 9 9 (1 ∷ []) ((2 ∷ []) ∷ []) ((3 ∷ []) ∷ []) waiting_client
      waiting_client_waits.0 waiting_client_waits.1 waiting_client_waits.2
