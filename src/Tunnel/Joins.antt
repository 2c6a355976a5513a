-- ===== src/Tunnel/Joins.antt =====
-- `Proxy::on_connect` keeps the pairs of clients and remotes one to one.
use universe.Base.{
  ℕ, suc, ◌^◌, ◌%◌, ◌⊎◌, inl, inr, ◌≡◌, refl, sym, List, arith, ◌==◌, false, none, some, Option,
  Bool, true, ap, Option-cases, Bool-cases, subst, if◌then◌else◌,
}
use universe.Base.Maps.{
  lookup, insert, erase, contains, lookup-insert, lookup-erase, lookup-erase_self, nat_key,
}
use universe.StateMachine.States.{set_state, get_state, erase_state, erase_state_buffer}
use universe.StateMachine.Buffers.{has_buf}
use universe.Tunnel.Pairs.{IsPaired, IsSound, IsPaired-insert, IsSound-closing}
use universe.Tunnel.Relay.{on_message-waiting, on_message-paired, on_message-unpaired}
use universe.Tunnel.{
  Tunnel, ConnectState, b4connect, connecting, is_connected, is_b4connect, state_of, connected, ok,
  Dial, refused, failed_at, ng, erase_client_info, pending, at_once, register_pair_info, on_connect,
  on_message, on_remote_connect,
}

-- `u` differs from `t` only in the state of the client and in what the client is paired with.
pub record Elsewhere (client : ℕ) (s : ConnectState) (t u : Tunnel) : Type 0 where
  pub states : (c : ℕ) → lookup c u.states ≡ (if client == c then some s else lookup c t.states)
  pub pairs : (c : ℕ) → (client == c) ≡ false → lookup c u.c2r ≡ lookup c t.c2r
  pub inverse : u.r2c ≡ t.r2c

IsSound-register_pair_info :
    (client remote : ℕ) (s : ConnectState) (t u : Tunnel)
    → IsSound t
    → lookup client t.c2r ≡ none
    → lookup remote t.r2c ≡ none
    → Elsewhere client s t u
    → IsSound (register_pair_info client remote u)
unfolding register_pair_info IsPaired
IsSound-register_pair_info client remote s t u h new_client new_remote e = record {
  paired = λ c r.
      let p = IsPaired-insert client remote t.c2r t.r2c new_client new_remote h.paired c r in
      rw e.inverse (
        ground (
          arith,
          e.pairs c,
          lookup-insert client c remote u.c2r,
          lookup-insert client c remote t.c2r,
        ));
  remote_known = λ c k.
      let j = h.remote_known c in
      ground (arith, e.states c, e.pairs c, lookup-insert client c remote u.c2r);
}

-- The client as `on_connect` begins.
abbrev accepted : ℕ → Tunnel → Tunnel
accepted client t = record t {
  states = set_state client b4connect t.states;
  rr_index = suc t.rr_index % 2 ^ 32;
}

IsSound-accepted : (client : ℕ) (t : Tunnel) → IsSound t → IsSound (accepted client t)
unfolding set_state
IsSound-accepted client t h = record {
  paired = h.paired;
  remote_known =
      λ c e. let k = h.remote_known c in ground (arith, lookup-insert client c b4connect t.states);
}

Elsewhere-set_state :
    (client : ℕ) (s s' : ConnectState) (t u : Tunnel) (buf : List (ℕ × List ℕ))
    → Elsewhere client s t u
    → Elsewhere client s' t (record u { states = set_state client s' u.states; buf = buf })
unfolding set_state
Elsewhere-set_state client s s' t u buf e = record {
  states = λ c. ground (arith, e.states c, lookup-insert client c s' u.states);
  pairs = e.pairs;
  inverse = e.inverse;
}

Elsewhere-accepted : (client : ℕ) (t : Tunnel) → Elsewhere client b4connect t (accepted client t)
unfolding set_state
Elsewhere-accepted client t = record {
  states = λ c. lookup-insert client c b4connect t.states;
  pairs = λ c _. refl;
  inverse = refl;
}

Elsewhere-settled :
    (client : ℕ) (s : ConnectState) (t u : Tunnel)
    → Elsewhere client s t u
    → (s' : ConnectState) × Elsewhere client s' t (
        if is_b4connect (state_of client u)
        then record u { states = set_state client connecting u.states }
        else u)
Elsewhere-settled client s t u e = elim (Bool-cases (is_b4connect (state_of client u))) [
  | inl k ↦ (connecting, rw k (Elsewhere-set_state client s connecting t u u.buf e))
  | inr k ↦ (s, rw k e)
]

Elsewhere-on_message :
    (client : ℕ) (message : List ℕ) (s : ConnectState) (t u : Tunnel)
    → Elsewhere client s t u
    → Elsewhere client s t (on_message client message u)
Elsewhere-on_message client message s t u e = elim (Bool-cases (is_connected (state_of client u))) [
  | inr waiting ↦
      subst (Elsewhere client s t) (sym (on_message-waiting client message u waiting))
        (record { states = e.states; pairs = e.pairs; inverse = e.inverse })
  | inl open_now ↦ elim (Option-cases (lookup client u.c2r)) [
    | inl absent ↦
        subst (Elsewhere client s t) (sym (on_message-unpaired client message u open_now absent))
          (record {
            states = e.states;
            pairs = λ c k. ground (arith, e.pairs c, lookup-insert client c 0 u.c2r);
            inverse = e.inverse;
          })
    | inr (remote, found) ↦
        subst (Elsewhere client s t)
          (sym (on_message-paired client remote message u open_now found))
          (record { states = e.states; pairs = e.pairs; inverse = e.inverse })
  ]
]

Elsewhere-on_remote_connect :
    (client remote : ℕ) (s : ConnectState) (t u : Tunnel)
    → Elsewhere client s t u
    → Elsewhere client connected t (on_remote_connect remote ok client u)
unfolding on_remote_connect has_buf contains
Elsewhere-on_remote_connect client remote s t u e = elim (Option-cases (lookup client u.buf)) [
  | inl nothing ↦ rw (nothing, contains) (Elsewhere-set_state client s connected t u u.buf e)
  | inr (held, k) ↦
      rw (k, contains)
        (Elsewhere-on_message client _ connected t _
          (Elsewhere-set_state client s connected t u _ e))
]

state_of-absent :
    (client : ℕ) (t : Tunnel)
    → lookup client t.states ≡ none
    → is_b4connect (state_of client t) ≡ true
state_of-absent client t absent =
    unfold get_state in
    ap
      (λ (m : Option ConnectState).
        let p : ConnectState × Bool = elim m [ some s ↦ (s, true) | none ↦ (b4connect, false) ] in
        is_b4connect p.0)
      absent

Elsewhere-made_again :
    (client : ℕ) (t u : Tunnel)
    → lookup client u.states ≡ none
    → Elsewhere client connecting t (record u { states = set_state client connecting u.states })
    → Elsewhere client connecting t (
        if is_b4connect (state_of client u)
        then record u { states = set_state client connecting u.states }
        else u)
Elsewhere-made_again client t u absent e = rw (state_of-absent client u absent) e

-- A connection that fails at once: the state is erased, and made again.
Elsewhere-failed :
    (client remote : ℕ) (t : Tunnel)
    → lookup client t.c2r ≡ none
    → let u = on_remote_connect remote ng client (accepted client t) in
      Elsewhere client connecting t (
        if is_b4connect (state_of client u)
        then record u { states = set_state client connecting u.states }
        else u)
unfolding on_remote_connect erase_client_info erase_state_buffer erase_state set_state
Elsewhere-failed client remote t new_client =
    rw (new_client, erase_client_info)
      (Elsewhere-made_again client t _ (lookup-erase_self client (insert client b4connect t.states))
        (record {
          states = λ c. ground (
            arith,
            lookup-insert client c connecting (erase client (insert client b4connect t.states)),
            lookup-erase client c (insert client b4connect t.states),
            lookup-insert client c b4connect t.states,
          );
          pairs = λ c _. refl;
          inverse = refl;
        }))

pub IsSound-on_connect :
    (addresses client remote : ℕ) (dial : ℕ → ℕ → Dial) (t : Tunnel)
    → lookup client t.c2r ≡ none
    → lookup remote t.r2c ≡ none
    → (dial client (t.rr_index % addresses) ≡ refused)
      ⊎ (dial client (t.rr_index % addresses) ≡ pending remote)
      ⊎ (dial client (t.rr_index % addresses) ≡ at_once remote)
      ⊎ (dial client (t.rr_index % addresses) ≡ failed_at remote)
    → IsSound t
    → IsSound (on_connect addresses dial client t)
unfolding on_connect
IsSound-on_connect addresses client remote dial t new_client new_remote (inl e) h =
    rw (e, on_connect)
      (unfold on_remote_connect in
        IsSound-closing client client (accepted client t) (IsSound-accepted client t h))
IsSound-on_connect addresses client remote dial t new_client new_remote (inr (inl e)) h =
    let (s, k) =
      Elsewhere-settled client b4connect t (accepted client t) (Elsewhere-accepted client t) in
    rw (e, on_connect) (IsSound-register_pair_info client remote s t _ h new_client new_remote k)
IsSound-on_connect addresses client remote dial t new_client new_remote (inr (inr (inl e))) h =
    let (s, k) = Elsewhere-settled client connected t _ (
      Elsewhere-on_remote_connect client remote b4connect t (accepted client t)
        (Elsewhere-accepted client t)) in
    rw (e, on_connect) (IsSound-register_pair_info client remote s t _ h new_client new_remote k)
IsSound-on_connect addresses client remote dial t new_client new_remote (inr (inr (inr e))) h =
    rw (e, on_connect)
      (IsSound-register_pair_info client remote connecting t _ h new_client new_remote
        (Elsewhere-failed client remote t new_client))
