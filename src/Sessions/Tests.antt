-- ===== src/Sessions/Tests.antt =====
-- Sessions at concrete values.
use universe.Base.{ℕ, ◌≡◌, refl, List, [], ◌∷◌, ◌++◌, true, false, some, none, ltb→lt}
use universe.Base.Maps.{lookup, nat_key}
use universe.Reader.Words.{network_bytes}
use universe.Tunnel.Pairs.{IsPaired}
use universe.Sessions.{Sessions, accept, unwatch, recv_session_id, get_session_id}
use universe.Sessions.Numbers.{
  IsNumbered, accept-IsNumbered, unwatch-IsNumbered, recv_session_id-network_bytes,
}

abbrev no_sessions : Sessions
no_sessions = record {
  session_id = 6;
  is_child = false;
  c2s = [];
  s2c = [];
  session_tasks = [];
  buf = [];
  parent_sock = 3;
  ran = [];
  actions = [];
}

no_sessions-IsNumbered : IsNumbered no_sessions
unfolding IsPaired lookup
no_sessions-IsNumbered = record {
  paired = λ client session_id. (λ e. cc, λ e. cc);
  below = λ id h. absurd (h refl);
}

nothing_known : (lookup {K = ℕ} {V = ℕ} 4 [] ≡ none) × (lookup {K = ℕ} {V = List ℕ} 4 [] ≡ none)
unfolding lookup
nothing_known = (refl, refl)

accept-IsNumbered_once : IsNumbered (accept (some 4) no_sessions)
accept-IsNumbered_once =
    accept-IsNumbered 4 no_sessions no_sessions-IsNumbered (ltb→lt _ _ refl) nothing_known.0

accept-IsNumbered_example : IsNumbered (accept (some 4) no_sessions)
accept-IsNumbered_example =
    accept-IsNumbered 4 no_sessions no_sessions-IsNumbered (ltb→lt _ _ refl) nothing_known.0

unwatch-IsNumbered_example : IsNumbered (unwatch 4 true (accept (some 4) no_sessions))
unwatch-IsNumbered_example =
    unwatch-IsNumbered 4 true (accept (some 4) no_sessions) accept-IsNumbered_once

recv_session_id-network_bytes_example :
    let (received, message, s') = recv_session_id 4 (network_bytes 4 7 ++ (9 ∷ [])) no_sessions in
    (received ≡ true)
    × (message ≡ 9 ∷ [])
    × (get_session_id 4 s' ≡ some 7)
    × (lookup 7 s'.s2c ≡ some 4)
recv_session_id-network_bytes_example =
    recv_session_id-network_bytes 4 7 (9 ∷ []) no_sessions (ltb→lt _ _ refl) nothing_known.1
