-- ===== src/Tunnel/Runs.antt =====
-- Runs of the proxy: any sequence of the events that the server calls it back for.
use universe.Base.{ℕ, ◌%◌, ◌⊎◌, ◌≡◌, List, [], none, some}
use universe.Base.Maps.{lookup, nat_key}
use universe.Tunnel.Pairs.{
  IsPaired, IsSound, IsSound-on_message, IsSound-on_remote_connect, IsSound-on_close,
  IsSound-on_remote_close,
}
use universe.Tunnel.Joins.{IsSound-on_connect}
use universe.Tunnel.{
  Tunnel, ConnectResult, Dial, refused, failed_at, pending, at_once, on_connect, on_message,
  on_close, on_remote_connect, on_remote_close, on_remote_message,
}

-- One event at the proxy. A descriptor that the system gives out is open nowhere else, so a client
-- that connects and the socket that goes to its remote are in neither map, but for what a connection
-- that failed at once has left there; the call-backs of a connection come for its own pair.
pub data Step (addresses : ℕ) : Tunnel → Tunnel → Type 0 where
  connects :
      (client remote : ℕ) (dial : ℕ → ℕ → Dial) (t : Tunnel)
      → lookup client t.c2r ≡ none
      → lookup remote t.r2c ≡ none
      → (dial client (t.rr_index % addresses) ≡ refused)
        ⊎ (dial client (t.rr_index % addresses) ≡ pending remote)
        ⊎ (dial client (t.rr_index % addresses) ≡ at_once remote)
        ⊎ (dial client (t.rr_index % addresses) ≡ failed_at remote)
      → Step addresses t (on_connect addresses dial client t)
  says :
      (client : ℕ) (message : List ℕ) (t : Tunnel) → Step addresses t (on_message client message t)
  closes : (client : ℕ) (t : Tunnel) → Step addresses t (on_close client t)
  remote_connects :
      (remote client : ℕ) (r : ConnectResult) (t : Tunnel)
      → lookup client t.c2r ≡ some remote
      → Step addresses t (on_remote_connect remote r client t)
  remote_says :
      (remote client : ℕ) (message : List ℕ) (t : Tunnel)
      → Step addresses t (on_remote_message remote message client t)
  remote_closes :
      (remote client : ℕ) (t : Tunnel) → Step addresses t (on_remote_close remote client t)

abbrev pub empty_tunnel : Tunnel
empty_tunnel = record { states = []; buf = []; c2r = []; r2c = []; rr_index = 0; actions = [] }

pub data Reachable (addresses : ℕ) : Tunnel → Type 0 where
  start : Reachable addresses empty_tunnel
  next : (t u : Tunnel) → Reachable addresses t → Step addresses t u → Reachable addresses u

IsSound-Step : (addresses : ℕ) (t u : Tunnel) → Step addresses t u → IsSound t → IsSound u
unfolding on_remote_message
IsSound-Step addresses _ _ (connects client remote dial t new_client new_remote outcome) h =
    IsSound-on_connect addresses client remote dial t new_client new_remote outcome h
IsSound-Step addresses _ _ (says client message t) h = IsSound-on_message client message t h
IsSound-Step addresses _ _ (closes client t) h = IsSound-on_close client t h
IsSound-Step addresses _ _ (remote_connects remote client r t found) h =
    IsSound-on_remote_connect remote client remote r t h found
IsSound-Step addresses _ _ (remote_says remote client message t) h = record {
  paired = h.paired;
  remote_known = h.remote_known;
}
IsSound-Step addresses _ _ (remote_closes remote client t) h =
    IsSound-on_remote_close remote client t h

-- In every run of the proxy `_r2c` is the inverse of `_c2r`, and a client whose connection stands is
-- paired, whatever the addresses do and whatever comes in which order. (A connecting client and its
-- socket are in neither map before, and a connection calls back for its own pair.)
pub Reachable-IsSound : (addresses : ℕ) (t : Tunnel) → Reachable addresses t → IsSound t
unfolding IsPaired lookup
Reachable-IsSound addresses _ start = record {
  paired = λ client remote. (λ e. cc, λ e. cc);
  remote_known = λ client e. cc;
}
Reachable-IsSound addresses _ (next t u r s) =
    IsSound-Step addresses t u s (Reachable-IsSound addresses t r)
