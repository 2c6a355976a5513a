-- ===== src/Socks.antt =====
-- Protocol/Socks.cpp: a SOCKS5 server without authentication, for CONNECT by domain name.
pub mod Session
pub mod Signed
mod Tests
use universe.Base.{
  ℕ, suc, ◌+◌, ◌-◌, ◌*◌, ◌/◌, ◌%◌, ◌^◌, ◌==◌, ltb, Bool, true, false, if◌then◌else◌, List, [], ◌∷◌,
  ◌++◌, length, take, drop, get_or, Option, none, some,
}
use universe.Base.Maps.{lookup, insert, erase, nat_key}
use universe.Session.Host.{Action, wrote, closed}
use universe.StateMachine.Buffers.{Buffers, append_buf, need_buf, erase_buf}
use universe.StateMachine.States.{set_state, get_state, has_state, erase_state}

pub data SocksState : Type 0 where
  greeting request connecting connected : SocksState

-- The object, with what it has called of `_scheduler` so far, the newest last.
pub record Socks : Type 0 where
  pub states : List (ℕ × SocksState)
  pub buf : Buffers
  pub url : List (ℕ × List ℕ)
  pub c2r : List (ℕ × ℕ)
  pub r2c : List (ℕ × ℕ)
  pub actions : List Action

unfoldable pub on_connect : ℕ → Socks → Socks
on_connect client s = record s { states = set_state client greeting s.states }

unfoldable pub erase_state_buffer : ℕ → Socks → Socks
unfolding erase_state erase_buf
erase_state_buffer fd s = record s { states = erase_state fd s.states; buf = erase_buf fd s.buf }

-- Closing the remote calls back `close(client)`, and the client is closed by then.
unfoldable pub on_close : ℕ → Socks → Socks
unfolding erase_state_buffer has_state
on_close client s =
    if has_state client s.states
    then (let s' = erase_state_buffer client s in
        let s'' : Socks = record s' { url = erase client s'.url } in
        elim (lookup client s''.c2r) [
          | none ↦ s''
          | some remote_fd ↦ record s'' {
            c2r = erase client s''.c2r;
            r2c = erase remote_fd s''.r2c;
            actions = s''.actions ++ (closed remote_fd ∷ []);
          }
        ])
    else s

-- `_scheduler.close(client)` calls back `on_close`.
unfoldable pub close : ℕ → Socks → Socks
unfolding on_close
close client s = on_close client (record s { actions = s.actions ++ (closed client ∷ []) })

-- `base` plus a byte that was read as a `char`, which is signed, in a `size_t`.
unfoldable pub signed_size : ℕ → ℕ → ℕ
signed_size base c = if ltb c 128 then base + c else (2 ^ 64 + base + c - 256) % 2 ^ 64

-- `for (auto i = 0; i < num_methods; i++)`, over the bytes behind the first two.
unfoldable pub offers_no_auth : List ℕ → Bool
offers_no_auth [] = false
offers_no_auth (m ∷ ms) = let rest = offers_no_auth ms in if m == 0 then true else rest

-- The bytes that the loop visits: none for a negative number.
unfoldable pub methods_of : ℕ → List ℕ → List ℕ
methods_of num_methods message =
    if ltb num_methods 128 then take num_methods (drop 2 message) else []

-- The case `GREETING`, with the message as `append_buf` left it.
unfoldable pub on_greeting : ℕ → List ℕ → Socks → Socks
unfolding close signed_size offers_no_auth methods_of
on_greeting client message s =
    if ltb (length message) 2
    then record s { buf = (need_buf client message true s.buf).1 }
    else if get_or message 0 0 == 5
    then (if ltb (length message) (signed_size 2 (get_or message 1 0))
        then record s { buf = (need_buf client message true s.buf).1 }
        else if offers_no_auth (methods_of (get_or message 1 0) message)
        then record s {
          states = set_state client request s.states;
          actions = s.actions ++ (wrote client (5 ∷ 0 ∷ []) ∷ []);
        }
        else close client s)
    else close client s

-- The length of the request by its address type, and none for one that is not known.
unfoldable pub request_length : List ℕ → Option ℕ
unfolding signed_size
request_length message =
    if get_or message 3 0 == 1
    then some 10
    else if get_or message 3 0 == 3
    then some (signed_size 7 (get_or message 4 0))
    else if get_or message 3 0 == 4
    then some 22
    else none

-- `message.substr(5, message[4])`, where a negative count takes all.
unfoldable pub address_of : List ℕ → List ℕ
address_of message =
    if ltb (get_or message 4 0) 128
    then take (get_or message 4 0) (drop 5 message)
    else drop 5 message

-- `ntohs` of the last two bytes.
unfoldable pub port_of : ℕ → List ℕ → ℕ
port_of size message = get_or message (size - 2) 0 * 256 + get_or message (size - 2 + 1) 0

-- The case `CONNECTING`.
unfoldable pub on_early_message : ℕ → List ℕ → Socks → Socks
unfolding close
on_early_message client message s =
    let (found, whole, buf) = append_buf client message s.buf in
    close client (record s { buf = buf })

-- `connect` is the remote socket for a name and a port, and none for -1. The CONNECT callback comes
-- later, or before -1 is returned, and then it has closed the client too.
module _ (connect : List ℕ → ℕ → Option ℕ) where
  -- The call of `on_message` on what follows the request meets the state `CONNECTING`.
  unfoldable pub on_domain : ℕ → ℕ → List ℕ → Socks → Socks
  unfolding on_early_message close
  on_domain client size message s = elim (connect (address_of message) (port_of size message)) [
    | none ↦ close client s
    | some remote_fd ↦
        let s' : Socks = record s {
          c2r = insert client remote_fd s.c2r;
          r2c = insert remote_fd client s.r2c;
          url = insert client (address_of message) s.url;
          states = set_state client connecting s.states;
        } in
        if ltb size (length message) then on_early_message client (drop size message) s' else s'
  ]

  -- The case `REQUEST`; none where `substr(length - 2, 2)` throws, which nothing catches.
  unfoldable pub on_request : ℕ → List ℕ → Socks → Option Socks
  unfolding on_domain close
  on_request client message s =
      if ltb (length message) 5
      then some (record s { buf = (need_buf client message true s.buf).1 })
      else if get_or message 1 0 == 1
      then elim (request_length message) [
        | none ↦ some (close client s)
        | some size ↦
            if ltb (length message) size
            then some (record s { buf = (need_buf client message true s.buf).1 })
            else if ltb size 2
            then none
            else some (
                if get_or message 3 0 == 3 then on_domain client size message s else close client s)
      ]
      else some (close client s)

  unfoldable pub on_message : ℕ → List ℕ → Socks → Option Socks
  unfolding on_request on_greeting close
  on_message client message s =
      let (found, whole, buf) = append_buf client message s.buf in
      let s' : Socks = record s { buf = buf } in
      elim (get_state greeting client s.states).0 [
        | greeting ↦ some (on_greeting client whole s')
        | request ↦ on_request client whole s'
        | connecting ↦ some (close client s')
        | connected ↦ some (elim (lookup client s'.c2r) [
          | some remote_fd ↦ record s' { actions = s'.actions ++ (wrote remote_fd whole ∷ []) }
          | none ↦ record s' {
            c2r = insert client 0 s'.c2r;
            actions = s'.actions ++ (wrote 0 whole ∷ []);
          }
        ])
      ]

-- The reply, with the port as it lies in memory on a little-endian machine.
unfoldable pub reply : List ℕ → ℕ → List ℕ
reply address port =
    5 ∷ 0 ∷ 0 ∷ 3 ∷ (length address % 256) ∷ (address ++ (port % 256 ∷ port / 256 % 256 ∷ []))

-- The CONNECT callback of the remote socket; the flag is `r == ConnectResult::OK`.
unfoldable pub on_remote_connect : ℕ → ℕ → Bool → Socks → Socks
unfolding close reply
on_remote_connect client port good s =
    let address : List ℕ = elim (lookup client s.url) [ some a ↦ a | none ↦ [] ] in
    if good
    then record s {
      states = set_state client connected s.states;
      actions = s.actions ++ (wrote client (reply address port) ∷ []);
    }
    else close client s

-- The READ callback of the remote socket.
unfoldable pub on_remote_message : ℕ → List ℕ → Socks → Socks
on_remote_message client message s = record s { actions = s.actions ++ (wrote client message ∷ []) }
