-- ===== src/Gateway.antt =====
-- Protocol/HttpGateway.cpp and HttpGateway.h: each client has one request under way, which goes to the
-- provider that `ON_REQUEST_URI` names, and the provider's response goes back.
pub mod Responses
pub mod Bodies
pub mod Endings
pub mod Turns
pub mod Closing
mod Tests
use universe.Base.{
  ℕ, zero, suc, ◌+◌, ◌-◌, ◌*◌, ◌^◌, ◌%◌, ltb, leb, ◌==◌, ◌&&◌, ◌||◌, not, Bool, true, false,
  if◌then◌else◌, List, [], ◌∷◌, ◌++◌, length, drop, Option, none, some, codes,
}
use universe.Base.Maps.{lookup, insert, erase, contains, nat_key}
use universe.Base.Text.{ℤ, positive, bytes_eq, bytes_key}
use universe.Reader.{Result, ok, throw, fatal, spent, ng, ag, Reader, open_reader}
use universe.StateMachine.Buffers.{Buffers, append_buf, need_buf, has_buf, get_buf, erase_buf}
use universe.StateMachine.States.{set_state, get_state, erase_state}
use universe.Session.Host.{Action, wrote, closed}
use universe.Tunnel.{ConnectResult, ok, ng, game_over, Dial, refused, failed_at, pending, at_once}
use universe.Http.{
  HttpRequest, HttpResponse, to_string, header_line, crlf, parse_request, close_if_necessary,
}
use universe.Utils.{parse_url, merge_url_query}
use universe.Gateway.Responses.{parse_response}

pub record HttpProviderAddress : Type 0 where
  pub host : List ℕ
  pub port : ℕ
  pub path : List ℕ
  pub query : List ℕ
  pub ssl : Bool

pub data GatewayState : Type 0 where
  parsing_request parsing_response : GatewayState

-- The header lines of `forward_packet`, and `has_host`.
unfoldable pub forward_headers : List ℕ → List (List ℕ × List ℕ) → Bool → List ℕ × Bool
unfolding header_line
forward_headers host [] has_host = ([], has_host)
forward_headers host ((name, value) ∷ hs) has_host =
    let with_host = forward_headers host hs true in
    let without = forward_headers host hs has_host in
    if bytes_eq name (codes "Host")
    then (header_line (codes "Host") host ++ with_host.0, with_host.1)
    else if bytes_eq name (codes "Accept-Encoding")
    then without
    else (header_line name value ++ without.0, without.1)

unfoldable pub with_query : List ℕ → List ℕ → List ℕ
with_query uri [] = uri
with_query uri (c ∷ cs) = uri ++ (codes "?" ++ (c ∷ cs))

-- `HttpRequest::forward_packet`; none where a query has a token without a key.
unfoldable pub forward_packet : HttpRequest → HttpProviderAddress → Option (List ℕ)
unfolding forward_headers with_query header_line
forward_packet r target =
    let merged : Option (List ℕ) = elim (lookup (codes "query") (parse_url r.uri)) [
      | some query1 ↦ merge_url_query query1 target.query
      | none ↦ some target.query
    ] in
    elim merged [
      | none ↦ none
      | some query ↦
          let (lines, has_host) = forward_headers target.host r.headers false in
          let host : List ℕ = if has_host then [] else header_line (codes "Host") target.host in
          some (
            r.method
            ++ (codes " "
                ++ (with_query target.path query
                    ++ (codes " "
                        ++ (r.http_version ++ (crlf ++ (lines ++ (host ++ (crlf ++ r.body)))))))))
    ]

-- `HttpRequest::get_path`
unfoldable pub get_path : HttpRequest → Option (List ℕ)
get_path r = lookup (codes "path") (parse_url r.uri)

-- What the event manager calls back for a remote socket: CONNECT while it is being connected, and
-- CLOSE once it stands; both for the client that it was made for.
pub data Watch : Type 0 where
  dialing standing : ℕ → Watch

-- The object, with what it has called of `_server` so far, the newest last, and the remote sockets
-- that `_server` watches for it.
pub record Gateway : Type 0 where
  pub states : List (ℕ × GatewayState)
  pub buf : Buffers
  pub c2r : List (ℕ × ℕ)
  pub r2c : List (ℕ × ℕ)
  pub forward_info : List (ℕ × (HttpRequest × HttpProviderAddress))
  pub remotes : List (ℕ × Watch)
  pub actions : List Action

-- `dead` where an exception is left uncaught or a string is read past its end; `stuck` is no outcome
-- of the source.
pub data Outcome : Type 0 where
  running : Gateway → Outcome
  dead stuck : Outcome

abbrev pub act : Action → Gateway → Gateway
act a g = record g { actions = g.actions ++ (a ∷ []) }

unfoldable pub on_connect : ℕ → Gateway → Gateway
unfolding set_state
on_connect client g = record g { states = set_state client parsing_request g.states }

-- The end of `on_remote_close`.
unfoldable pub forget_remote : ℕ → ℕ → Gateway → Gateway
unfolding erase_buf
forget_remote remote_fd client g = record g {
  buf = erase_buf remote_fd g.buf;
  forward_info = erase client g.forward_info;
}

-- `Http::on_close` and `erase_state`.
abbrev pub clear : ℕ → Gateway → Gateway
clear client g = record g { buf = erase_buf client g.buf; states = erase_state client g.states }

-- `close_remote`, for what `on_close` does with the remote of a client. Where the socket stands,
-- `_server.close` calls back `on_remote_close`, which finds it in `_r2c` no more; where it is being
-- connected, `on_remote_connect` with GAME_OVER, which closes its client; and nothing where it is not
-- watched. (A client that is closed already has no entry that `on_close` would find.)
unfoldable pub close_one : (ℕ → Gateway → Gateway) → ℕ → Gateway → Gateway
unfolding erase_buf erase_state forget_remote
close_one close_next remote_fd g0 =
    let g : Gateway =
      act (closed remote_fd)
        (record g0 { buf = erase_buf remote_fd g0.buf; r2c = erase remote_fd g0.r2c }) in
    let gone : Gateway = record g { remotes = erase remote_fd g.remotes } in
    elim (lookup remote_fd g.remotes) [
      | none ↦ g
      | some watch ↦ elim watch [
        | standing c ↦ forget_remote remote_fd c gone
        | dialing c ↦
            let g1 = clear c (act (closed c) gone) in
            elim (lookup c g1.c2r) [
              | some next_fd ↦ close_next next_fd (record g1 { c2r = erase c g1.c2r })
              | none ↦ g1
            ]
      ]
    ]

unfoldable pub close_remote_within : ℕ → ℕ → Gateway → Gateway
unfolding close_one
close_remote_within zero remote_fd g = close_one (λ next_fd h. h) remote_fd g
close_remote_within (suc fuel) remote_fd g =
    close_one (λ next_fd h. close_remote_within fuel next_fd h) remote_fd g

-- Each round takes a socket out of those that are watched.
unfoldable pub close_remote : ℕ → Gateway → Gateway
unfolding close_remote_within
close_remote remote_fd g = close_remote_within (length g.remotes) remote_fd g

unfoldable pub on_close : ℕ → Gateway → Gateway
unfolding erase_buf erase_state close_remote
on_close client g =
    let g1 = clear client g in
    elim (lookup client g1.c2r) [
      | some remote_fd ↦ close_remote remote_fd (record g1 { c2r = erase client g1.c2r })
      | none ↦ g1
    ]

-- `_server.close(client)` calls back `on_close`.
unfoldable pub close_client : ℕ → Gateway → Gateway
unfolding on_close
close_client client g = on_close client (act (closed client) g)

-- The socket is watched no more when it is called back.
unfoldable pub on_remote_close : ℕ → ℕ → Gateway → Gateway
unfolding close_client forget_remote
on_remote_close remote_fd client g0 =
    let g : Gateway = record g0 { remotes = erase remote_fd g0.remotes } in
    elim (lookup remote_fd g.r2c) [
      | some c ↦ forget_remote remote_fd client (close_client client g)
      | none ↦ forget_remote remote_fd client (record g { r2c = erase remote_fd g.r2c })
    ]

-- An entry that `_forward_info[client]` makes.
abbrev pub no_info : HttpRequest × HttpProviderAddress
no_info = (
  record { client = 0; method = []; uri = []; http_version = []; headers = []; body = [] },
  record { host = []; port = 0; path = []; query = []; ssl = false },
)

unfoldable pub info_of : ℕ → Gateway → (HttpRequest × HttpProviderAddress) × Gateway
info_of client g = elim (lookup client g.forward_info) [
  | some info ↦ (info, g)
  | none ↦ (no_info, record g { forward_info = insert client no_info g.forward_info })
]

-- `_server` watches the socket for READ and CLOSE after a success, and no more after a failure.
unfoldable pub on_remote_connect : ℕ → ConnectResult → ℕ → Gateway → Outcome
unfolding info_of close_client forward_packet
on_remote_connect remote_fd ok client g =
    let (info, g') = info_of client g in
    elim (forward_packet info.0 info.1) [
      | some packet ↦ running (
          act (wrote remote_fd packet)
            (record g' { remotes = insert remote_fd (standing client) g'.remotes }))
      | none ↦ dead
    ]
on_remote_connect remote_fd ng client g =
    running (close_client client (record g { remotes = erase remote_fd g.remotes }))
on_remote_connect remote_fd game_over client g =
    running (close_client client (record g { remotes = erase remote_fd g.remotes }))

-- The code outside: `route` stands for `ON_REQUEST_URI`, none where it leaves `ok` false, `edit` for
-- `ON_RESPONSE`, `dial` for `_server.connect`, `junk` for what an unset `long` holds.
pub record Outside : Type 0 where
  pub max_size : ℕ
  pub junk : ℕ
  pub route : HttpRequest → HttpRequest × Option HttpProviderAddress
  pub edit : HttpRequest × HttpResponse → HttpRequest × HttpResponse
  pub dial : ℕ → HttpProviderAddress → Dial

module _ (out : Outside) where
  abbrev pub register : ℕ → ℕ → Outcome → Outcome
  register client remote_fd (running g) =
      running
        (record g { c2r = insert client remote_fd g.c2r; r2c = insert remote_fd client g.r2c })
  register client remote_fd dead = dead
  register client remote_fd stuck = stuck

  -- What `on_message` does with a request. A connection that is refused calls back with NG for the
  -- socket -1, and nothing is registered.
  unfoldable pub forward : ℕ → HttpRequest → Gateway → Outcome
  unfolding close_client on_remote_connect
  forward client r g =
      let (r', found) = out.route r in
      elim found [
        | none ↦ running (close_client client g)
        | some target ↦
            let g1 : Gateway = record g {
              forward_info = insert client (r', target) g.forward_info;
            } in
            elim (out.dial client target) [
              | refused ↦ running (close_client client g1)
              | failed_at remote_fd ↦
                  register client remote_fd (on_remote_connect remote_fd ng client g1)
              | pending remote_fd ↦
                  register client remote_fd
                    (running (record g1 { remotes = insert remote_fd (dialing client) g1.remotes }))
              | at_once remote_fd ↦
                  register client remote_fd (on_remote_connect remote_fd ok client g1)
            ]
      ]

  unfoldable pub on_message : ℕ → List ℕ → Gateway → Outcome
  unfolding append_buf need_buf get_state set_state close_client forward
  on_message client message g =
      let (found, whole, buf) = append_buf client message g.buf in
      let g1 : Gateway = record g { buf = buf } in
      elim (get_state parsing_request client g.states).0 [
        | parsing_response ↦ running (record g1 { buf = (need_buf client whole true g1.buf).1 })
        | parsing_request ↦ elim (parse_request out.max_size client (open_reader whole)) [
          | ok (r, s) ↦ forward client r (record g1 {
            buf = (need_buf client (drop s.offset whole) true g1.buf).1;
            states = set_state client parsing_response g1.states;
          })
          | throw ag ↦ running (record g1 { buf = (need_buf client whole true g1.buf).1 })
          | throw ng ↦ running (close_client client g1)
          | fatal ↦ dead
          | spent ↦ stuck
        ]
      ]

  -- The end of `on_remote_message`: the response is out.
  unfoldable pub next_request : ℕ → ℕ → Gateway → Outcome
  unfolding close_remote set_state has_buf get_buf on_message
  next_request remote_fd client g =
      let g1 = close_remote remote_fd g in
      let g2 : Gateway = record g1 { states = set_state client parsing_request g1.states } in
      if has_buf client g2.buf
      then (let (message, buf) = get_buf client true g2.buf in
          on_message client message (record g2 { buf = buf }))
      else running g2

  unfoldable pub respond : ℕ → ℕ → HttpResponse → Gateway → Outcome
  unfolding info_of close_client next_request
  respond remote_fd client r g =
      let (info, g1) = info_of client g in
      let (request, response) = out.edit (info.0, r) in
      let g2 : Gateway = record g1 {
        forward_info = insert client (request, info.1) g1.forward_info;
      } in
      let g3 = act (wrote client (to_string response)) g2 in
      elim (close_if_necessary request) [
        | some true ↦ running (close_client client g3)
        | some false ↦ next_request remote_fd client g3
        | none ↦ dead
      ]

  unfoldable pub on_remote_message : ℕ → List ℕ → ℕ → Gateway → Outcome
  unfolding append_buf need_buf on_remote_close respond
  on_remote_message remote_fd message client g =
      let (found, whole, buf) = append_buf remote_fd message g.buf in
      let g1 : Gateway = record g { buf = buf } in
      elim (parse_response out.max_size out.junk (open_reader whole)) [
        | ok (r, s) ↦ respond remote_fd client r g1
        | throw ag ↦ running (record g1 { buf = (need_buf remote_fd whole true g1.buf).1 })
        | throw ng ↦ running (on_remote_close remote_fd client (act (closed remote_fd) g1))
        | fatal ↦ dead
        | spent ↦ stuck
      ]
