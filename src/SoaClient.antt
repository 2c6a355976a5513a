-- ===== src/SoaClient.antt =====
-- Protocol/Client/Soa.cpp: the client side of the SOA protocol. A response goes to the callback that
-- waits for its uuid, and one that nobody waits for to the push callback.
pub mod Responses
pub mod Endings
mod Tests
use universe.Base.{
  ℕ, suc, ltb, if◌then◌else◌, List, [], ◌∷◌, ◌++◌, length, drop, Option, none, some, true,
}
use universe.Base.Maps.{lookup, insert, erase, nat_key}
use universe.Base.Text.{bytes_key}
use universe.Reader.{open_reader}
use universe.Session.{
  Ending, finished, returned, again, refused, crashed, exhausted, serve_loop, Exit, stay,
}
use universe.StateMachine.Buffers.{Buffers, append_buf, need_buf, erase_buf}
use universe.Soa.{SoaResponse, parse_response, to_string}

-- A callback is known by a number. `called` are the callbacks called and the json of each, `notified`
-- the uuids of `ON_PACKET_OK`, `closed` the connections given up, the newest last.
pub record SoaClient : Type 0 where
  pub buf : Buffers
  pub callbacks : List (ℕ × List (List ℕ × ℕ))
  pub push_callback : Option ℕ
  pub called : List (ℕ × List ℕ)
  pub notified : List (List ℕ)
  pub closed : List ℕ

-- `dead` where an exception is left uncaught; `stuck` is no outcome of the source.
pub data Outcome : Type 0 where
  running : SoaClient → Outcome
  dead stuck : Outcome

-- `packet` of the JSON type.
unfoldable pub packet : List ℕ → List ℕ → List ℕ
unfolding to_string
packet request_id json = to_string request_id json

unfoldable pub add_callback : List ℕ → ℕ → ℕ → SoaClient → SoaClient
add_callback request_id fd callback s = elim (lookup fd s.callbacks) [
  | none ↦ record s { callbacks = insert fd ((request_id, callback) ∷ []) s.callbacks }
  | some cbs ↦ record s { callbacks = insert fd (insert request_id callback cbs) s.callbacks }
]

unfoldable pub register_push_callback : ℕ → SoaClient → SoaClient
register_push_callback callback s = record s { push_callback = some callback }

-- A response that nobody waits for.
unfoldable pub push : SoaResponse → SoaClient → SoaClient
push r s = elim s.push_callback [
  | none ↦ s
  | some p ↦ record s {
    called = s.called ++ ((p, r.json) ∷ []);
    notified = s.notified ++ (r.uuid ∷ []);
  }
]

-- The loop's body behind the parse; `continue` goes on at the loop's condition.
unfoldable pub reply_to : ℕ → SoaResponse → SoaClient → SoaClient × Exit
unfolding push
reply_to client r s = elim (lookup client s.callbacks) [
  | none ↦ (push r s, stay)
  | some cbs ↦ elim (lookup r.uuid cbs) [
    | none ↦ (push r s, stay)
    | some cb ↦ (
      record s {
        callbacks = insert client (erase r.uuid cbs) s.callbacks;
        called = s.called ++ ((cb, r.json) ∷ []);
        notified = s.notified ++ (r.uuid ∷ []);
      },
      stay,
    )
  ]
]

unfoldable pub on_close : ℕ → SoaClient → SoaClient
on_close client s = record s { buf = erase_buf client s.buf; callbacks = erase client s.callbacks }

-- `_scheduler.close` calls `on_close`. The body never leaves the loop.
unfoldable pub catch_block : ℕ → List ℕ → Ending SoaClient → Outcome
unfolding on_close
catch_block client message (finished s) = running s
catch_block client message (returned s) = running s
catch_block client message (again offset s) =
    let rest = if ltb 0 offset then drop offset message else message in
    running (record s { buf = (need_buf client rest true s.buf).1 })
catch_block client message (refused s) =
    running (on_close client (record s { closed = s.closed ++ (client ∷ []) }))
catch_block client message (crashed s) = dead
catch_block client message exhausted = stuck

unfoldable pub on_message : ℕ → ℕ → List ℕ → SoaClient → Outcome
unfolding reply_to catch_block
on_message max_size client message s =
    let (found, whole, buf) = append_buf client message s.buf in
    catch_block client whole (
      serve_loop (parse_response max_size) (reply_to client) (suc (length whole))
        (open_reader whole) 0 (record s { buf = buf }))
