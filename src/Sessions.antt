-- ===== src/Sessions.antt =====
-- The sessions of ClientServer.cpp: the parent numbers its clients, sends a client's number ahead of
-- its bytes, and the child reads it back. Protocol::read of Protocol.cpp takes the bytes off.
pub mod Numbers
mod Tests
use universe.Base.{
  ℕ, suc, ◌+◌, ◌%◌, ◌^◌, ltb, Bool, true, false, not, if◌then◌else◌, List, [], ◌∷◌, ◌++◌, length,
  take, drop, Option, none, some,
}
use universe.Base.Maps.{lookup, insert, erase, nat_key}
use universe.Reader.{network_value}
use universe.Reader.Words.{network_bytes}
use universe.Session.Host.{Action, wrote}
use universe.StateMachine.Buffers.{Buffers, append_buf, need_buf, erase_buf}

-- A task is known by a number, and `ran` says which ran for which client, the newest last.
pub record Sessions : Type 0 where
  pub session_id : ℕ
  pub is_child : Bool
  pub c2s : List (ℕ × ℕ)
  pub s2c : List (ℕ × ℕ)
  pub session_tasks : List (ℕ × List ℕ)
  pub buf : Buffers
  pub parent_sock : ℕ
  pub ran : List (ℕ × ℕ)
  pub actions : List Action

-- `Protocol::read`: what was read and what is left.
unfoldable pub read : ℕ → List ℕ → Option (List ℕ × List ℕ)
read size message =
    if ltb (length message) size then none else some (take size message, drop size message)

-- `accept`, behind `Server::accept`, whose -1 is none. The number is an `unsigned int`.
unfoldable pub accept : Option ℕ → Sessions → Sessions
accept none s = s
accept (some client) s =
    if s.is_child
    then s
    else let session_id = suc s.session_id % 2 ^ 32 in
      record s {
        session_id = session_id;
        c2s = insert client session_id s.c2s;
        s2c = insert session_id client s.s2c;
      }

-- `unwatch`, behind `EventManager::unwatch`, whose result is the flag.
unfoldable pub unwatch : ℕ → Bool → Sessions → Sessions
unfolding erase_buf
unwatch fd watched s =
    if watched
    then (let rest : Sessions = record s {
      session_tasks = erase fd s.session_tasks;
      buf = erase_buf fd s.buf;
    } in
        elim (lookup fd s.c2s) [
          | some session_id ↦ record rest { c2s = erase fd s.c2s; s2c = erase session_id s.s2c }
          | none ↦ rest
        ])
    else s

unfoldable pub get_session_id : ℕ → Sessions → Option ℕ
get_session_id client s = lookup client s.c2s

unfoldable pub send_session_id : ℕ → ℕ → Sessions → Bool × Sessions
unfolding get_session_id
send_session_id worker_fd client s = elim (get_session_id client s) [
  | some session_id ↦ (
    true,
    record s { actions = s.actions ++ (wrote worker_fd (network_bytes 4 session_id) ∷ []) },
  )
  | none ↦ (false, s)
]

-- The flag, the caller's message as it is left, and the object.
unfoldable pub recv_session_id : ℕ → List ℕ → Sessions → Bool × List ℕ × Sessions
unfolding read
recv_session_id worker_client message s =
    let (found, whole, buf) = append_buf worker_client message s.buf in
    elim (read 4 whole) [
      | none ↦ (false, whole, record s { buf = (need_buf worker_client whole true buf).1 })
      | some (bytes, rest) ↦
          let session_id = network_value 0 bytes in
          (
            true,
            rest,
            record s {
              buf = buf;
              c2s = insert worker_client session_id s.c2s;
              s2c = insert session_id worker_client s.s2c;
            },
          )
    ]

-- `connect_parent` is taken to have set `parent_sock`. The sizes are 32 bit numbers.
unfoldable pub write_global : ℕ → List ℕ → Sessions → ℕ × Sessions
write_global session_id bytes s = elim (lookup session_id s.s2c) [
  | some local_client ↦
      (length bytes, record s { actions = s.actions ++ (wrote local_client bytes ∷ []) })
  | none ↦
      if s.is_child
      then (
        length bytes,
        record s {
          actions =
              s.actions
              ++ (wrote s.parent_sock (network_bytes 4 ((4 + length bytes + 4) % 2 ^ 32))
                  ∷ wrote s.parent_sock (network_bytes 4 session_id)
                  ∷ wrote s.parent_sock bytes
                  ∷ []);
        },
      )
      else (0, s)
]

-- The flag says whether the task ran at once.
unfoldable pub add_session_task : ℕ → ℕ → Sessions → Bool × Sessions
add_session_task client task s = elim (lookup client s.c2s) [
  | none ↦
      let tasks : List ℕ = elim (lookup client s.session_tasks) [ some ts ↦ ts | none ↦ [] ] in
      (false, record s { session_tasks = insert client (tasks ++ (task ∷ [])) s.session_tasks })
  | some _ ↦ (true, record s { ran = s.ran ++ ((client, task) ∷ []) })
]
