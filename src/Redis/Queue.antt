-- ===== src/Redis/Queue.antt =====
-- The callbacks of a connection are served in the order in which their commands were sent.
use universe.Base.{
  ℕ, zero, suc, ◌≤◌, ◌<◌, ◌≡◌, refl, ◌∙◌, false, List, [], ◌∷◌, ◌++◌, append_assoc, length,
  length-append, drop, arith, All, some, none, leb,
}
use universe.Base.Maps.{lookup, insert, nat_key, lookup-insert_self}
use universe.Session.Branches.{at_end_lem}
use universe.Reader.Local.{at}
use universe.Session.{finished, serve_loop, stay}
use universe.Session.Steps.{serve_loop-last, serve_loop-next}
use universe.StateMachine.Buffers.{append_buf-none}
use universe.Redis.{Redis, RedisReply, running, parse_response, reply_to, on_message, catch_block}
use universe.Redis.Wire.{Sent, wire, reply, IsSent, parse_response-wire, wire-nonempty}

abbrev pub wires : List Sent → List ℕ
wires [] = []
wires (s ∷ ss) = wire s ++ wires ss

-- Each callback with its reply, as long as there are both.
unfoldable pub answered : List (ℕ × ℕ) → List Sent → List (ℕ × ℕ × RedisReply)
answered cbs [] = []
answered [] (s ∷ ss) = []
answered ((request_id, cb) ∷ cbs) (s ∷ ss) = (request_id, cb, reply s) ∷ answered cbs ss

-- The connection's queue is down to `cbs`, `more` was called back, and the buffers and the connections
-- given up are as before.
pub record IsServed (client : ℕ) (cbs : List (ℕ × ℕ)) (more : List (ℕ × ℕ × RedisReply))
    (s s' : Redis) : Type 0 where
  pub waiting : lookup client s'.callbacks ≡ some cbs
  pub called : s'.replied ≡ s.replied ++ more
  pub buf_kept : s'.buf ≡ s.buf
  pub closed_kept : s'.closed ≡ s.closed

wires-nonempty : (t : Sent) (ss : List Sent) → leb (length (wires (t ∷ ss))) 0 ≡ false
wires-nonempty t ss = ground (arith, wire-nonempty t, length-append (wire t) (wires ss))

-- Every reply takes a byte at least, so the loop has fuel enough.
length-wires : (ss : List Sent) → length ss ≤ length (wires ss)
length-wires [] = omega arith
length-wires (s ∷ ss) =
    omega (arith, wire-nonempty s, length-wires ss, length-append (wire s) (wires ss))

module _ (max_size client : ℕ) where
  abbrev next : ℕ × ℕ → List (ℕ × ℕ) → Sent → Redis → Redis
  next (request_id, cb) cbs s w = record w {
    callbacks = insert client cbs w.callbacks;
    replied = w.replied ++ ((request_id, cb, reply s) ∷ []);
  }

  reply_to-some :
      (request : ℕ × ℕ) (cbs : List (ℕ × ℕ)) (s : Sent) (w : Redis)
      → lookup client w.callbacks ≡ some (request ∷ cbs)
      → reply_to client (reply s) w ≡ (next request cbs s w, stay)
  unfolding reply_to
  reply_to-some request cbs s w e = rw (e, reply_to) refl

  serve_loop-wires :
      (s : Sent) (ss : List Sent) (fuel : ℕ) (front : List ℕ) (offset : ℕ) (cbs : List (ℕ × ℕ))
      (w : Redis)
      → All (IsSent max_size) (s ∷ ss)
      → lookup client w.callbacks ≡ some cbs
      → length (s ∷ ss) ≤ length cbs
      → length ss < fuel
      → (w' : Redis) × (serve_loop
            (parse_response max_size)
            (reply_to client)
            fuel
            (at front (wires (s ∷ ss)))
            offset
            w
          ≡ finished w')
        × IsServed client (drop (length (s ∷ ss)) cbs) (answered cbs (s ∷ ss)) w w'
  unfolding serve_loop answered
  serve_loop-wires s ss zero front offset cbs w good e enough h = absurd (omega arith)
  serve_loop-wires s ss (suc fuel) front offset [] w good e enough h = absurd (omega arith)
  serve_loop-wires s [] (suc fuel) front offset (c ∷ cbs) w good e enough h = (
    next c cbs s w,
    serve_loop-last (parse_response max_size) (reply_to client) fuel offset _ _ _ w _
        (parse_response-wire max_size s front [] good.0) (reply_to-some c cbs s w e)
        (at_end_lem (front ++ wire s) []),
    record {
      waiting = lookup-insert_self client cbs w.callbacks;
      called = refl;
      buf_kept = refl;
      closed_kept = refl;
    },
  )
  serve_loop-wires s (t ∷ ss) (suc fuel) front offset (c ∷ cbs) w good e enough h =
      let (w', run, served) =
        serve_loop-wires t ss fuel (front ++ wire s) (length (front ++ wire s)) cbs (next c cbs s w)
          good.1 (lookup-insert_self client cbs w.callbacks) (omega arith) (omega arith) in
      (
        w',
        serve_loop-next (parse_response max_size) (reply_to client) fuel offset _ _ _ w _
              (parse_response-wire max_size s front (wires (t ∷ ss)) good.0)
              (reply_to-some c cbs s w e)
              (at_end_lem (front ++ wire s) (wires (t ∷ ss)) ∙ wires-nonempty t ss)
            ∙ run,
        record {
          waiting = served.waiting;
          called = served.called ∙ append_assoc w.replied _ _;
          buf_kept = served.buf_kept;
          closed_kept = served.closed_kept;
        },
      )

  -- Some replies that come in one message, with nothing held back and at least as many callbacks
  -- waiting, are handed out in order: the first callback gets the first reply, each is called
  -- once, and the later callbacks still wait.
  pub on_message-wires :
      (s : Sent) (ss : List Sent) (cbs : List (ℕ × ℕ)) (w : Redis)
      → All (IsSent max_size) (s ∷ ss)
      → lookup client w.buf ≡ none
      → lookup client w.callbacks ≡ some cbs
      → length (s ∷ ss) ≤ length cbs
      → (w' : Redis) × (on_message max_size client (wires (s ∷ ss)) w ≡ running w')
        × IsServed client (drop (length (s ∷ ss)) cbs) (answered cbs (s ∷ ss)) w w'
  unfolding on_message catch_block
  on_message-wires s ss cbs w good empty e enough =
      let (w', run, served) =
        serve_loop-wires s ss (suc (length (wires (s ∷ ss)))) [] 0 cbs w good e enough
          (omega (arith, length-wires (s ∷ ss))) in
      (
        w',
        rw (append_buf-none client (wires (s ∷ ss)) w.buf empty, on_message)
            (rw (run, catch_block) refl),
        served,
      )
