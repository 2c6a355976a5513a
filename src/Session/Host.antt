-- ===== src/Session/Host.antt =====
-- What a protocol keeps and does round its message loop: `append_buf` before it, and after it the
-- `catch (ReaderException e)` block that `Soa`, `Http` and the clients write out in the same words.
use universe.Base.{ℕ, suc, List, [], ◌∷◌, ◌++◌, length, drop, true, ltb, if◌then◌else◌}
use universe.Reader.{R, open_reader}
use universe.Session.{
  Ending, finished, returned, again, refused, crashed, exhausted, serve_loop, Exit,
}
use universe.StateMachine.Buffers.{Buffers, append_buf, need_buf, erase_buf}

-- The calls of the scheduler that leave the process: `write` and `close`.
pub data Action : Type 0 where
  wrote : ℕ → List ℕ → Action
  closed : ℕ → Action

-- The buffers of a protocol object and what it has done so far, the newest last.
pub record Host : Type 0 where
  pub buf : Buffers
  pub actions : List Action

-- Where a message leaves its connection: open; closed by the handler; or the process ends by an
-- exception that nobody catches. `stuck` is no state of the source: a loop of the model ran out of fuel.
pub data Session : Type 0 where
  opened : Host → Session
  shut : Host → Session
  dead : List Action → Session
  stuck : Session

-- `_scheduler.close(client)`: the `CLOSE` callback calls `on_close`, which is `erase_buf(client)`.
unfoldable pub close : ℕ → Host → Host
close client h = record {
  buf = erase_buf client h.buf;
  actions = h.actions ++ (closed client ∷ []);
}

unfoldable pub catch_block : ℕ → List ℕ → Buffers → Ending (List Action) → Session
unfolding close
catch_block client message buf (finished acts) = opened (record { buf = buf; actions = acts })
catch_block client message buf (returned acts) =
    shut (close client (record { buf = buf; actions = acts }))
catch_block client message buf (again offset acts) =
    let rest = if ltb 0 offset then drop offset message else message in
    opened (record { buf = (need_buf client rest true buf).1; actions = acts })
catch_block client message buf (refused acts) =
    shut (close client (record { buf = buf; actions = acts }))
catch_block client message buf (crashed acts) = dead acts
catch_block client message buf exhausted = stuck

-- `handle` appends what one packet makes the protocol do; where it leaves the loop it closes the
-- connection.
module _ {A : Type 0} (parse : R A) (handle : A → List Action → List Action × Exit) where
  unfoldable pub receive : ℕ → List ℕ → Host → Session
  receive client message h =
      let (found, whole, buf) = append_buf client message h.buf in
      catch_block client whole buf
        (serve_loop parse handle (suc (length whole)) (open_reader whole) 0 h.actions)

  -- The messages of a connection in turn: one that is closed is given no more.
  unfoldable pub then_receive : ℕ → List ℕ → Session → Session
  then_receive client message (opened h) = receive client message h
  then_receive client message (shut h) = shut h
  then_receive client message (dead acts) = dead acts
  then_receive client message stuck = stuck

  unfoldable pub receive_pieces : ℕ → List (List ℕ) → Session → Session
  receive_pieces client [] s = s
  receive_pieces client (p ∷ ps) s = receive_pieces client ps (then_receive client p s)
