-- ===== src/Events/Tests.antt =====
-- Runs of the event manager against a kernel that takes some bytes, one a call, and then says
-- EAGAIN.
use universe.Base.{ℕ, zero, suc, true, false, List, [], ◌∷◌, ◌++◌, none, some, ◌≡◌, refl, arith}
use universe.Base.Maps.{lookup, insert, erase, contains, nat_key}
use universe.Events.{
  Manager, System, Outcome, took, again, returned, read_event, close_event, Call, close, write,
  add_close_fd, drop_ssl_and_buf, no_events, bytes_at,
}
use universe.Events.Loop.{handle_event}
use universe.Events.Writes.{IsSteady, stream}
use universe.Events.Streams.{Step, writes, flushes, run_steps, told, run_steps-stream}
use universe.Events.Closing.{LeavesOut, close-close}

-- The kernel's state is the number of bytes that it still takes.
takes : List ℕ → ℕ → Outcome × ℕ
takes bytes zero = (again, zero)
takes [] (suc k) = (took 0, suc k)
takes (b ∷ bs) (suc k) = (took 1, k)

abbrev toy : (ℕ → Call → Manager ℕ → Manager ℕ) → System ℕ
toy run = record {
  epoll_ctl = λ op fd mask k. (true, k);
  sys_write = λ fd bytes k. takes bytes k;
  sys_close = λ fd k. k;
  socket_error = λ fd k. some 0;
  sys_read = λ fd k. ([], k);
  want_message = λ cb. false;
  run = run;
  ssl_write = λ fd bytes m. (returned 0, m);
  ssl_read = λ fd m. ([], m);
  ssl_handshake = λ fd m. (true, m);
}

abbrev quiet : System ℕ
quiet = toy (λ cb call m. m)

abbrev closing : System ℕ
closing = toy (λ cb call m. (close quiet 4 false m).1)

abbrev fresh : ℕ → Manager ℕ
fresh k = record {
  fds = (4, (read_event, 1) ∷ (close_event, 2) ∷ []) ∷ [];
  fd_ssl = [];
  write_buf = [];
  close_fds = [];
  current_fd = none;
  current_cb = [];
  kernel = k;
  sent = [];
  fired = [];
  exited = false;
}

quiet-IsSteady : IsSteady quiet
unfolding takes
quiet-IsSteady fd bytes zero = tt
quiet-IsSteady fd [] (suc k) = (omega arith, λ h. h)
quiet-IsSteady fd (b ∷ bs) (suc k) = (omega arith, λ h. omega arith)

quiet-LeavesOut : LeavesOut quiet 4
quiet-LeavesOut cb call m e = e

some_steps : List Step
some_steps = writes 4 (1 ∷ 2 ∷ 3 ∷ []) ∷ writes 4 (5 ∷ []) ∷ flushes 4 ∷ []

-- Two bytes go out, the rest is held back behind them.
held_back :
    let (w, m) = write quiet 4 (1 ∷ 2 ∷ 3 ∷ []) (fresh 2) in
    (w ≡ returned 2) × (m.sent ≡ (4, 1 ∷ 2 ∷ []) ∷ []) × (m.write_buf ≡ (4, 3 ∷ []) ∷ [])
unfolding write takes contains lookup insert bytes_at
held_back = (refl, refl, refl)

-- A read callback that closes its descriptor while EPOLLOUT is reported too: the descriptor is
-- queued for `::close`, and is watched again with no callbacks.
watched_after_close :
    let flags = record (no_events false) { epoll_in = true; epoll_out = true } in
    let m = handle_event closing 4 flags (fresh 2) in
    (m.fds ≡ (4, []) ∷ []) × (m.close_fds ≡ 4 ∷ [])
unfolding handle_event contains lookup insert erase
watched_after_close = (refl, refl)

run_steps-stream_example :
    (m' : Manager ℕ) × (run_steps quiet some_steps (fresh 2) ≡ some m')
    × ((fd : ℕ) → stream fd m' ≡ stream fd (fresh 2) ++ told fd some_steps)
run_steps-stream_example = run_steps-stream quiet some_steps (fresh 2) quiet-IsSteady refl

close-close_example :
    let m' = (close quiet 4 false (fresh 2)).1 in
    (lookup 4 m'.fds ≡ none)
    × (close quiet 4 true m' ≡ (true, add_close_fd 4 (drop_ssl_and_buf 4 m')))
close-close_example = close-close quiet 4 false true (fresh 2) quiet-LeavesOut
