-- ===== src/Events/Loop.antt =====
-- EventManager::read, and EventManager::handle_events: the callbacks of one `epoll_wait`. A callback
-- may call the manager again, but does not wait for events itself.
use universe.Base.{
  ℕ, ◌==◌, Bool, true, false, not, ◌||◌, ◌&&◌, if◌then◌else◌, List, [], ◌∷◌, ◌++◌, none, some,
}
use universe.Base.Maps.{lookup, insert, erase, contains, nat_key}
use universe.Tunnel.{ok, ng}
use universe.Events.{
  Manager, System, Mask, ReadAnswer, got, eof, read_error, plain, message_of, connect_of,
  connect_event, read_event, write_event, error_event, close_event, event_key, callbacks_of, fire,
  unwatch, add_close_fd, finish_write_buf, auto_rewatch,
}

unfoldable pub read_loop : List ReadAnswer → List ℕ → List ℕ
read_loop [] message = message
read_loop (got bytes ∷ answers) message = read_loop answers (message ++ bytes)
read_loop (read_error ∷ answers) message = read_loop answers message
read_loop (eof ∷ answers) message = message

-- What `epoll_wait` gave: -1 by EINTR, -1 by another error, or some events.
pub data Waited : Type 0 where
  interrupted wait_error : Waited
  events : List (ℕ × Mask) → Waited

module _ {K : Type 0} (sys : System K) where
  unfoldable pub read : ℕ → Manager K → List ℕ × Manager K
  unfolding read_loop
  read fd m =
      if contains fd m.fd_ssl
      then sys.ssl_read fd m
      else let (answers, kernel) = sys.sys_read fd m.kernel in
        (read_loop answers [], record m { kernel = kernel })

  -- `_fds[fd].erase(CONNECT)` and `_current_cb.erase(CONNECT)`.
  abbrev pub forget_connect : ℕ → Manager K → Manager K
  forget_connect fd m =
      let (ecb, m') = callbacks_of fd m in
      record m' {
        fds = insert fd (erase connect_event ecb) m'.fds;
        current_cb = erase connect_event m'.current_cb;
      }

  abbrev pub handshake_if : ℕ → Manager K → Bool × Manager K
  handshake_if fd m = if contains fd m.fd_ssl then sys.ssl_handshake fd m else (true, m)

  abbrev pub is_up : ℕ → Mask → Manager K → Bool
  is_up fd flags m =
      not (flags.epoll_err || flags.epoll_hup)
      && (flags.epoll_out
          && elim (sys.socket_error fd m.kernel) [ some result ↦ result == 0 | none ↦ false ])

  -- The connect callback. The flag says whether the rest of the round is run.
  unfoldable pub connect_step : ℕ → Mask → Manager K → Bool × Manager K
  unfolding callbacks_of fire unwatch
  connect_step fd flags m = elim (lookup connect_event m.current_cb) [
    | none ↦ (true, m)
    | some f ↦
        if is_up fd flags m
        then (true, fire sys f (connect_of fd ok) (forget_connect fd (handshake_if fd m).1))
        else (false, fire sys f (connect_of fd ng) (unwatch sys fd false (forget_connect fd m)).1)
  ]

  unfoldable pub read_step : ℕ → Mask → Manager K → Manager K
  unfolding read fire
  read_step fd flags m =
      if flags.epoll_in
      then (let (ready, m1) = handshake_if fd m in
          if ready
          then elim (lookup read_event m1.current_cb) [
            | some f ↦
                if sys.want_message f
                then (let (message, m2) = read fd m1 in fire sys f (message_of fd message) m2)
                else fire sys f (plain fd) m1
            | none ↦ m1
          ]
          else m1)
      else m

  unfoldable pub write_step : ℕ → Mask → Manager K → Manager K
  unfolding finish_write_buf fire auto_rewatch
  write_step fd flags m =
      if flags.epoll_out
      then (let (write_buf_done, m1) = finish_write_buf sys fd m in
          if write_buf_done
          then elim (lookup write_event m1.current_cb) [
            | some f ↦ fire sys f (plain fd) m1
            | none ↦ (auto_rewatch sys fd false m1).1
          ]
          else m1)
      else m

  -- The error callback, and the flags as they are from there on.
  unfoldable pub error_step : ℕ → Mask → Manager K → Mask × Manager K
  unfolding fire
  error_step fd flags m =
      if flags.epoll_err
      then elim (lookup error_event m.current_cb) [
        | some f ↦ (flags, fire sys f (plain fd) m)
        | none ↦ (record flags { epoll_hup = true }, m)
      ]
      else (flags, m)

  unfoldable pub hang_up_step : ℕ → Mask → Manager K → Manager K
  unfolding unwatch add_close_fd fire
  hang_up_step fd flags m =
      if flags.epoll_rdhup || flags.epoll_hup
      then (let (taken, m') = unwatch sys fd false m in
          if taken
          then (let queued = add_close_fd fd m' in
              elim (lookup close_event m.current_cb) [
                | some f ↦ fire sys f (plain fd) queued
                | none ↦ queued
              ])
          else m')
      else m

  unfoldable pub handle_event : ℕ → Mask → Manager K → Manager K
  unfolding connect_step read_step write_step error_step hang_up_step
  handle_event fd flags m0 =
      let m : Manager K = record m0 { current_fd = some fd } in
      elim (lookup fd m.fds) [
        | none ↦ m
        | some ecb ↦
            let (more, m1) = connect_step fd flags (record m { current_cb = ecb }) in
            if more
            then (let m2 = write_step fd flags (read_step fd flags m1) in
                let (flags', m3) = error_step fd flags m2 in hang_up_step fd flags' m3)
            else m1
      ]

  unfoldable pub handle_each : List (ℕ × Mask) → Manager K → Manager K
  unfolding handle_event
  handle_each [] m = m
  handle_each ((fd, flags) ∷ es) m = handle_each es (handle_event fd flags m)

  unfoldable pub close_each : List ℕ → K → K
  close_each [] kernel = kernel
  close_each (fd ∷ fds) kernel = close_each fds (sys.sys_close fd kernel)

  unfoldable pub handle_events : Waited → Manager K → Manager K
  unfolding handle_each close_each
  handle_events interrupted m = m
  handle_events wait_error m = record m { exited = true }
  handle_events (events es) m =
      let m' = handle_each es m in
      record m' { current_fd = none; kernel = close_each m'.close_fds m'.kernel; close_fds = [] }
