-- ===== src/Events.antt =====
-- EventManager.cpp: which descriptors are watched and for what, the bytes that a socket would not
-- take yet, and the dispatch of one `epoll_wait`. The kernel, the callbacks and SSLConnection.cpp are
-- parameters.
pub mod Loop
pub mod Writes
pub mod Streams
pub mod Closing
mod Tests
use universe.Base.{
  ℕ, zero, suc, ◌+◌, ltb, ◌==◌, Bool, true, false, not, ◌||◌, if◌then◌else◌, List, [], ◌∷◌, ◌++◌,
  length, take, drop, Option, none, some, ◌↔◌, ◌≡◌, ==_iff, ◌∙◌, sym, ap, refl,
}
use universe.Base.Maps.{Key, lookup, insert, erase, contains, nat_key}
use universe.Tunnel.{ConnectResult, game_over}

pub data EventType : Type 0 where
  connect_event read_event write_event error_event close_event : EventType

abbrev pub event_code : EventType → ℕ
event_code connect_event = 0
event_code read_event = 1
event_code write_event = 2
event_code error_event = 3
event_code close_event = 4

abbrev event_at : ℕ → EventType
event_at zero = connect_event
event_at (suc zero) = read_event
event_at (suc (suc zero)) = write_event
event_at (suc (suc (suc zero))) = error_event
event_at (suc (suc (suc (suc n)))) = close_event

event_at-event_code : (e : EventType) → event_at (event_code e) ≡ e
event_at-event_code connect_event = refl
event_at-event_code read_event = refl
event_at-event_code write_event = refl
event_at-event_code error_event = refl
event_at-event_code close_event = refl

pub event_same_iff : (a b : EventType) → ((event_code a == event_code b) ≡ true) ↔ (a ≡ b)
event_same_iff a b = (
  λ e.
      sym (event_at-event_code a)
      ∙ ap event_at ((==_iff (event_code a) (event_code b)).0 e)
      ∙ event_at-event_code b,
  λ e. (==_iff (event_code a) (event_code b)).1 (ap event_code e),
)

instance abbrev pub event_key : Key EventType
event_key = record {
  same = λ a b. event_code a == event_code b;
  before = λ a b. ltb (event_code a) (event_code b);
  same_iff = event_same_iff;
}

-- A callback is known by a number.
abbrev pub EventCb : Type 0
EventCb = List (EventType × ℕ)

-- What a callback is called with.
pub data Call : Type 0 where
  plain : ℕ → Call
  message_of : ℕ → List ℕ → Call
  connect_of : ℕ → ConnectResult → Call

-- The bits of `epoll_event::events`.
pub record Mask : Type 0 where
  pub epoll_in : Bool
  pub epoll_out : Bool
  pub epoll_err : Bool
  pub epoll_hup : Bool
  pub epoll_rdhup : Bool
  pub epoll_et : Bool

pub data EpollOp : Type 0 where
  ctl_add ctl_mod ctl_del : EpollOp

-- The object. `kernel` is the state of the world outside, `sent` the bytes `::write` has taken of each
-- descriptor so far, `fired` the callbacks called, and `exited` whether `error_exit` was reached; what
-- happens behind that does not count.
pub record Manager (K : Type 0) : Type 0 where
  pub fds : List (ℕ × EventCb)
  pub fd_ssl : List (ℕ × ℕ)
  pub write_buf : List (ℕ × List ℕ)
  pub close_fds : List ℕ
  pub current_fd : Option ℕ
  pub current_cb : EventCb
  pub kernel : K
  pub sent : List (ℕ × List ℕ)
  pub fired : List (ℕ × Call)
  pub exited : Bool

-- What `::write` answers: a number of bytes taken, EAGAIN or EWOULDBLOCK, EPIPE, another error.
pub data Outcome : Type 0 where
  took : ℕ → Outcome
  again broken_pipe : Outcome
  other_error : ℕ → Outcome

-- What `::read` answers: some bytes, the end, or an error that is not EAGAIN.
pub data ReadAnswer : Type 0 where
  got : List ℕ → ReadAnswer
  eof read_error : ReadAnswer

-- What `write` returns: a number, or -1. `spinning` stands for a loop that has not ended.
pub data Written : Type 0 where
  returned : ℕ → Written
  failed spinning : Written

-- `size == buf.length()`, and false for a `size` below 0.
abbrev pub is_whole : Written → ℕ → Bool
is_whole (returned n) len = n == len
is_whole failed len = false
is_whole spinning len = false

-- The code outside: `epoll_ctl`, `::write`, `::close`, `getsockopt` of SO_ERROR with none for its
-- failure, the answers of `::read` up to EAGAIN, the callbacks, and SSLConnection.cpp.
pub record System (K : Type 0) : Type 0 where
  pub epoll_ctl : EpollOp → ℕ → Mask → K → Bool × K
  pub sys_write : ℕ → List ℕ → K → Outcome × K
  pub sys_close : ℕ → K → K
  pub socket_error : ℕ → K → Option ℕ
  pub sys_read : ℕ → K → List ReadAnswer × K
  pub want_message : ℕ → Bool
  pub run : ℕ → Call → Manager K → Manager K
  pub ssl_write : ℕ → List ℕ → Manager K → Written × Manager K
  pub ssl_read : ℕ → Manager K → List ℕ × Manager K
  pub ssl_handshake : ℕ → Manager K → Bool × Manager K

-- The case of one registered event.
unfoldable pub add_event : EventType → Mask → Mask
add_event read_event v = record v { epoll_in = true }
add_event write_event v = record v { epoll_out = true }
add_event error_event v = v
add_event close_event v = record v { epoll_rdhup = true; epoll_hup = true }
add_event connect_event v = record v { epoll_out = true; epoll_hup = true }

unfoldable pub add_events : EventCb → Mask → Mask
unfolding add_event
add_events [] v = v
add_events ((e, cb) ∷ ecb) v = add_events ecb (add_event e v)

abbrev pub no_events : Bool → Mask
no_events et = record {
  epoll_in = false;
  epoll_out = false;
  epoll_err = false;
  epoll_hup = false;
  epoll_rdhup = false;
  epoll_et = et;
}

abbrev pub is_del : EpollOp → Bool
is_del ctl_del = true
is_del ctl_add = false
is_del ctl_mod = false

-- The bytes kept for a descriptor.
unfoldable pub bytes_at : ℕ → List (ℕ × List ℕ) → List ℕ
bytes_at fd kept = elim (lookup fd kept) [ some bytes ↦ bytes | none ↦ [] ]

module _ {K : Type 0} where
  unfoldable pub has_write_buf : ℕ → Manager K → Bool
  has_write_buf fd m = contains fd m.write_buf

  unfoldable pub count_fds : Manager K → ℕ
  count_fds m = length m.fds

  -- `_fds[fd]`, which makes an empty entry where there is none.
  unfoldable pub callbacks_of : ℕ → Manager K → EventCb × Manager K
  callbacks_of fd m = elim (lookup fd m.fds) [
    | some ecb ↦ (ecb, m)
    | none ↦ ([], record m { fds = insert fd [] m.fds })
  ]

  unfoldable pub add_close_fd : ℕ → Manager K → Manager K
  add_close_fd fd m = record m { close_fds = m.close_fds ++ (fd ∷ []) }

  abbrev pub is_current : ℕ → Manager K → Bool
  is_current fd m = elim m.current_fd [ some c ↦ fd == c | none ↦ false ]

  abbrev pub add_or_mod : ℕ → Manager K → EpollOp
  add_or_mod fd m = if contains fd m.fds then ctl_mod else ctl_add

  abbrev pub drop_ssl_and_buf : ℕ → Manager K → Manager K
  drop_ssl_and_buf fd m = record m { fd_ssl = erase fd m.fd_ssl; write_buf = erase fd m.write_buf }

  abbrev pub close_callback : ℕ → Manager K → Option ℕ
  close_callback fd m = elim (lookup fd m.fds) [ some ecb ↦ lookup close_event ecb | none ↦ none ]

  -- What `::write` took is kept per descriptor.
  abbrev pub sent_to : ℕ → Manager K → List ℕ
  sent_to fd m = bytes_at fd m.sent

  abbrev pub note_sent : ℕ → List ℕ → Manager K → Manager K
  note_sent fd bytes m = record m { sent = insert fd (sent_to fd m ++ bytes) m.sent }

  module _ (sys : System K) where
    unfoldable pub fire : ℕ → Call → Manager K → Manager K
    fire cb call m = sys.run cb call (record m { fired = m.fired ++ ((cb, call) ∷ []) })

    unfoldable pub epoll_update : ℕ → EpollOp → Bool → Manager K → Bool × Manager K
    unfolding callbacks_of has_write_buf add_events
    epoll_update fd epoll_op et m =
        if is_del epoll_op
        then (let (ok, kernel) = sys.epoll_ctl epoll_op fd (no_events et) m.kernel in
            (ok, record m { kernel = kernel }))
        else let (ecb, m') = callbacks_of fd m in
          let events = add_events ecb (no_events et) in
          let wanted : Mask =
            if has_write_buf fd m' then record events { epoll_out = true } else events in
          let (ok, kernel) = sys.epoll_ctl epoll_op fd wanted m'.kernel in
          (ok, record m' { kernel = kernel })

    -- `Utils::set_nonblock` is a call of the kernel that changes nothing here.
    unfoldable pub auto_rewatch : ℕ → Bool → Manager K → Bool × Manager K
    unfolding epoll_update
    auto_rewatch fd et m = epoll_update fd (add_or_mod fd m) et m

    -- `watch` of one event.
    unfoldable pub watch_event : ℕ → EventType → ℕ → Bool → Manager K → Bool × Manager K
    unfolding callbacks_of epoll_update
    watch_event fd event callback et m =
        let op = add_or_mod fd m in
        let (ecb, m1) = callbacks_of fd m in
        let m2 : Manager K = record m1 { fds = insert fd (insert event callback ecb) m1.fds } in
        let m3 : Manager K =
          if is_current fd m2
          then record m2 { current_cb = insert event callback m2.current_cb }
          else m2 in
        epoll_update fd op et m3

    -- `watch` of a whole set of callbacks.
    unfoldable pub watch : ℕ → EventCb → Bool → Bool → Manager K → Bool × Manager K
    unfolding epoll_update
    watch fd callbacks re_watch et m =
        let op = if re_watch then ctl_add else add_or_mod fd m in
        let m1 : Manager K =
          if re_watch
          then m
          else if is_current fd m
          then record m { current_cb = callbacks }
          else m in
        epoll_update fd op et (record m1 { fds = insert fd callbacks m1.fds })

    -- What `unwatch` takes away before any callback, `error_exit` included.
    unfoldable pub take_out : ℕ → Manager K → Manager K
    unfolding epoll_update
    take_out fd m =
        let current_cb : EventCb = if is_current fd m then [] else m.current_cb in
        let m1 : Manager K = record m { current_cb = current_cb; fds = erase fd m.fds } in
        let (ok, m2) = epoll_update fd ctl_del true m1 in record m2 { exited = m2.exited || not ok }

    unfoldable pub unwatch : ℕ → Bool → Manager K → Bool × Manager K
    unfolding take_out fire
    unwatch fd no_callback m = elim (lookup fd m.fds) [
      | none ↦ (false, m)
      | some ecb ↦
          let m' = take_out fd m in
          if no_callback then (true, m') else elim (lookup connect_event ecb) [
            | some cb ↦ (true, fire cb (connect_of fd game_over) m')
            | none ↦ (true, m')
          ]
    ]

    -- `unwatch`, and the descriptor is queued for `::close`.
    abbrev pub unwatch_and_queue : ℕ → Bool → Manager K → Bool × Manager K
    unwatch_and_queue fd force_close m =
        let (ret, m') = unwatch fd false m in
        (ret, if ret || force_close then add_close_fd fd m' else m')

    unfoldable pub close : ℕ → Bool → Manager K → Bool × Manager K
    unfolding unwatch add_close_fd fire
    close fd force_close m0 =
        let m = drop_ssl_and_buf fd m0 in
        let (ret, m') = unwatch_and_queue fd force_close m in
        elim (close_callback fd m) [ some f ↦ (ret, fire f (plain fd) m') | none ↦ (true, m') ]

    unfoldable pub close_listed : List (ℕ × EventCb) → Manager K → Manager K
    unfolding close
    close_listed [] m = m
    close_listed ((fd, ecb) ∷ rest) m =
        let (ok, m') = close fd false m in
        close_listed rest (record m' { exited = m'.exited || not ok })

    -- `close_all` goes through a copy of `_fds`.
    unfoldable pub close_all : Manager K → Manager K
    unfolding close_listed
    close_all m = close_listed m.fds m

    unfoldable pub append_write_buf : ℕ → List ℕ → Manager K → Manager K
    unfolding auto_rewatch
    append_write_buf fd buf m = elim (lookup fd m.write_buf) [
      | none ↦ (auto_rewatch fd false (record m { write_buf = insert fd buf m.write_buf })).1
      | some held ↦ record m { write_buf = insert fd (held ++ buf) m.write_buf }
    ]

    -- The loop of `write`: `size` bytes are out, and `rest` is what `buf + size` points to.
    unfoldable pub write_loop : ℕ → ℕ → ℕ → List ℕ → Manager K → Written × Manager K
    unfolding append_write_buf close
    write_loop zero fd size rest m = (spinning, m)
    write_loop (suc fuel) fd size rest m =
        let (outcome, kernel) = sys.sys_write fd rest m.kernel in
        let m' : Manager K = record m { kernel = kernel } in
        elim outcome [
          | took ret ↦
              let next = drop ret rest in
              let noted = note_sent fd (take ret rest) m' in
              let looped = write_loop fuel fd (size + ret) next noted in
              if ltb 0 (length next) then looped else (returned (size + ret), noted)
          | again ↦ (returned size, append_write_buf fd rest m')
          | broken_pipe ↦ (failed, (close fd false m').1)
          | other_error _ ↦ (failed, m')
        ]

    unfoldable pub write : ℕ → List ℕ → Manager K → Written × Manager K
    unfolding write_loop has_write_buf append_write_buf
    write fd buf m =
        if contains fd m.fd_ssl
        then sys.ssl_write fd buf m
        else if has_write_buf fd m
        then (returned 0, append_write_buf fd buf m)
        else write_loop (suc (length buf)) fd 0 buf m

    unfoldable pub write_line : ℕ → List ℕ → Manager K → Written × Manager K
    unfolding write
    write_line fd message m = write fd (message ++ (10 ∷ [])) m

    unfoldable pub finish_write_buf : ℕ → Manager K → Bool × Manager K
    unfolding write
    finish_write_buf fd m = elim (lookup fd m.write_buf) [
      | none ↦ (true, m)
      | some buf ↦
          let (size, m') = write fd buf (record m { write_buf = erase fd m.write_buf }) in
          (is_whole size (length buf), m')
    ]
