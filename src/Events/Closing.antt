-- ===== src/Events/Closing.antt =====
-- EventManager::close: a descriptor is taken out for good, and a second close calls nothing back.
use universe.Base.{
  ℕ, Bool, true, false, if◌then◌else◌, ◌||◌, none, ◌≡◌, refl, inl, inr, Option-cases, Bool-cases,
}
use universe.Base.Maps.{lookup, nat_key, lookup-erase_self}
use universe.Events.{
  Manager, System, Call, connect_event, event_key, epoll_update, take_out, fire, unwatch,
  add_close_fd, close, drop_ssl_and_buf, close_callback, unwatch_and_queue,
}

-- The callbacks do not watch `fd` again once it is taken out.
abbrev pub LeavesOut : {K : Type 0} → System K → ℕ → Type 0
LeavesOut sys fd =
    (cb : ℕ) (call : Call) (m : Manager _)
    → lookup fd m.fds ≡ none
    → lookup fd (sys.run cb call m).fds ≡ none

module _ {K : Type 0} (sys : System K) where
  take_out-absent : (fd : ℕ) (m : Manager K) → lookup fd (take_out sys fd m).fds ≡ none
  unfolding take_out epoll_update
  take_out-absent fd m = lookup-erase_self fd m.fds

  unwatch-absent :
      (fd : ℕ) (m : Manager K) → LeavesOut sys fd → lookup fd (unwatch sys fd false m).1.fds ≡ none
  unfolding unwatch fire
  unwatch-absent fd m out = elim (Option-cases (lookup fd m.fds)) [
    | inl e ↦ rw (e, unwatch) e
    | inr (ecb, e) ↦
        rw (e, unwatch)
          (elim (Option-cases (lookup connect_event ecb)) [
            | inl f ↦ rw f (take_out-absent fd m)
            | inr (cb, f) ↦ rw f (out cb _ _ (take_out-absent fd m))
          ])
  ]

  queued-absent :
      (fd : ℕ) (force : Bool) (m : Manager K)
      → LeavesOut sys fd
      → lookup fd (unwatch_and_queue sys fd force m).1.fds ≡ none
  unfolding add_close_fd
  queued-absent fd force m out = elim (Bool-cases ((unwatch sys fd false m).0 || force)) [
    | inl e ↦ rw e (unwatch-absent fd m out)
    | inr e ↦ rw e (unwatch-absent fd m out)
  ]

  pub close-absent :
      (fd : ℕ) (force : Bool) (m : Manager K)
      → LeavesOut sys fd
      → lookup fd (close sys fd force m).1.fds ≡ none
  unfolding close fire add_close_fd
  close-absent fd force m out = elim (Option-cases (close_callback fd (drop_ssl_and_buf fd m))) [
    | inl e ↦ rw (e, close) (queued-absent fd force (drop_ssl_and_buf fd m) out)
    | inr (f, e) ↦ rw (e, close) (out f _ _ (queued-absent fd force (drop_ssl_and_buf fd m) out))
  ]

  -- What a close does to a descriptor that is not watched.
  abbrev pub closed_again : ℕ → Bool → Manager K → Manager K
  closed_again fd again m =
      if again then add_close_fd fd (drop_ssl_and_buf fd m) else drop_ssl_and_buf fd m

  -- Where no callback watches the descriptor again, a close takes it out of the watched ones, and a
  -- second close calls nothing back: it drops a TLS connection and a buffer at most, and queues the
  -- descriptor again where it is forced, and only there.
  pub close-close :
      (fd : ℕ) (force again : Bool) (m : Manager K)
      → LeavesOut sys fd
      → let m' = (close sys fd force m).1 in
        (lookup fd m'.fds ≡ none) × (close sys fd again m' ≡ (true, closed_again fd again m'))
  unfolding close unwatch
  close-close fd force again m out = (
    close-absent fd force m out,
    closed_twice again (close sys fd force m).1 (close-absent fd force m out),
  )
    where
      closed_twice :
          (again : Bool) (m' : Manager K)
          → lookup fd m'.fds ≡ none
          → close sys fd again m' ≡ (true, closed_again fd again m')
      closed_twice true m' e = rw (e, close) (rw (e, unwatch) refl)
      closed_twice false m' e = rw (e, close) (rw (e, unwatch) refl)
