-- ===== src/Events/Streams.antt =====
-- EventManager::write and EventManager::_finish_write_buf in any order, against a queue of bytes for
-- each descriptor.
use universe.Base.{
  ℕ, ◌==◌, Bool, true, false, if◌then◌else◌, List, [], ◌∷◌, ◌++◌, Option, none, some, ◌≡◌, ◌∙◌, sym,
  refl, arith, append_assoc, append-nil, inl, inr, Option-cases,
}
use universe.Base.Maps.{lookup, erase, contains, nat_key}
use universe.Events.{
  Manager, System, Written, returned, failed, spinning, write, finish_write_buf, sent_to, bytes_at,
}
use universe.Events.Writes.{
  IsSteady, IsStreamed, IsDelivered, stream, write-IsDelivered, bytes_at-erase,
}

-- What the loop does to a descriptor: the application writes, or EPOLLOUT is reported.
pub data Step : Type 0 where
  writes : ℕ → List ℕ → Step
  flushes : ℕ → Step

-- The queue as the application sees it.
unfoldable pub told : ℕ → List Step → List ℕ
told fd [] = []
told fd (writes j bytes ∷ steps) =
    let rest = told fd steps in if j == fd then bytes ++ rest else rest
told fd (flushes j ∷ steps) = told fd steps

abbrev pub unless_failed : {K : Type 0} → Written × Manager K → Option (Manager K)
unless_failed (returned n, m) = some m
unless_failed (failed, m) = none
unless_failed (spinning, m) = none

unless_failed-returned :
    {K : Type 0} (answer : Written × Manager K) (n : ℕ)
    → answer.0 ≡ returned n
    → unless_failed answer ≡ some answer.1
unless_failed-returned (returned k, m) n e = refl
unless_failed-returned (failed, m) n e = absurd cc
unless_failed-returned (spinning, m) n e = absurd cc

module _ {K : Type 0} (sys : System K) where
  -- None where a `write` has returned -1 or has not ended.
  unfoldable pub run_steps : List Step → Manager K → Option (Manager K)
  unfolding write finish_write_buf
  run_steps [] m = some m
  run_steps (writes fd bytes ∷ steps) m = elim (unless_failed (write sys fd bytes m)) [
    | some m' ↦ run_steps steps m'
    | none ↦ none
  ]
  run_steps (flushes fd ∷ steps) m = run_steps steps (finish_write_buf sys fd m).1

  finish_write_buf-IsStreamed :
      (fd : ℕ) (m : Manager K)
      → IsSteady sys
      → contains fd m.fd_ssl ≡ false
      → IsStreamed fd [] m (finish_write_buf sys fd m).1
  unfolding finish_write_buf stream IsDelivered bytes_at
  finish_write_buf-IsStreamed fd m steady is_plain = elim (Option-cases (lookup fd m.write_buf)) [
    | inl e ↦
        rw (e, finish_write_buf)
          (record { streams = λ j. nothing_more (fd == j) (stream j m); plain_kept = refl })
    | inr (buf, e) ↦
        let m1 : Manager K = record m { write_buf = erase fd m.write_buf } in
        let (counted, h) = write-IsDelivered sys fd buf m1 steady is_plain in
        rw (e, finish_write_buf)
          (record { streams = λ j. h.streams j ∙ moved j buf e; plain_kept = h.plain_kept })
  ]
    where
      nothing_more : (b : Bool) (xs : List ℕ) → xs ≡ (if b then xs ++ [] else xs)
      nothing_more true xs = sym (append-nil xs)
      nothing_more false xs = refl

      moved :
          (j : ℕ) (buf : List ℕ)
          → lookup fd m.write_buf ≡ some buf
          → (let m1 : Manager K = record m { write_buf = erase fd m.write_buf } in
              if fd == j then stream j m1 ++ buf else stream j m1)
            ≡ (if fd == j then stream j m ++ [] else stream j m)
      moved j buf e =
          let own : bytes_at fd m.write_buf ≡ buf = rw (e, bytes_at) refl in
          ground (
            arith,
            bytes_at-erase fd j m.write_buf,
            append-nil (sent_to fd m),
            append-nil (stream fd m),
          )

  no_ssl : (fd : ℕ) (m : Manager K) → m.fd_ssl ≡ [] → contains fd m.fd_ssl ≡ false
  unfolding contains lookup
  no_ssl fd m is_plain = rw is_plain refl

  -- For a kernel whose `::write` takes at least one byte of what there is or says EAGAIN, and
  -- descriptors without TLS, writes and flushes in any order all end without a failure, and what
  -- the kernel has taken of a descriptor, followed by what is held back, grows by just what was
  -- written to it, in order.
  pub run_steps-stream :
      (steps : List Step) (m : Manager K)
      → IsSteady sys
      → m.fd_ssl ≡ []
      → (m' : Manager K) × (run_steps steps m ≡ some m')
        × ((fd : ℕ) → stream fd m' ≡ stream fd m ++ told fd steps)
  unfolding run_steps told IsDelivered
  run_steps-stream [] m steady is_plain = (m, refl, λ fd. sym (append-nil (stream fd m)))
  run_steps-stream (writes fd bytes ∷ steps) m steady is_plain =
      let ((n, counted), h) = write-IsDelivered sys fd bytes m steady (no_ssl fd m is_plain) in
      let (m', e, streams) =
        run_steps-stream steps (write sys fd bytes m).1 steady (h.plain_kept ∙ is_plain) in
      (
        m',
        rw (unless_failed-returned (write sys fd bytes m) n counted, run_steps) e,
        λ j.
            let k = h.streams j in
            let l = streams j in ground (arith, append_assoc (stream j m) bytes (told j steps)),
      )
  run_steps-stream (flushes fd ∷ steps) m steady is_plain =
      let h = finish_write_buf-IsStreamed fd m steady (no_ssl fd m is_plain) in
      let (m', e, streams) =
        run_steps-stream steps (finish_write_buf sys fd m).1 steady (h.plain_kept ∙ is_plain) in
      (
        m',
        e,
        λ j. let k = h.streams j in let l = streams j in ground (arith, append-nil (stream j m)),
      )
