-- ===== src/Events/Writes.antt =====
-- The bytes written to a descriptor reach the kernel in order: what it has taken, followed by what
-- is held back, is what was written.
use universe.Base.{
  ℕ, zero, suc, ◌+◌, ◌≤◌, ◌<◌, ltb, ◌==◌, Bool, true, false, if◌then◌else◌, List, [], ◌∷◌, ◌++◌,
  length, take, drop, ◌≡◌, ◌∙◌, ap, refl, arith, append_assoc, append-nil, inl, inr, Option-cases,
  Bool-cases, length-drop, take-append-drop, ltb→lt, subst,
}
use universe.Base.Maps.{lookup, insert, erase, contains, nat_key, lookup-insert, lookup-erase}
use universe.Events.{
  Manager, System, EpollOp, ctl_add, ctl_mod, ctl_del, Outcome, took, again, broken_pipe,
  other_error, Written, returned, failed, epoll_update, auto_rewatch, append_write_buf, write_loop,
  write, close, has_write_buf, callbacks_of, sent_to, bytes_at, note_sent,
}

-- The bytes that are held back for a descriptor.
abbrev pub held : {K : Type 0} → ℕ → Manager K → List ℕ
held fd m = bytes_at fd m.write_buf

-- What the kernel has taken of a descriptor, and then what is held back for it.
unfoldable pub stream : {K : Type 0} → ℕ → Manager K → List ℕ
stream fd m = sent_to fd m ++ held fd m

-- `m'` is `m` with `bytes` written to `fd`.
pub record IsStreamed {K : Type 0} (fd : ℕ) (bytes : List ℕ) (m m' : Manager K) : Type 0 where
  pub streams : (j : ℕ) → stream j m' ≡ (if fd == j then stream j m ++ bytes else stream j m)
  pub plain_kept : m'.fd_ssl ≡ m.fd_ssl

-- A kernel whose `::write` takes at least one byte of what there is and no more than that, or says
-- EAGAIN.
abbrev pub IsSteadyOutcome : ℕ → Outcome → Type 0
IsSteadyOutcome len (took n) = (n ≤ len) × (0 < len → 0 < n)
IsSteadyOutcome len again = Unit
IsSteadyOutcome len broken_pipe = ⊥
IsSteadyOutcome len (other_error _) = ⊥

abbrev pub IsSteady : {K : Type 0} → System K → Type 0
IsSteady sys =
    (fd : ℕ) (bytes : List ℕ) (kernel : _)
    → IsSteadyOutcome (length bytes) (sys.sys_write fd bytes kernel).0

bytes_at-insert :
    (fd j : ℕ) (bytes : List ℕ) (kept : List (ℕ × List ℕ))
    → bytes_at j (insert fd bytes kept) ≡ (if fd == j then bytes else bytes_at j kept)
unfolding bytes_at
bytes_at-insert fd j bytes kept = ground (arith, lookup-insert fd j bytes kept)

pub bytes_at-erase :
    (fd j : ℕ) (kept : List (ℕ × List ℕ))
    → bytes_at j (erase fd kept) ≡ (if fd == j then [] else bytes_at j kept)
unfolding bytes_at
bytes_at-erase fd j kept = ground (arith, lookup-erase fd j kept)

append_behind :
    (f : ℕ → List ℕ) (fd j : ℕ) (front bytes : List ℕ)
    → front ++ (if fd == j then f fd ++ bytes else f j)
      ≡ (if fd == j then (front ++ f j) ++ bytes else front ++ f j)
append_behind f fd j front bytes = ground (arith, append_assoc front (f j) bytes)

append_between :
    (f g : ℕ → List ℕ) (fd j : ℕ) (bytes : List ℕ)
    → g fd ≡ []
    → (if fd == j then f fd ++ bytes else f j) ++ g j
      ≡ (if fd == j then (f j ++ g j) ++ bytes else f j ++ g j)
append_between f g fd j bytes none_held =
    ground (arith, append-nil (f fd), append-nil (f fd ++ bytes))

-- The kernel's own state has no part in it.
IsStreamed-kernel :
    {K : Type 0} (fd : ℕ) (bytes : List ℕ) (kernel : K) (m m' : Manager K)
    → IsStreamed fd bytes (record m { kernel = kernel }) m'
    → IsStreamed fd bytes m m'
unfolding stream
IsStreamed-kernel fd bytes kernel m m' h = record { streams = h.streams; plain_kept = h.plain_kept }

IsStreamed-trans :
    {K : Type 0} (fd : ℕ) (xs ys : List ℕ) (m m1 m2 : Manager K)
    → IsStreamed fd xs m m1
    → IsStreamed fd ys m1 m2
    → IsStreamed fd (xs ++ ys) m m2
IsStreamed-trans fd xs ys m m1 m2 h k = record {
  streams = λ j.
      let first = h.streams j in
      let second = k.streams j in ground (arith, append_assoc (stream j m) xs ys);
  plain_kept = k.plain_kept ∙ h.plain_kept;
}

take_all : (n : ℕ) (xs : List ℕ) → ltb 0 (length (drop n xs)) ≡ false → take n xs ≡ xs
take_all zero [] h = refl
take_all zero (x ∷ xs) h = absurd (ground arith)
take_all (suc n) [] h = refl
take_all (suc n) (x ∷ xs) h = ap (◌∷◌ x) (take_all n xs h)

fewer :
    (n : ℕ) (xs : List ℕ) (fuel : ℕ)
    → length xs < suc fuel
    → (0 < length xs → 0 < n)
    → ltb 0 (length (drop n xs)) ≡ true
    → length (drop n xs) < fuel
fewer n xs fuel enough moves more =
    let k = ltb→lt 0 (length (drop n xs)) more in
    let j = moves (omega (arith, length-drop n xs)) in omega (arith, length-drop n xs)

module _ {K : Type 0} (sys : System K) where
  epoll_update-kept :
      (fd : ℕ) (op : EpollOp) (et : Bool) (m : Manager K)
      → let m' = (epoll_update sys fd op et m).1 in
        (m'.write_buf ≡ m.write_buf) × (m'.sent ≡ m.sent) × (m'.fd_ssl ≡ m.fd_ssl)
  unfolding epoll_update callbacks_of
  epoll_update-kept fd ctl_del et m = (refl, refl, refl)
  epoll_update-kept fd ctl_add et m = elim (Option-cases (lookup fd m.fds)) [
    | inl e ↦ rw (e, epoll_update, callbacks_of) (refl, refl, refl)
    | inr (ecb, e) ↦ rw (e, epoll_update, callbacks_of) (refl, refl, refl)
  ]
  epoll_update-kept fd ctl_mod et m = elim (Option-cases (lookup fd m.fds)) [
    | inl e ↦ rw (e, epoll_update, callbacks_of) (refl, refl, refl)
    | inr (ecb, e) ↦ rw (e, epoll_update, callbacks_of) (refl, refl, refl)
  ]

  append_write_buf-kept :
      (fd : ℕ) (buf : List ℕ) (m : Manager K)
      → let m' = append_write_buf sys fd buf m in
        (m'.write_buf ≡ insert fd (held fd m ++ buf) m.write_buf)
        × (m'.sent ≡ m.sent)
        × (m'.fd_ssl ≡ m.fd_ssl)
  unfolding append_write_buf auto_rewatch bytes_at
  append_write_buf-kept fd buf m = elim (Option-cases (lookup fd m.write_buf)) [
    | inl e ↦ rw (e, append_write_buf, bytes_at) (epoll_update-kept fd _ false _)
    | inr (bytes, e) ↦ rw (e, append_write_buf, bytes_at) (refl, refl, refl)
  ]

  append_write_buf-IsStreamed :
      (fd : ℕ) (buf : List ℕ) (m : Manager K) → IsStreamed fd buf m (append_write_buf sys fd buf m)
  unfolding stream
  append_write_buf-IsStreamed fd buf m =
      let (b, s, l) = append_write_buf-kept fd buf m in
      record {
        streams = λ j.
            ap (λ x. bytes_at j x ++ held j (append_write_buf sys fd buf m)) s
            ∙ ap (λ x. sent_to j m ++ bytes_at j x) b
            ∙ ap (sent_to j m ++◌) (bytes_at-insert fd j (held fd m ++ buf) m.write_buf)
            ∙ append_behind (λ k. held k m) fd j (sent_to j m) buf;
        plain_kept = l;
      }

  note_sent-IsStreamed :
      (fd : ℕ) (bytes : List ℕ) (m : Manager K)
      → held fd m ≡ []
      → IsStreamed fd bytes m (note_sent fd bytes m)
  unfolding stream
  note_sent-IsStreamed fd bytes m none_held = record {
    streams = λ j.
        ap (λ x. x ++ held j m) (bytes_at-insert fd j (sent_to fd m ++ bytes) m.sent)
        ∙ append_between (λ k. sent_to k m) (λ k. held k m) fd j bytes none_held;
    plain_kept = refl;
  }

  -- What a kernel that is steady does to the loop of `write`.
  unfoldable pub IsDelivered : ℕ → List ℕ → Manager K → Written × Manager K → Type 0
  IsDelivered fd bytes m (w, m') = ((n : ℕ) × (w ≡ returned n)) × IsStreamed fd bytes m m'

  write_loop-IsDelivered :
      (fuel fd size : ℕ) (rest : List ℕ) (m : Manager K)
      → IsSteady sys
      → length rest < fuel
      → held fd m ≡ []
      → IsDelivered fd rest m (write_loop sys fuel fd size rest m)
  unfolding write_loop IsDelivered
  write_loop-IsDelivered zero fd size rest m steady enough none_held = absurd (omega arith)
  write_loop-IsDelivered (suc fuel) fd size rest m steady enough none_held =
      go (sys.sys_write fd rest m.kernel) (steady fd rest m.kernel)
        (λ s r k. write_loop-IsDelivered fuel fd s r k steady)
    where
      looped : ℕ → K → Written × Manager K
      looped n kernel =
          write_loop sys fuel fd (size + n) (drop n rest)
            (note_sent fd (take n rest) (record m { kernel = kernel }))

      go :
          (answer : Outcome × K)
          → IsSteadyOutcome (length rest) answer.0
          → ((s : ℕ) (r : List ℕ) (k : Manager K)
              → length r < fuel
              → held fd k ≡ []
              → IsDelivered fd r k (write_loop sys fuel fd s r k))
          → IsDelivered fd rest m (
              let (outcome, kernel) = answer in
              let m' : Manager K = record m { kernel = kernel } in
              elim outcome [
                | took ret ↦
                    let next = drop ret rest in
                    let noted = note_sent fd (take ret rest) m' in
                    let looped = write_loop sys fuel fd (size + ret) next noted in
                    if ltb 0 (length next) then looped else (returned (size + ret), noted)
                | again ↦ (returned size, append_write_buf sys fd rest m')
                | broken_pipe ↦ (failed, (close sys fd false m').1)
                | other_error _ ↦ (failed, m')
              ])
      go (took n, kernel) (small, moves) ih =
          let noted =
            IsStreamed-kernel fd (take n rest) kernel m
              (note_sent fd (take n rest) (record m { kernel = kernel }))
              (note_sent-IsStreamed fd (take n rest) (record m { kernel = kernel }) none_held) in
          elim (Bool-cases (ltb 0 (length (drop n rest)))) [
            | inl more ↦ rw more (
                let (counted, later) =
                  ih (size + n) (drop n rest)
                    (note_sent fd (take n rest) (record m { kernel = kernel }))
                    (fewer n rest fuel enough moves more) none_held in
                (
                  counted,
                  subst (λ x. IsStreamed fd x m (looped n kernel).1) (take-append-drop n rest)
                      (IsStreamed-trans fd (take n rest) (drop n rest) m
                        (note_sent fd (take n rest) (record m { kernel = kernel }))
                        (looped n kernel).1 noted later),
                ))
            | inr all ↦ rw all (
              (size + n, refl),
              subst
                  (λ x.
                    IsStreamed fd x m (note_sent fd (take n rest) (record m { kernel = kernel })))
                  (take_all n rest all) noted,
            )
          ]
      go (again, kernel) h ih = (
        (size, refl),
        IsStreamed-kernel fd rest kernel m
            (append_write_buf sys fd rest (record m { kernel = kernel }))
            (append_write_buf-IsStreamed fd rest (record m { kernel = kernel })),
      )
      go (broken_pipe, kernel) h ih = absurd h
      go (other_error e, kernel) h ih = absurd h

  pub write-IsDelivered :
      (fd : ℕ) (bytes : List ℕ) (m : Manager K)
      → IsSteady sys
      → contains fd m.fd_ssl ≡ false
      → IsDelivered fd bytes m (write sys fd bytes m)
  unfolding write has_write_buf IsDelivered contains bytes_at
  write-IsDelivered fd bytes m steady is_plain = elim (Option-cases (lookup fd m.write_buf)) [
    | inl e ↦
        rw (is_plain, e, write, contains)
          (write_loop-IsDelivered (suc (length bytes)) fd 0 bytes m steady (omega arith)
            (rw (e, bytes_at) refl))
    | inr (bytes', e) ↦
        rw (is_plain, e, write, contains) ((0, refl), append_write_buf-IsStreamed fd bytes m)
  ]
