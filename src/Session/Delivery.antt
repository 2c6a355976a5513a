-- ===== src/Session/Delivery.antt =====
-- A protocol handler gets a stream in whatever pieces the socket reads. It does the same for every
-- way to cut the stream.
use universe.Base.{
  ℕ, zero, suc, ◌≡◌, ◌≢◌, refl, sym, ap, ◌∙◌, List, [], ◌∷◌, ◌++◌, append_assoc, append-nil,
  flatten, All, arith, none, some, Option-cases, inl, inr,
}
use universe.Base.Maps.{
  lookup, insert, erase, lookup-erase_self, lookup-insert_self, erase-insert, nat_key,
}
use universe.Reader.{R, at_end}
use universe.Session.{Ending, finished, returned, again, refused, crashed, exhausted, Exit}
use universe.Session.Framing.{IsFraming}
use universe.Session.Chunks.{
  Outcome, drained, left_loop, holds, rejected, aborted, ran_out, outcome, serve, serve_all, resume,
  serve_all-append, serve-ne-ran_out,
}
use universe.Session.Host.{
  Host, Action, Session, opened, shut, dead, stuck, close, catch_block, receive, then_receive,
  receive_pieces,
}
use universe.StateMachine.Buffers.{Buffers, need_buf, append_buf_held, append_buf-none}

abbrev settle : ℕ → Buffers → Outcome (List Action) → Session
settle client buf (drained acts) = opened (record { buf = buf; actions = acts })
settle client buf (left_loop acts) = shut (close client (record { buf = buf; actions = acts }))
settle client buf (holds rest acts) =
    opened (record { buf = insert client rest buf; actions = acts })
settle client buf (rejected acts) = shut (close client (record { buf = buf; actions = acts }))
settle client buf (aborted acts) = dead acts
settle client buf ran_out = stuck

catch_block-settle :
    (client : ℕ) (message : List ℕ) (buf : Buffers) (e : Ending (List Action))
    → catch_block client message buf e ≡ settle client buf (outcome message e)
unfolding catch_block need_buf
catch_block-settle client message buf (finished acts) = refl
catch_block-settle client message buf (returned acts) = refl
catch_block-settle client message buf (again zero acts) = refl
catch_block-settle client message buf (again (suc n) acts) = ground arith
catch_block-settle client message buf (refused acts) = refl
catch_block-settle client message buf (crashed acts) = refl
catch_block-settle client message buf exhausted = refl

-- What a connection holds back, and the other buffers.
held_of : ℕ → Buffers → List ℕ
held_of client buf = elim (lookup client buf) [ some held ↦ held | none ↦ [] ]

others_of : ℕ → Buffers → Buffers
others_of client buf = elim (lookup client buf) [ some held ↦ erase client buf | none ↦ buf ]

module _ {A : Type 0} (parse : R A) (handle : A → List Action → List Action × Exit)
    (framing : IsFraming parse) where
  receive_lem :
      (client : ℕ) (message : List ℕ) (h : Host)
      → receive parse handle client message h
        ≡ settle client
            (others_of client h.buf)
            (serve_all parse handle framing (held_of client h.buf ++ message) h.actions)
  unfolding receive held_of others_of serve_all serve
  receive_lem client message h = elim (Option-cases (lookup client h.buf)) [
    | inl e ↦
        rw (append_buf-none client message h.buf e)
          (rw (e, held_of, others_of) (catch_block-settle client message h.buf _))
    | inr (held, e) ↦ rw (append_buf_held client held message h.buf e) (
        rw (e, held_of, others_of)
          (catch_block-settle client (held ++ message) (erase client h.buf) _))
  ]

  others_absent : (client : ℕ) (buf : Buffers) → lookup client (others_of client buf) ≡ none
  unfolding others_of
  others_absent client buf = elim (Option-cases (lookup client buf)) [
    | inl e ↦ rw (e, others_of) e
    | inr (held, e) ↦ rw (e, others_of) (lookup-erase_self client buf)
  ]

  receive_absent :
      (client : ℕ) (message : List ℕ) (buf : Buffers) (acts : List Action)
      → lookup client buf ≡ none
      → receive parse handle client message (record { buf = buf; actions = acts })
        ≡ settle client buf (serve_all parse handle framing message acts)
  unfolding held_of others_of
  receive_absent client message buf acts e =
      receive_lem client message _ ∙ rw (e, held_of, others_of) refl

  receive_held :
      (client : ℕ) (rest message : List ℕ) (buf : Buffers) (acts : List Action)
      → lookup client buf ≡ none
      → receive parse handle client message
          (record { buf = insert client rest buf; actions = acts })
        ≡ settle client buf (serve_all parse handle framing (rest ++ message) acts)
  unfolding held_of others_of
  receive_held client rest message buf acts e =
      receive_lem client message _
      ∙ rw (lookup-insert_self client rest buf, held_of, others_of)
          (rw (erase-insert client rest buf e) refl)

  then_receive-settle :
      (client : ℕ) (message : List ℕ) (buf : Buffers) (o : Outcome (List Action))
      → message ≢ []
      → lookup client buf ≡ none
      → then_receive parse handle client message (settle client buf o)
        ≡ settle client buf (resume parse handle framing message o)
  unfolding then_receive at_end
  then_receive-settle client [] buf o some_bytes e = absurd (some_bytes refl)
  then_receive-settle client (b ∷ bs) buf (drained acts) some_bytes e =
      ground (arith, receive_absent client (b ∷ bs) buf acts e)
  then_receive-settle client (b ∷ bs) buf (holds rest acts) some_bytes e =
      receive_held client rest (b ∷ bs) buf acts e
  then_receive-settle client (b ∷ bs) buf (left_loop acts) some_bytes e = refl
  then_receive-settle client (b ∷ bs) buf (rejected acts) some_bytes e = refl
  then_receive-settle client (b ∷ bs) buf (aborted acts) some_bytes e = refl
  then_receive-settle client (b ∷ bs) buf ran_out some_bytes e = refl

  -- Two pieces, the second not empty, or both at once: the same actions in the same order, the same
  -- bytes held back, and the connection closed or not.
  pub receive-append :
      (client : ℕ) (first second : List ℕ) (h : Host)
      → second ≢ []
      → receive parse handle client (first ++ second) h
        ≡ then_receive parse handle client second (receive parse handle client first h)
  receive-append client first second h some_bytes =
      receive_lem client (first ++ second) h
      ∙ ap (settle client (others_of client h.buf)) (
          ap (λ (t : List ℕ). serve_all parse handle framing t h.actions)
            (sym (append_assoc (held_of client h.buf) first second))
          ∙ serve_all-append parse handle framing (held_of client h.buf ++ first) second h.actions)
      ∙ sym (
          then_receive-settle client second (others_of client h.buf) _ some_bytes
            (others_absent client h.buf))
      ∙ ap (then_receive parse handle client second) (sym (receive_lem client first h))

  -- Any number of pieces, or the whole stream at once.
  pub receive_pieces-flatten :
      (client : ℕ) (first : List ℕ) (pieces : List (List ℕ)) (h : Host)
      → All (λ p. p ≢ []) pieces
      → receive_pieces parse handle client pieces (receive parse handle client first h)
        ≡ receive parse handle client (first ++ flatten pieces) h
  unfolding receive_pieces
  receive_pieces-flatten client first [] h some_bytes = rw (append-nil first)
  receive_pieces-flatten client first (p ∷ ps) h some_bytes =
      ap (receive_pieces parse handle client ps)
        (sym (receive-append client first p h some_bytes.0))
      ∙ receive_pieces-flatten client (first ++ p) ps h some_bytes.1
      ∙ ap (λ (t : List ℕ). receive parse handle client t h) (append_assoc first p (flatten ps))

  settle-ne-stuck :
      (client : ℕ) (buf : Buffers) (o : Outcome (List Action))
      → o ≢ ran_out
      → settle client buf o ≢ stuck
  settle-ne-stuck client buf (drained acts) h e = cc
  settle-ne-stuck client buf (left_loop acts) h e = cc
  settle-ne-stuck client buf (holds rest acts) h e = cc
  settle-ne-stuck client buf (rejected acts) h e = cc
  settle-ne-stuck client buf (aborted acts) h e = cc
  settle-ne-stuck client buf ran_out h e = h refl

  -- The message loop ends on every input.
  pub receive-ne-stuck :
      (client : ℕ) (message : List ℕ) (h : Host) → receive parse handle client message h ≢ stuck
  unfolding serve_all
  receive-ne-stuck client message h e =
      settle-ne-stuck client _ _ (serve-ne-ran_out parse handle framing _ _ h.actions (omega arith))
        (sym (receive_lem client message h) ∙ e)
