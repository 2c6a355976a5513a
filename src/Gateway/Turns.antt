-- ===== src/Gateway/Turns.antt =====
-- One request at a time: what a client sends while its response is due is held back; and what a
-- response leaves behind.
use universe.Base.{
  ℕ, ◌==◌, true, false, Bool, if◌then◌else◌, List, [], ◌∷◌, ◌++◌, none, some, ◌≡◌, refl, sym, ap,
  ◌∙◌, arith, append_assoc, append-nil, flatten, Option-cases, inl, inr,
}
use universe.Base.Maps.{lookup, insert, erase, nat_key, lookup-insert, lookup-erase, erase_absent}
use universe.StateMachine.Buffers.{Buffers, append_buf, need_buf}
use universe.StateMachine.States.{get_state}
use universe.Gateway.{
  Gateway, Outcome, running, dead, stuck, Outside, parsing_response, parsing_request, on_message,
}

unfoldable pub held : ℕ → Buffers → List ℕ
held client buf = elim (lookup client buf) [ some bytes ↦ bytes | none ↦ [] ]

module _ (out : Outside) where
  unfoldable pub then_message : ℕ → List ℕ → Outcome → Outcome
  unfolding on_message
  then_message client message (running g) = on_message out client message g
  then_message client message dead = dead
  then_message client message stuck = stuck

  unfoldable pub on_messages : ℕ → List (List ℕ) → Outcome → Outcome
  unfolding then_message
  on_messages client [] g = g
  on_messages client (p ∷ ps) g = on_messages client ps (then_message client p g)

  on_message_waiting :
      (client : ℕ) (message : List ℕ) (g : Gateway)
      → (get_state parsing_request client g.states).0 ≡ parsing_response
      → on_message out client message g
        ≡ running
            (record g { buf = insert client (held client g.buf ++ message) (erase client g.buf) })
  unfolding on_message need_buf held append_buf
  on_message_waiting client message g due = elim (Option-cases (lookup client g.buf)) [
    | inl e ↦
        rw (due, on_message)
          (rw (e, append_buf, held)
            (ap (λ b. running (record g { buf = insert client message b }))
              (sym (erase_absent client g.buf e))))
    | inr (bytes, e) ↦ rw (due, on_message) (rw (e, append_buf, held) refl)
  ]

  held-again :
      (client j : ℕ) (bytes : List ℕ) (buf : Buffers)
      → held j (insert client bytes (erase client buf))
        ≡ (if client == j then bytes else held j buf)
  unfolding held
  held-again client j bytes buf =
      ground (arith, lookup-insert client j bytes (erase client buf), lookup-erase client j buf)

  -- While its response is due, what a client sends is only held back, in order and behind what is
  -- held already: nothing is parsed, no connection is made, and the other buffers stay.
  pub on_messages-held :
      (client : ℕ) (ps : List (List ℕ)) (g : Gateway)
      → (get_state parsing_request client g.states).0 ≡ parsing_response
      → (buf : Buffers) × (on_messages client ps (running g) ≡ running (record g { buf = buf }))
        × ((j : ℕ)
            → held j buf ≡ (if client == j then held j g.buf ++ flatten ps else held j g.buf))
  unfolding on_messages
  on_messages-held client [] g due = (g.buf, refl, λ j. nothing_more (client == j) (held j g.buf))
    where
      nothing_more : (b : Bool) (xs : List ℕ) → xs ≡ (if b then xs ++ [] else xs)
      nothing_more true xs = sym (append-nil xs)
      nothing_more false xs = refl
  on_messages-held client (p ∷ ps) g due =
      let buf1 = insert client (held client g.buf ++ p) (erase client g.buf) in
      let (buf, run, kept) = on_messages-held client ps (record g { buf = buf1 }) due in
      (
        buf,
        ap (on_messages client ps) (on_message_waiting client p g due) ∙ run,
        λ j. kept j ∙ both j (held-again client j (held client g.buf ++ p) g.buf),
      )
    where
      both :
          (j : ℕ) {now : List ℕ}
          → now ≡ (if client == j then held client g.buf ++ p else held j g.buf)
          → (if client == j then now ++ flatten ps else now)
            ≡ (if client == j then held j g.buf ++ (p ++ flatten ps) else held j g.buf)
      both j e = ground (arith, append_assoc (held client g.buf) p (flatten ps))
