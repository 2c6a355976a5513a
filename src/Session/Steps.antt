-- ===== src/Session/Steps.antt =====
-- One round of the message loop whose packet is handled without leaving it.
use universe.Base.{ℕ, suc, ◌≡◌, ◌∙◌, ap, refl, true, false, if◌then◌else◌}
use universe.Reader.{Reader, R, ok, at_end}
use universe.Session.{Ending, finished, returned, crashed, serve_loop, Exit, stay, leave, throws}

module _ {A S : Type 0} (parse : R A) (handle : A → S → S × Exit) where
  abbrev settled : ℕ → Reader → S × Exit → Ending S
  settled fuel r (w, stay) =
      if at_end r then finished w else serve_loop parse handle fuel r r.offset w
  settled fuel r (w, leave) = returned w
  settled fuel r (w, throws) = crashed w

  serve_loop-parsed :
      (fuel offset : ℕ) (r r' : Reader) (a : A) (w : S)
      → parse r ≡ ok (a, r')
      → serve_loop parse handle (suc fuel) r offset w ≡ settled fuel r' (handle a w)
  unfolding serve_loop
  serve_loop-parsed fuel offset r r' a w e = rw (e, serve_loop) (go (handle a w))
    where
      go :
          (p : S × Exit)
          → (let (w', exit) = p in
              let rest = serve_loop parse handle fuel r' r'.offset w' in
              elim exit as (λ _. Ending S) [
                | leave ↦ returned w'
                | throws ↦ crashed w'
                | stay ↦ if at_end r' then finished w' else rest
              ])
            ≡ settled fuel r' p
      go (w', stay) = refl
      go (w', leave) = refl
      go (w', throws) = refl

  pub serve_loop-last :
      (fuel offset : ℕ) (r r' : Reader) (a : A) (w w' : S)
      → parse r ≡ ok (a, r')
      → handle a w ≡ (w', stay)
      → at_end r' ≡ true
      → serve_loop parse handle (suc fuel) r offset w ≡ finished w'
  serve_loop-last fuel offset r r' a w w' e h done =
      serve_loop-parsed fuel offset r r' a w e ∙ ap (settled fuel r') h ∙ rw done refl

  pub serve_loop-next :
      (fuel offset : ℕ) (r r' : Reader) (a : A) (w w' : S)
      → parse r ≡ ok (a, r')
      → handle a w ≡ (w', stay)
      → at_end r' ≡ false
      → serve_loop parse handle (suc fuel) r offset w ≡ serve_loop parse handle fuel r' r'.offset w'
  serve_loop-next fuel offset r r' a w w' e h more =
      serve_loop-parsed fuel offset r r' a w e ∙ ap (settled fuel r') h ∙ rw more refl
