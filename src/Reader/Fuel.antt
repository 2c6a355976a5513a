-- ===== src/Reader/Fuel.antt =====
-- Parsers with a loop: the loop takes fuel, and the parser gives it the length of the input.
use universe.Base.{
  ℕ, zero, suc, ◌+◌, ◌-◌, ◌≤◌, ◌<◌, ◌≡◌, ◌≢◌, refl, sym, ap, ◌∙◌, List, [], ◌++◌, length,
  length-append, append-nil, arith,
}
use universe.Reader.{Reader, R, Result, ok, throw, fatal, spent, ◌>>=◌}
use universe.Reader.Local.{at, Reading, reads, refuses, waits, breaks, starves, Local}
use universe.Session.Framing.{IsFraming, Grows, Ends}
use universe.Session.Bounded.{EndsBelow}

-- `q` comes to what `p` comes to, where `p` has fuel enough.
unfoldable pub Steady : {A : Type 0} → R A → R A → Type 0
Steady p q = (r : Reader) → p r ≢ spent → q r ≡ p r

pub Steady-refl : {A : Type 0} (p : R A) → Steady p p
unfolding Steady
Steady-refl p r h = refl

pub Steady-bind :
    {A B : Type 0} (p : R A) (f g : A → R B)
    → ((a : A) → Steady (f a) (g a))
    → Steady (p >>= f) (p >>= g)
unfolding Steady
Steady-bind {A} {B} p f g k r = go (p r) refl
  where
    go : (m : Result (A × Reader)) → p r ≡ m → (p >>= f) r ≢ spent → (p >>= g) r ≡ (p >>= f) r
    go (ok (a, s)) e h = rw (e, ◌>>=◌) (k a s (rw (e, ◌>>=◌) at h))
    go (throw x) e h = rw (e, ◌>>=◌)
    go fatal e h = rw (e, ◌>>=◌)
    go spent e h = rw (e, ◌>>=◌)

pub Steady-head : {A B : Type 0} (p q : R A) (f : A → R B) → Steady p q → Steady (p >>= f) (q >>= f)
unfolding Steady
Steady-head {A} {B} p q f k r = go (p r) refl (k r)
  where
    go :
        (m : Result (A × Reader))
        → p r ≡ m
        → (p r ≢ spent → q r ≡ p r)
        → (p >>= f) r ≢ spent
        → (q >>= f) r ≡ (p >>= f) r
    go spent e k' h = absurd (h (rw (e, ◌>>=◌)))
    go (ok (a, s)) e k' h = rw (k' (λ u. cc), ◌>>=◌)
    go (throw x) e k' h = rw (k' (λ u. cc), ◌>>=◌)
    go fatal e k' h = rw (k' (λ u. cc), ◌>>=◌)

module _ {A : Type 0} (p : ℕ → R A) where
  -- The parser that gives its loop fuel for the whole input.
  unfoldable pub with_fuel : R A
  with_fuel r = p (suc (length r.str)) r

  module _ (steady : (f : ℕ) → Steady (p f) (p (suc f))) where
    Steady-add : (k f : ℕ) → Steady (p f) (p (k + f))
    unfolding Steady
    Steady-add zero f r h = ap (λ (n : ℕ). p n r) (omega arith)
    Steady-add (suc k) f r h =
        let before = Steady-add k f r h in
        ap (λ (n : ℕ). p n r) (omega arith) ∙ steady (k + f) r (λ e. h (sym before ∙ e)) ∙ before

    enough : (f g : ℕ) (r : Reader) → f ≤ g → p f r ≢ spent → p g r ≡ p f r
    unfolding Steady
    enough f g r le h = ap (λ (n : ℕ). p n r) (omega arith) ∙ Steady-add (g - f) f r h

    module _ (local : (f : ℕ) → Local (p f))
        (ends : (f : ℕ) (front xs : List ℕ) → length xs < f → p f (at front xs) ≢ spent) where
      at_length : (front xs : List ℕ) → length xs < suc (length (front ++ xs))
      at_length front xs = omega (arith, length-append front xs)

      pub Local-with_fuel : Local with_fuel
      unfolding Local with_fuel
      Local-with_fuel xs = go (local (suc (length xs)) xs)
        where
          same :
              (front more : List ℕ) (out : Result (A × Reader))
              → p (suc (length xs)) (at front (xs ++ more)) ≡ out
              → out ≢ spent
              → with_fuel (at front (xs ++ more)) ≡ out
          same front more out e h =
              enough (suc (length xs)) (suc (length (front ++ (xs ++ more))))
                (at front (xs ++ more))
                (omega (arith, length-append front (xs ++ more), length-append xs more))
                (λ k. h (sym e ∙ k))
              ∙ e

          same_end :
              (front : List ℕ) (out : Result (A × Reader))
              → p (suc (length xs)) (at front xs) ≡ out
              → out ≢ spent
              → with_fuel (at front xs) ≡ out
          same_end front out e h =
              enough (suc (length xs)) (suc (length (front ++ xs))) (at front xs)
                (omega (arith, length-append front xs)) (λ k. h (sym e ∙ k))
              ∙ e

          go : Reading (p (suc (length xs))) xs → Reading with_fuel xs
          go (reads a used rest e h) =
              reads a used rest e (λ front more. same front more _ (h front more) (λ k. cc))
          go (refuses h) = refuses (λ front more. same front more _ (h front more) (λ k. cc))
          go (waits h) = waits (λ front. same_end front _ (h front) (λ k. cc))
          go (breaks h) = breaks (λ front more. same front more _ (h front more) (λ k. cc))
          go (starves h) = absurd (
              ends (suc (length xs)) [] xs (omega arith) (
                ap (λ (t : List ℕ). p (suc (length xs)) (at [] t)) (sym (append-nil xs)) ∙ h [] []))

      pub Ends-with_fuel : Ends with_fuel
      unfolding Ends with_fuel
      Ends-with_fuel front xs e = ends (suc (length (front ++ xs))) front xs (at_length front xs) e

    -- What the loop does with any fuel that is enough, the parser does.
    pub with_fuel-ok :
        (f : ℕ) (r : Reader) {out : Result (A × Reader)}
        → f ≤ suc (length r.str)
        → p f r ≡ out
        → out ≢ spent
        → with_fuel r ≡ out
    unfolding with_fuel
    with_fuel-ok f r le e h = enough f (suc (length r.str)) r le (λ k. h (sym e ∙ k)) ∙ e

    -- A parser whose loop is local, makes progress and ends below its fuel fits the message loop.
    pub IsFraming-with_fuel :
        ((f : ℕ) → Local (p f))
        → ((f : ℕ) → EndsBelow f (p f))
        → ((f : ℕ) → Grows (p f))
        → IsFraming with_fuel
    unfolding EndsBelow Grows with_fuel
    IsFraming-with_fuel local ends grows = record {
      local = Local-with_fuel local ends;
      grows = λ front xs a r e. grows (suc (length (front ++ xs))) front xs a r e;
      ends = Ends-with_fuel local ends;
    }
