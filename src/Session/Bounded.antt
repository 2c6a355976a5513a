-- ===== src/Session/Bounded.antt =====
-- Loops in parsers: a parser that ends on every input shorter than its fuel.
use universe.Base.{
  ℕ, suc, ◌<◌, ◌≤◌, ◌≡◌, ◌≢◌, sym, ap, ◌∙◌, List, ◌++◌, length, length-append, arith, ◌⊎◌, inl, inr,
}
use universe.Reader.{Reader, R, ok, spent, ◌>>=◌}
use universe.Reader.Local.{at, Local}
use universe.Session.Framing.{Grows, Ends, Local-lands, >>=-eq-spent}

unfoldable pub EndsBelow : {A : Type 0} → ℕ → R A → Type 0
EndsBelow n p = (front xs : List ℕ) → length xs < n → p (at front xs) ≢ spent

pub EndsBelow-zero : {A : Type 0} (p : R A) → EndsBelow 0 p
unfolding EndsBelow
EndsBelow-zero p front xs h = absurd (omega arith)

pub EndsBelow-Ends : {A : Type 0} (n : ℕ) (p : R A) → Ends p → EndsBelow n p
unfolding EndsBelow Ends
EndsBelow-Ends n p e front xs h = e front xs

module _ {A B : Type 0} (p : R A) (f : A → R B) (local : Local p) where
  -- The second part begins no further back than the first.
  pub EndsBelow-bind :
      (n : ℕ) → EndsBelow n p → ((a : A) → EndsBelow n (f a)) → EndsBelow n (p >>= f)
  unfolding EndsBelow
  EndsBelow-bind n e k front xs h out = go (>>=-eq-spent p f (at front xs) out)
    where
      go :
          (p (at front xs) ≡ spent)
            ⊎ ((a : A) × (s : Reader) × (p (at front xs) ≡ ok (a, s)) × (f a s ≡ spent))
          → ⊥
      go (inl q) = e front xs h q
      go (inr (a, s, q, q')) = past (Local-lands p front xs a s local q)
        where
          past :
              (used : List ℕ) × (rest : List ℕ) × (xs ≡ used ++ rest)
                × (s ≡ at (front ++ used) rest)
              → ⊥
          past (used, rest, split, at_s) =
              k a (front ++ used) rest (omega (arith, ap length split, length-append used rest))
                (ap (f a) (sym at_s) ∙ q')

  -- Behind a part that makes progress there is less left.
  pub EndsBelow-bind_after :
      (n : ℕ)
      → Grows p
      → EndsBelow (suc n) p
      → ((a : A) → EndsBelow n (f a))
      → EndsBelow (suc n) (p >>= f)
  unfolding EndsBelow Grows
  EndsBelow-bind_after n g e k front xs h out = go (>>=-eq-spent p f (at front xs) out)
    where
      go :
          (p (at front xs) ≡ spent)
            ⊎ ((a : A) × (s : Reader) × (p (at front xs) ≡ ok (a, s)) × (f a s ≡ spent))
          → ⊥
      go (inl q) = e front xs h q
      go (inr (a, s, q, q')) = past (Local-lands p front xs a s local q)
        where
          past :
              (used : List ℕ) × (rest : List ℕ) × (xs ≡ used ++ rest)
                × (s ≡ at (front ++ used) rest)
              → ⊥
          past (used, rest, split, at_s) =
              k a (front ++ used) rest
                (omega (
                  arith,
                  ap length split,
                  length-append used rest,
                  length-append front used,
                  g front xs a s q,
                  ap (λ (u : Reader). u.offset) at_s,
                ))
                (ap (f a) (sym at_s) ∙ q')

pub EndsBelow-le : {A : Type 0} (m n : ℕ) (p : R A) → m ≤ n → EndsBelow n p → EndsBelow m p
unfolding EndsBelow
EndsBelow-le m n p le e front xs h = e front xs (omega arith)
