-- ===== src/Session/Branches.antt =====
-- Parsers that go on by a test, and where a reader is at its end.
use universe.Base.{
  ℕ, ◌≡◌, refl, true, false, Bool, if◌then◌else◌, List, length, length-append, leb, arith,
}
use universe.Reader.{Reader, R, spent, at_end}
use universe.Reader.Local.{at, Local, starves}
use universe.Session.Bounded.{EndsBelow}

pub if_left :
    {A : Type 0} (b : Bool) (p q : R A) (r : Reader) → b ≡ true → (if b then p else q) r ≡ p r
if_left true p q r h = refl
if_left false p q r h = absurd cc

pub if_right :
    {A : Type 0} (b : Bool) (p q : R A) (r : Reader) → b ≡ false → (if b then p else q) r ≡ q r
if_right true p q r h = absurd cc
if_right false p q r h = refl

pub Local-spent : (A : Type 0) → Local {A = A} (λ r. spent)
unfolding Local
Local-spent A xs = starves (λ front more. refl)

pub Local-if : {A : Type 0} (b : Bool) (p q : R A) → Local p → Local q → Local (if b then p else q)
Local-if true p q h k = h
Local-if false p q h k = k

pub EndsBelow-if :
    {A : Type 0} (n : ℕ) (b : Bool) (p q : R A)
    → EndsBelow n p
    → EndsBelow n q
    → EndsBelow n (if b then p else q)
EndsBelow-if n true p q h k = h
EndsBelow-if n false p q h k = k

pub at_end_lem : (front rest : List ℕ) → at_end (at front rest) ≡ leb (length rest) 0
unfolding at_end
at_end_lem front rest = ground (arith, length-append front rest)
