-- ===== src/Reader/Local.antt =====
-- What makes a parser fit for input that comes in pieces: it looks only at the bytes from the offset
-- on, what it returned stays when bytes are added behind, and only `ag` is open to change.
use universe.Base.{ℕ, ◌+◌, ◌≡◌, refl, sym, ap, ◌∙◌, List, [], ◌++◌, length, Bool, true, false}
use universe.Base.{append_assoc, length-append, append-nil}
use universe.Reader.{Reader, ok, throw, fatal, spent, ng, ag, R, pure, ◌>>=◌, ◌>>◌}
use universe.Reader.{fail_if}

-- A reader that has passed `front` and has `rest` before it.
abbrev pub at : List ℕ → List ℕ → Reader
at front rest = record { str = front ++ rest; offset = length front }

-- How `p` reads the bytes `xs`: the same behind any `front`, and whatever `more` follows.
pub data Reading {A : Type 0} (p : R A) (xs : List ℕ) : Type 0 where
  reads :
      (a : A) (used rest : List ℕ)
      → xs ≡ used ++ rest
      → ((front more : List ℕ)
          → p (at front (xs ++ more)) ≡ ok (a, at (front ++ used) (rest ++ more)))
      → Reading p xs
  refuses : ((front more : List ℕ) → p (at front (xs ++ more)) ≡ throw ng) → Reading p xs
  waits : ((front : List ℕ) → p (at front xs) ≡ throw ag) → Reading p xs
  breaks : ((front more : List ℕ) → p (at front (xs ++ more)) ≡ fatal) → Reading p xs
  starves : ((front more : List ℕ) → p (at front (xs ++ more)) ≡ spent) → Reading p xs

unfoldable pub Local : {A : Type 0} → R A → Type 0
Local p = (xs : List ℕ) → Reading p xs

pub at-append :
    (front used rest : List ℕ)
    → at (front ++ used) rest
      ≡ record (at front (used ++ rest)) { offset = length front + length used }
at-append front used rest =
    λ i. record { str = append_assoc front used rest i; offset = length-append front used i }

pub Reading-pure : {A : Type 0} (a : A) (xs : List ℕ) → Reading (pure a) xs
Reading-pure a xs = reads a [] xs refl (λ front more. rw append-nil)

Reading-bind :
    {A B : Type 0} (p : R A) (f : A → R B) (xs : List ℕ)
    → Reading p xs
    → ((a : A) → Local (f a))
    → Reading (p >>= f) xs
unfolding Local
Reading-bind p f xs (reads a used rest e h) k = after (k a rest)
  where
    whole : (front : List ℕ) → (p >>= f) (at front xs) ≡ f a (at (front ++ used) rest)
    whole front =
        ap (λ (t : List ℕ). (p >>= f) (at front t)) (sym (append-nil xs))
        ∙ rw (h front [], ◌>>=◌) (ap (λ (t : List ℕ). f a (at (front ++ used) t)) (append-nil rest))

    after : Reading (f a) rest → Reading (p >>= f) xs
    after (reads b used' rest' e' h') =
        reads b (used ++ used') rest' (e ∙ ap (◌++◌ used) e' ∙ sym (append_assoc used used' rest'))
          (λ front more.
            rw (h front more, ◌>>=◌, h' (front ++ used) more, append_assoc front used used'))
    after (refuses h') = refuses (λ front more. rw (h front more, ◌>>=◌, h' (front ++ used) more))
    after (waits h') = waits (λ front. rw (whole front) (h' (front ++ used)))
    after (breaks h') = breaks (λ front more. rw (h front more, ◌>>=◌, h' (front ++ used) more))
    after (starves h') = starves (λ front more. rw (h front more, ◌>>=◌, h' (front ++ used) more))
Reading-bind p f xs (refuses h) k = refuses (λ front more. rw (h front more, ◌>>=◌))
Reading-bind p f xs (waits h) k = waits (λ front. rw (h front, ◌>>=◌))
Reading-bind p f xs (breaks h) k = breaks (λ front more. rw (h front more, ◌>>=◌))
Reading-bind p f xs (starves h) k = starves (λ front more. rw (h front more, ◌>>=◌))

pub Local-pure : {A : Type 0} (a : A) → Local (pure a)
unfolding Local
Local-pure a xs = Reading-pure a xs

pub Local-bind :
    {A B : Type 0} (p : R A) (f : A → R B) → Local p → ((a : A) → Local (f a)) → Local (p >>= f)
unfolding Local
Local-bind p f h k xs = Reading-bind p f xs (h xs) k

pub Local-then : {B : Type 0} (p : R (Unit {0})) (k : R B) → Local p → Local k → Local (p >> k)
Local-then p k h g = Local-bind p (λ _. k) h (λ _. g)

pub Local-fail_if : (exp : Bool) → Local (fail_if exp)
unfolding Local fail_if
Local-fail_if true xs = refuses (λ front more. refl)
Local-fail_if false xs = Reading-pure tt xs

-- A run of a sequence, by the runs of its parts.
module _ {A B : Type 0} (p : R A) (f : A → R B) {r s : Reader} {a : A} where
  pub >>=-ok : p r ≡ ok (a, s) → (p >>= f) r ≡ f a s
  >>=-ok e = rw (e, ◌>>=◌)

module _ {A B : Type 0} (p : R A) (f : A → R B) {r : Reader} where
  pub >>=-ag : p r ≡ throw ag → (p >>= f) r ≡ throw ag
  >>=-ag e = rw (e, ◌>>=◌)

  pub >>=-ng : p r ≡ throw ng → (p >>= f) r ≡ throw ng
  >>=-ng e = rw (e, ◌>>=◌)

  pub >>=-fatal : p r ≡ fatal → (p >>= f) r ≡ fatal
  >>=-fatal e = rw (e, ◌>>=◌)
