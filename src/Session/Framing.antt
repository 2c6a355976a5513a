-- ===== src/Session/Framing.antt =====
-- What the message loop asks of a packet parser, and how parsers put together get it.
use universe.Base.{
  [], ◌⊎◌, inl, inr, ℕ, ◌<◌, ◌≤◌, ◌≡◌, ◌≢◌, refl, sym, ap, ◌∙◌, List, ◌++◌, length, arith,
  length-append, append-nil, Bool,
}
use universe.Reader.{Reader, R, Result, ok, throw, fatal, spent, ◌>>=◌, pure}
use universe.Reader.Local.{at, Reading, reads, refuses, waits, breaks, starves, Local, Local-pure}
use universe.Reader.Scans.{Local-read_size, Local-pread_size}
use universe.Reader.{
  read_size, pread_size, fail_if, resize, read_network, read_byte, read_until, read_up, pread_byte,
}

-- What `p` returns stands further on than where `p` began.
unfoldable pub Grows : {A : Type 0} → R A → Type 0
Grows {A} p =
    (front xs : List ℕ) (a : A) (r : Reader) → p (at front xs) ≡ ok (a, r) → length front < r.offset

-- No loop inside `p` runs out of fuel.
unfoldable pub Ends : {A : Type 0} → R A → Type 0
Ends p = (front xs : List ℕ) → p (at front xs) ≢ spent

pub record IsFraming {A : Type 0} (p : R A) : Type 0 where
  pub local : Local p
  pub grows : Grows p
  pub ends : Ends p

pub >>=-eq-ok :
    {A B : Type 0} (p : R A) (f : A → R B) (r : Reader) (b : B) (t : Reader)
    → (p >>= f) r ≡ ok (b, t)
    → (a : A) × (s : Reader) × (p r ≡ ok (a, s)) × (f a s ≡ ok (b, t))
>>=-eq-ok {A} {B} p f r b t h = go (p r) refl h
  where
    go :
        (m : Result (A × Reader))
        → p r ≡ m
        → ◌≡◌ {A = Result (B × Reader)}
            (elim m [ ok (a, s) ↦ f a s | throw e ↦ throw e | fatal ↦ fatal | spent ↦ spent ])
            (ok (b, t))
        → (a : A) × (s : Reader) × (p r ≡ ok (a, s)) × (f a s ≡ ok (b, t))
    go (ok (a, s)) e k = (a, s, e, k)
    go (throw x) e k = cc
    go fatal e k = cc
    go spent e k = cc

pub >>=-eq-spent :
    {A B : Type 0} (p : R A) (f : A → R B) (r : Reader)
    → (p >>= f) r ≡ spent
    → (p r ≡ spent) ⊎ ((a : A) × (s : Reader) × (p r ≡ ok (a, s)) × (f a s ≡ spent))
>>=-eq-spent {A} {B} p f r h = go (p r) refl h
  where
    go :
        (m : Result (A × Reader))
        → p r ≡ m
        → ◌≡◌ {A = Result (B × Reader)}
            (elim m [ ok (a, s) ↦ f a s | throw e ↦ throw e | fatal ↦ fatal | spent ↦ spent ])
            spent
        → (p r ≡ spent) ⊎ ((a : A) × (s : Reader) × (p r ≡ ok (a, s)) × (f a s ≡ spent))
    go (ok (a, s)) e k = inr (a, s, e, k)
    go (throw x) e k = cc
    go fatal e k = cc
    go spent e k = inl e

-- A reading with nothing behind it.
pub reads_whole :
    {A : Type 0} (p : R A) (xs : List ℕ) (a : A) (used rest : List ℕ)
    → ((front more : List ℕ)
        → p (at front (xs ++ more)) ≡ ok (a, at (front ++ used) (rest ++ more)))
    → (front : List ℕ) → p (at front xs) ≡ ok (a, at (front ++ used) rest)
reads_whole {A} p xs a used rest h front =
    ap (λ (t : List ℕ). p (at front t)) (sym (append-nil xs))
    ∙ h front []
    ∙ ap (λ (t : List ℕ). target t) (append-nil rest)
  where
    target : List ℕ → Result (A × Reader)
    target t = ok (a, at (front ++ used) t)

pub whole_of :
    {A : Type 0} (p : R A) (xs : List ℕ) (front : List ℕ) {out : Result (A × Reader)}
    → ((front more : List ℕ) → p (at front (xs ++ more)) ≡ out)
    → p (at front xs) ≡ out
whole_of p xs front h = ap (λ (t : List ℕ). p (at front t)) (sym (append-nil xs)) ∙ h front []

-- Where a local parser stands after it returned.
pub Local-lands :
    {A : Type 0} (p : R A) (front xs : List ℕ) (a : A) (r : Reader)
    → Local p
    → p (at front xs) ≡ ok (a, r)
    → (used : List ℕ) × (rest : List ℕ) × (xs ≡ used ++ rest) × (r ≡ at (front ++ used) rest)
unfolding Local
Local-lands p front xs a r l h = go (l xs)
  where
    go :
        Reading p xs
        → (used : List ℕ) × (rest : List ℕ) × (xs ≡ used ++ rest) × (r ≡ at (front ++ used) rest)
    go (reads b used rest e k) = (used, rest, e, cc (reads_whole p xs b used rest k front))
    go (refuses k) = cc (whole_of p xs front k)
    go (waits k) = cc (k front)
    go (breaks k) = cc (whole_of p xs front k)
    go (starves k) = cc (whole_of p xs front k)

Local-le :
    {A : Type 0} (p : R A) (front xs : List ℕ) (a : A) (r : Reader)
    → Local p
    → p (at front xs) ≡ ok (a, r)
    → length front ≤ r.offset
Local-le p front xs a r l h = grown (Local-lands p front xs a r l h)
  where
    grown :
        (used : List ℕ) × (rest : List ℕ) × (xs ≡ used ++ rest) × (r ≡ at (front ++ used) rest)
        → length front ≤ r.offset
    grown (used, rest, e, k) =
        omega (arith, ap (λ (t : Reader). t.offset) k, length-append front used)

module _ {A B : Type 0} (p : R A) (f : A → R B) where
  -- The first part makes progress.
  pub Grows-bind : Grows p → Local p → ((a : A) → Local (f a)) → Grows (p >>= f)
  unfolding Grows
  Grows-bind g l k front xs b t h = go (>>=-eq-ok p f (at front xs) b t h)
    where
      go :
          (a : A) × (s : Reader) × (p (at front xs) ≡ ok (a, s)) × (f a s ≡ ok (b, t))
          → length front < t.offset
      go (a, s, e, e') = past (Local-lands p front xs a s l e)
        where
          past :
              (used : List ℕ) × (rest : List ℕ) × (xs ≡ used ++ rest)
                × (s ≡ at (front ++ used) rest)
              → length front < t.offset
          past (used, rest, _, at_s) = omega (
            arith,
            g front xs a s e,
            ap (λ (u : Reader). u.offset) at_s,
            Local-le (f a) (front ++ used) rest b t (k a) (ap (f a) (sym at_s) ∙ e'),
          )

  -- The second part makes progress.
  pub Grows-bind_after : Local p → ((a : A) → Grows (f a)) → Grows (p >>= f)
  unfolding Grows
  Grows-bind_after l g front xs b t h = go (>>=-eq-ok p f (at front xs) b t h)
    where
      go :
          (a : A) × (s : Reader) × (p (at front xs) ≡ ok (a, s)) × (f a s ≡ ok (b, t))
          → length front < t.offset
      go (a, s, e, e') = past (Local-lands p front xs a s l e)
        where
          past :
              (used : List ℕ) × (rest : List ℕ) × (xs ≡ used ++ rest)
                × (s ≡ at (front ++ used) rest)
              → length front < t.offset
          past (used, rest, _, at_s) = omega (
            arith,
            length-append front used,
            g a (front ++ used) rest b t (ap (f a) (sym at_s) ∙ e'),
          )

  pub Ends-bind : Ends p → Local p → ((a : A) → Ends (f a)) → Ends (p >>= f)
  unfolding Ends
  Ends-bind e l k front xs h = go (>>=-eq-spent p f (at front xs) h)
    where
      go :
          (p (at front xs) ≡ spent)
            ⊎ ((a : A) × (s : Reader) × (p (at front xs) ≡ ok (a, s)) × (f a s ≡ spent))
          → ⊥
      go (inl out) = e front xs out
      go (inr (a, s, q, q')) = past (Local-lands p front xs a s l q)
        where
          past :
              (used : List ℕ) × (rest : List ℕ) × (xs ≡ used ++ rest)
                × (s ≡ at (front ++ used) rest)
              → ⊥
          past (used, rest, _, at_s) = k a (front ++ used) rest (ap (f a) (sym at_s) ∙ q')

pub Ends-pure : {A : Type 0} (a : A) → Ends (pure a)
unfolding Ends
Ends-pure a front xs h = cc

pub Ends-read_size : (size : ℕ) → Ends (read_size size)
unfolding Ends read_size
Ends-read_size size front xs h = ground arith

pub Ends-pread_size : (size : ℕ) → Ends (pread_size size)
unfolding Ends pread_size
Ends-pread_size size front xs h = ground arith

pub Ends-read_until : (s result : List ℕ) (eatup : Bool) → Ends (read_until s result eatup)
unfolding Ends read_until
Ends-read_until s result eatup front xs h = ground arith

pub Ends-read_up : (s : List ℕ) (nullable : Bool) → Ends (read_up s nullable)
unfolding Ends read_up
Ends-read_up s nullable front xs h = ground arith

pub Ends-fail_if : (exp : Bool) → Ends (fail_if exp)
unfolding Ends fail_if
Ends-fail_if exp front xs h = ground arith

pub Ends-resize : (max_size size : ℕ) → Ends (resize max_size size)
unfolding Ends resize
Ends-resize max_size size front xs h = ground arith

pub Ends-read_network : (size : ℕ) → Ends (read_network size)
unfolding read_network
Ends-read_network size =
    Ends-bind (read_size size) _ (Ends-read_size size) (Local-read_size size) (λ bytes. Ends-pure _)

pub Ends-read_byte : Ends read_byte
unfolding read_byte
Ends-read_byte = Ends-read_network 1

pub Ends-pread_byte : Ends pread_byte
unfolding pread_byte
Ends-pread_byte =
    Ends-bind (pread_size 1) _ (Ends-pread_size 1) (Local-pread_size 1) (λ bytes. Ends-pure _)

pub Grows-read_size : (size : ℕ) → 0 < size → Grows (read_size size)
unfolding Grows read_size
Grows-read_size size h front xs a r e = ground arith

pub Grows-read_network : (size : ℕ) → 0 < size → Grows (read_network size)
unfolding read_network
Grows-read_network size h =
    Grows-bind (read_size size) _ (Grows-read_size size h) (Local-read_size size)
      (λ bytes. Local-pure _)

pub Grows-read_byte : Grows read_byte
unfolding read_byte
Grows-read_byte = Grows-read_network 1 (omega arith)
