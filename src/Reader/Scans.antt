-- ===== src/Reader/Scans.antt =====
-- The reader's own operations: each is local, keeps the offset within the input, and does what its
-- loop is for.
use universe.Base.{
  ℕ, ◌+◌, ◌-◌, ◌≤◌, ◌<◌, ◌≡◌, refl, sym, ap, ◌∙◌, List, [], ◌∷◌, ◌++◌, length, arith, Bool, true,
  false,
}
use universe.Base.{
  append_assoc, length-append, append-nil, take, drop, drop-append, take-append, length-take,
  take-append-drop,
}
use universe.Base.{none, some, ◌==◌, ltb, if◌then◌else◌, ◌⊎◌, inl, inr, Bool-cases, ltb→lt, All}
use universe.Reader.{Reader, ok, throw, fatal, ag, ◌>>=◌}
use universe.Reader.{
  fail_if, network_value, read_network, read_byte, pread_byte, fail_unless, resize, read_size,
  pread_size, remaining, until_loop, up_loop, read_until, read_up, find_char,
}
use universe.Reader.Local.{
  at, reads, refuses, waits, breaks, Local, Reading-pure, Local-bind, Local-pure, at-append,
}

remaining-at : (front rest : List ℕ) → remaining (at front rest) ≡ length rest
remaining-at front rest = ground (arith, length-append front rest)

-- `read_size` takes the next `size` bytes, or asks for more.
pub read_size-at :
    (front used rest : List ℕ)
    → read_size (length used) (at front (used ++ rest)) ≡ ok (used, at (front ++ used) rest)
unfolding read_size
read_size-at front used rest =
    rw
      (
        remaining-at front (used ++ rest),
        drop-append front (used ++ rest),
        take-append used rest,
        at-append front used rest,
      )
      (ground (arith, length-append used rest))

pub read_size_short :
    (size : ℕ) (front rest : List ℕ)
    → length rest < size
    → read_size size (at front rest) ≡ throw ag
unfolding read_size
read_size_short size front rest h = rw (remaining-at front rest) (ground arith)

-- Where a list is cut by a count that it reaches, or is shorter than the count.
cut_cases :
    (size : ℕ) (xs : List ℕ)
    → ((used : List ℕ) × (rest : List ℕ) × (xs ≡ used ++ rest) × (length used ≡ size))
      ⊎ (length xs < size)
cut_cases size xs = elim (Bool-cases (ltb (length xs) size)) [
  | inl short ↦ inr (ltb→lt _ _ short)
  | inr enough ↦ inl (
    take size xs,
    drop size xs,
    sym (take-append-drop size xs),
    ground (arith, length-take size xs),
  )
]

pub Local-read_size : (size : ℕ) → Local (read_size size)
unfolding Local
Local-read_size size xs = elim (cut_cases size xs) [
  | inl (used, rest, e, n) ↦ reads used used rest e λ front more.
      rw (e, append_assoc used rest more, ← n) (read_size-at front used (rest ++ more))
  | inr short ↦ waits (λ front. read_size_short size front xs short)
]

pread_size-at :
    (front used rest : List ℕ)
    → pread_size (length used) (at front (used ++ rest)) ≡ ok (used, at front (used ++ rest))
unfolding pread_size
pread_size-at front used rest =
    rw (remaining-at front (used ++ rest), drop-append front (used ++ rest), take-append used rest)
      (ground (arith, length-append used rest))

pread_size_short :
    (size : ℕ) (front rest : List ℕ)
    → length rest < size
    → pread_size size (at front rest) ≡ throw ag
unfolding pread_size
pread_size_short size front rest h = rw (remaining-at front rest) (ground arith)

pub Local-pread_size : (size : ℕ) → Local (pread_size size)
unfolding Local
Local-pread_size size xs = elim (cut_cases size xs) [
  | inl (used, rest, e, n) ↦ reads used [] xs refl λ front more.
      rw (e, append_assoc used rest more, ← n, append-nil) (pread_size-at front used (rest ++ more))
  | inr short ↦ waits (λ front. pread_size_short size front xs short)
]

-- No byte of the list is one of `s`; every byte of the list is one of `s`.
abbrev pub Clear : List ℕ → List ℕ → Type 0
Clear s xs = All (λ c. find_char s c ≡ false) xs

abbrev pub MadeOf : List ℕ → List ℕ → Type 0
MadeOf s xs = All (λ c. find_char s c ≡ true) xs

-- Either a list is clear of `s`, or it splits at the first byte of `s`.
pub until_cases :
    (s xs : List ℕ)
    → Clear s xs
      ⊎ ((used : List ℕ) × (d : ℕ) × (rest : List ℕ) × (xs ≡ used ++ (d ∷ rest))
          × Clear s used
          × (find_char s d ≡ true))
until_cases s [] = inl tt
until_cases s (c ∷ cs) = elim (Bool-cases (find_char s c)) [
  | inl hit ↦ inr ([], c, cs, refl, tt, hit)
  | inr miss ↦ elim (until_cases s cs) [
    | inl clear ↦ inl (miss, clear)
    | inr (used, d, rest, e, clear, hit) ↦ inr (c ∷ used, d, rest, ap (◌∷◌ c) e, (miss, clear), hit)
  ]
]

until_loop-Clear : (s xs : List ℕ) (i : ℕ) → Clear s xs → until_loop s xs i ≡ none
unfolding until_loop
until_loop-Clear s [] i h = refl
until_loop-Clear s (c ∷ cs) i h = rw (h.0) (until_loop-Clear s cs (i + 1) h.1)

until_loop_hit :
    (s used : List ℕ) (d : ℕ) (rest : List ℕ) (i : ℕ)
    → Clear s used
    → find_char s d ≡ true
    → until_loop s (used ++ (d ∷ rest)) i ≡ some (i + length used)
unfolding until_loop
until_loop_hit s [] d rest i h hit = rw hit (ground arith)
until_loop_hit s (c ∷ cs) d rest i h hit =
    ground (arith, h.0, until_loop_hit s cs d rest (i + 1) h.1 hit)

-- The bytes that a hit leaves behind the offset, with and without the delimiter.
abbrev eaten : Bool → List ℕ → ℕ → List ℕ
eaten eatup used d = if eatup then used ++ (d ∷ []) else used

abbrev left : Bool → ℕ → List ℕ → List ℕ
left eatup d rest = if eatup then rest else d ∷ rest

-- What lies between two offsets.
between :
    (front used rest : List ℕ)
    → take
        (length front + length used - length front)
        (drop (length front) (front ++ (used ++ rest)))
      ≡ used
between front used rest =
    rw (drop-append front (used ++ rest), add-sub (length front) (length used))
      (take-append used rest)
  where
    add-sub : (a b : ℕ) → a + b - a ≡ b
    add-sub a b = omega arith

kept_or_empty :
    (front used rest : List ℕ)
    → (if length front + length used == length front
        then []
        else take
            (length front + length used - length front)
            (drop (length front) (front ++ (used ++ rest))))
      ≡ used
kept_or_empty front [] rest = ground arith
kept_or_empty front (c ∷ cs) rest = ground (arith, between front (c ∷ cs) rest)

stands_at :
    (front used rest : List ℕ)
    → record { str = front ++ (used ++ rest); offset = length front + length used }
      ≡ at (front ++ used) rest
stands_at front used rest = sym (at-append front used rest)

stands_past :
    (front used : List ℕ) (d : ℕ) (rest : List ℕ)
    → record { str = front ++ (used ++ (d ∷ rest)); offset = length front + length used + 1 }
      ≡ at (front ++ (used ++ (d ∷ []))) rest
stands_past front used d rest = λ i. record {
  str =
      (ap (◌++◌ front) (sym (append_assoc used (d ∷ []) rest))
          ∙ sym (append_assoc front (used ++ (d ∷ [])) rest))
        i;
  offset = sum i;
}
  where
    sum : length front + length used + 1 ≡ length (front ++ (used ++ (d ∷ [])))
    sum = omega (arith, length-append front (used ++ (d ∷ [])), length-append used (d ∷ []))

found_at :
    (s used : List ℕ) (d : ℕ) (rest front : List ℕ)
    → Clear s used
    → find_char s d ≡ true
    → until_loop s (drop (length front) (front ++ (used ++ (d ∷ rest)))) (length front)
      ≡ some (length front + length used)
found_at s used d rest front h hit =
    rw (drop-append front (used ++ (d ∷ rest))) (until_loop_hit s used d rest (length front) h hit)

-- `read_until` returns the bytes before the first delimiter, and steps over it if it is asked to.
pub read_until-at :
    (s used : List ℕ) (d : ℕ) (rest : List ℕ) (eatup : Bool) (front : List ℕ)
    → Clear s used
    → find_char s d ≡ true
    → read_until s [] eatup (at front (used ++ (d ∷ rest)))
      ≡ ok (used, at (front ++ eaten eatup used d) (left eatup d rest))
unfolding read_until
read_until-at s used d rest true front h hit =
    rw (found_at s used d rest front h hit, read_until)
      (λ i. ok (kept_or_empty front used (d ∷ rest) i, stands_past front used d rest i))
read_until-at s used d rest false front h hit =
    rw (found_at s used d rest front h hit, read_until)
      (λ i. ok (kept_or_empty front used (d ∷ rest) i, stands_at front used (d ∷ rest) i))

-- With no delimiter in what is left, it asks for more.
pub read_until-Clear :
    (s result xs : List ℕ) (eatup : Bool) (front : List ℕ)
    → Clear s xs
    → read_until s result eatup (at front xs) ≡ throw ag
unfolding read_until
read_until-Clear s result xs eatup front h =
    rw (drop-append front xs, read_until) (rw (until_loop-Clear s xs (length front) h, read_until))

eaten-left :
    (eatup : Bool) (used : List ℕ) (d : ℕ) (rest : List ℕ)
    → used ++ (d ∷ rest) ≡ eaten eatup used d ++ left eatup d rest
eaten-left true used d rest = sym (append_assoc used (d ∷ []) rest)
eaten-left false used d rest = refl

left-append :
    (eatup : Bool) (d : ℕ) (rest more : List ℕ)
    → left eatup d (rest ++ more) ≡ left eatup d rest ++ more
left-append true d rest more = refl
left-append false d rest more = refl

pub Local-read_until : (s : List ℕ) (eatup : Bool) → Local (read_until s [] eatup)
unfolding Local
Local-read_until s eatup xs = elim (until_cases s xs) [
  | inl clear ↦ waits (λ front. read_until-Clear s [] xs eatup front clear)
  | inr (used, d, rest, e, clear, hit) ↦
      reads used (eaten eatup used d) (left eatup d rest) (e ∙ eaten-left eatup used d rest)
        λ front more.
          rw (e, append_assoc used (d ∷ rest) more, ← left-append eatup d rest more)
            (read_until-at s used d (rest ++ more) eatup front clear hit)
]

-- The same for `read_up`, which passes over the bytes of `s`.
up_cases :
    (s xs : List ℕ)
    → MadeOf s xs
      ⊎ ((used : List ℕ) × (d : ℕ) × (rest : List ℕ) × (xs ≡ used ++ (d ∷ rest))
          × MadeOf s used
          × (find_char s d ≡ false))
up_cases s [] = inl tt
up_cases s (c ∷ cs) = elim (Bool-cases (find_char s c)) [
  | inr miss ↦ inr ([], c, cs, refl, tt, miss)
  | inl hit ↦ elim (up_cases s cs) [
    | inl made ↦ inl (hit, made)
    | inr (used, d, rest, e, made, miss) ↦ inr (c ∷ used, d, rest, ap (◌∷◌ c) e, (hit, made), miss)
  ]
]

up_loop_made : (s xs : List ℕ) (i : ℕ) → MadeOf s xs → up_loop s xs i ≡ none
unfolding up_loop
up_loop_made s [] i h = refl
up_loop_made s (c ∷ cs) i h = rw (h.0) (up_loop_made s cs (i + 1) h.1)

up_loop_stop :
    (s used : List ℕ) (d : ℕ) (rest : List ℕ) (i : ℕ)
    → MadeOf s used
    → find_char s d ≡ false
    → up_loop s (used ++ (d ∷ rest)) i ≡ some (i + length used)
unfolding up_loop
up_loop_stop s [] d rest i h miss = rw miss (ground arith)
up_loop_stop s (c ∷ cs) d rest i h miss =
    ground (arith, h.0, up_loop_stop s cs d rest (i + 1) h.1 miss)

stops_at :
    (s used : List ℕ) (d : ℕ) (rest front : List ℕ)
    → MadeOf s used
    → find_char s d ≡ false
    → up_loop s (drop (length front) (front ++ (used ++ (d ∷ rest)))) (length front)
      ≡ some (length front + length used)
stops_at s used d rest front h miss =
    rw (drop-append front (used ++ (d ∷ rest))) (up_loop_stop s used d rest (length front) h miss)

-- `read_up` steps over the bytes of `s` and stands on the first other byte.
pub read_up-at :
    (s used : List ℕ) (d : ℕ) (rest front : List ℕ)
    → MadeOf s used
    → find_char s d ≡ false
    → read_up s true (at front (used ++ (d ∷ rest))) ≡ ok (used, at (front ++ used) (d ∷ rest))
unfolding read_up
read_up-at s used d rest front h miss =
    rw (stops_at s used d rest front h miss, read_up)
      (ground (arith, between front used (d ∷ rest), stands_at front used (d ∷ rest)))

pub read_up_made : (s xs front : List ℕ) → MadeOf s xs → read_up s true (at front xs) ≡ throw ag
unfolding read_up
read_up_made s xs front h =
    rw (drop-append front xs, read_up) (rw (up_loop_made s xs (length front) h, read_up))

pub Local-read_up : (s : List ℕ) → Local (read_up s true)
unfolding Local
Local-read_up s xs = elim (up_cases s xs) [
  | inl made ↦ waits (λ front. read_up_made s xs front made)
  | inr (used, d, rest, e, made, miss) ↦ reads used used (d ∷ rest) e λ front more.
      rw (e, append_assoc used (d ∷ rest) more) (read_up-at s used d (rest ++ more) front made miss)
]

pub Local-read_network : (size : ℕ) → Local (read_network size)
unfolding read_network
Local-read_network size =
    Local-bind (read_size size) _ (Local-read_size size) (λ bytes. Local-pure _)

pub Local-read_byte : Local read_byte
unfolding read_byte
Local-read_byte = Local-read_network 1

pub Local-pread_byte : Local pread_byte
unfolding pread_byte
Local-pread_byte = Local-bind (pread_size 1) _ (Local-pread_size 1) (λ bytes. Local-pure _)

pub Local-fail_unless : (exp : Bool) → Local (fail_unless exp)
unfolding Local fail_unless
Local-fail_unless true xs = Reading-pure tt xs
Local-fail_unless false xs = refuses (λ front more. refl)

pub Local-resize : (max_size size : ℕ) → Local (resize max_size size)
unfolding Local resize
Local-resize max_size size xs = elim (Bool-cases (ltb max_size size)) [
  | inl big ↦ breaks (λ front more. rw big refl)
  | inr fits ↦ reads tt [] xs refl (λ front more. rw (fits, append-nil) refl)
]

pub pread_byte-at :
    (b : ℕ) (front rest : List ℕ) → pread_byte (at front (b ∷ rest)) ≡ ok (b, at front (b ∷ rest))
unfolding pread_byte network_value
pread_byte-at b front rest = rw (pread_size-at front (b ∷ []) rest, ◌>>=◌) (ground arith)

pub fail_if-false : (r : Reader) → fail_if false r ≡ ok (tt, r)
unfolding fail_if
fail_if-false r = refl

pub resize_fits :
    (max_size size : ℕ) (r : Reader) → size ≤ max_size → resize max_size size r ≡ ok (tt, r)
unfolding resize
resize_fits max_size size r h = ground arith

pub resize_past :
    (max_size size : ℕ) (r : Reader) → max_size < size → resize max_size size r ≡ fatal
unfolding resize
resize_past max_size size r h = ground arith

pub fail_if_no : (exp : Bool) (r : Reader) → exp ≡ false → fail_if exp r ≡ ok (tt, r)
unfolding fail_if
fail_if_no exp r h = ground arith

pub read_size-at-length :
    (size : ℕ) (front used rest : List ℕ)
    → length used ≡ size
    → read_size size (at front (used ++ rest)) ≡ ok (used, at (front ++ used) rest)
read_size-at-length size front used rest e = rw (← e) (read_size-at front used rest)
