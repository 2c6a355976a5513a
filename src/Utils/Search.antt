-- ===== src/Utils/Search.antt =====
-- What `string::find` and `find_first_of` find behind bytes that are none of the sought ones.
use universe.Base.{ℕ, true, false, List, [], ◌∷◌, ◌++◌, length, none, some, ◌≡◌, refl, ap, arith}
use universe.Reader.{find_char}
use universe.Reader.Scans.{Clear}
use universe.Utils.{starts_with, find, find_first_of, step_on}

starts_with-append : (ps rest : List ℕ) → starts_with ps (ps ++ rest) ≡ true
unfolding starts_with
starts_with-append [] rest = refl
starts_with-append (p ∷ ps) rest = ground (arith, starts_with-append ps rest)

starts_with-other :
    (p x : ℕ) (ps xs : List ℕ)
    → find_char (p ∷ []) x ≡ false
    → starts_with (p ∷ ps) (x ∷ xs) ≡ false
unfolding starts_with find_char
starts_with-other p x ps xs h = ground arith

-- The first byte of the pattern does not occur before.
pub find-append :
    (p : ℕ) (ps used rest : List ℕ)
    → Clear (p ∷ []) used
    → find (p ∷ ps) (used ++ ((p ∷ ps) ++ rest)) ≡ some (length used)
unfolding find
find-append p ps [] rest h = rw (starts_with-append (p ∷ ps) rest) refl
find-append p ps (x ∷ used) rest h =
    rw (starts_with-other p x ps (used ++ ((p ∷ ps) ++ rest)) h.0)
      (ap step_on (find-append p ps used rest h.1))

pub find-Clear : (p : ℕ) (ps xs : List ℕ) → Clear (p ∷ []) xs → find (p ∷ ps) xs ≡ none
unfolding find starts_with
find-Clear p ps [] h = refl
find-Clear p ps (x ∷ xs) h =
    rw (starts_with-other p x ps xs h.0) (ap step_on (find-Clear p ps xs h.1))

pub find_first_of-append :
    (set used : List ℕ) (d : ℕ) (rest : List ℕ)
    → Clear set used
    → find_char set d ≡ true
    → find_first_of set (used ++ (d ∷ rest)) ≡ some (length used)
unfolding find_first_of
find_first_of-append set [] d rest h hit = rw hit refl
find_first_of-append set (x ∷ used) d rest h hit =
    rw h.0 (ap step_on (find_first_of-append set used d rest h.1 hit))

pub find_first_of-Clear : (set xs : List ℕ) → Clear set xs → find_first_of set xs ≡ none
unfolding find_first_of
find_first_of-Clear set [] h = refl
find_first_of-Clear set (x ∷ xs) h = rw h.0 (ap step_on (find_first_of-Clear set xs h.1))
