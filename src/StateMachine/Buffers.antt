-- ===== src/StateMachine/Buffers.antt =====
-- StateMachine/Bufferable.cpp: what a connection has sent that is not a whole packet yet.
use universe.Base.{
  ℕ, ◌≡◌, refl, List, [], ◌++◌, length, arith, Bool, true, false, if◌then◌else◌, none, some, ==_iff,
  ◌==◌,
}
use universe.Base.Maps.{lookup, insert, erase, contains, lookup-insert, lookup-erase, nat_key}

-- `map<int, string> _buf`
abbrev pub Buffers : Type 0
Buffers = List (ℕ × List ℕ)

unfoldable pub need_buf : ℕ → List ℕ → Bool → Buffers → Bool × Buffers
need_buf id message cond buf = if cond then (true, insert id message buf) else (false, buf)

-- The flag, the caller's message as it is left, and the buffers.
unfoldable pub append_buf : ℕ → List ℕ → Buffers → Bool × List ℕ × Buffers
append_buf id message buf = elim (lookup id buf) [
  | some held ↦ (true, held ++ message, erase id buf)
  | none ↦ (false, message, buf)
]

unfoldable pub count_buf : Buffers → ℕ
count_buf buf = length buf

unfoldable pub has_buf : ℕ → Buffers → Bool
unfolding contains
has_buf id buf = contains id buf

-- `_buf[id]` makes an empty entry where there is none.
unfoldable pub get_buf : ℕ → Bool → Buffers → List ℕ × Buffers
get_buf id clear buf = elim (lookup id buf) [
  | some held ↦ (held, if clear then erase id buf else buf)
  | none ↦ ([], if clear then erase id (insert id [] buf) else insert id [] buf)
]

unfoldable pub erase_buf : ℕ → Buffers → Buffers
erase_buf id buf = erase id buf

unfoldable pub clear_buf : Buffers → Buffers
clear_buf buf = []

pub append_buf_held :
    (id : ℕ) (held message : List ℕ) (buf : Buffers)
    → lookup id buf ≡ some held
    → append_buf id message buf ≡ (true, held ++ message, erase id buf)
unfolding append_buf
append_buf_held id held message buf e = rw (e, append_buf)

pub append_buf-none :
    (id : ℕ) (message : List ℕ) (buf : Buffers)
    → lookup id buf ≡ none
    → append_buf id message buf ≡ (false, message, buf)
unfolding append_buf
append_buf-none id message buf e = rw (e, append_buf)

-- What is held back comes back once, in front of the next message of its connection, and no other
-- connection sees it.
pub append_buf-need_buf :
    (id other : ℕ) (held message : List ℕ) (buf : Buffers)
    → let after = append_buf id message (need_buf id held true buf).1 in
      (after.0 ≡ true)
      × (after.1 ≡ held ++ message)
      × (lookup other after.2 ≡ (if id == other then none else lookup other buf))
unfolding need_buf
append_buf-need_buf id other held message buf =
    rw (append_buf_held id held message (insert id held buf) found) (
      refl,
      refl,
      ground (
        arith,
        lookup-erase id other (insert id held buf),
        lookup-insert id other held buf,
        ==_iff id other,
      ),
    )
  where
    found : lookup id (insert id held buf) ≡ some held
    found = ground (arith, lookup-insert id id held buf)
