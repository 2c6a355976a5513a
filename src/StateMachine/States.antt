-- ===== src/StateMachine/States.antt =====
-- StateMachine/Stateful.hpp and StateBuffer.hpp: a state for each connection.
use universe.Base.{
  ℕ, ◌≡◌, List, [], length, arith, Bool, true, false, if◌then◌else◌, none, some, ◌==◌,
}
use universe.Base.Maps.{lookup, insert, erase, contains, lookup-insert, lookup-erase, nat_key}
use universe.StateMachine.Buffers.{Buffers, erase_buf}

module _ {State : Type 0} where
  unfoldable pub set_state : ℕ → State → List (ℕ × State) → List (ℕ × State)
  set_state id state states = insert id state states

  unfoldable pub has_state : ℕ → List (ℕ × State) → Bool
  unfolding contains
  has_state id states = contains id states

  -- The state and the flag `*exists`; `zeroed` is `State()`, the first enumerator.
  unfoldable pub get_state : State → ℕ → List (ℕ × State) → State × Bool
  get_state zeroed id states = elim (lookup id states) [
    | some state ↦ (state, true)
    | none ↦ (zeroed, false)
  ]

  unfoldable pub count_state : List (ℕ × State) → ℕ
  count_state states = length states

  unfoldable pub erase_state : ℕ → List (ℕ × State) → List (ℕ × State)
  erase_state id states = erase id states

  unfoldable pub clear_state : List (ℕ × State) → List (ℕ × State)
  clear_state states = []

  -- `StateBuffer<State>::erase_state_buffer`
  unfoldable pub erase_state_buffer : ℕ → List (ℕ × State) × Buffers → List (ℕ × State) × Buffers
  unfolding erase_state erase_buf
  erase_state_buffer fd (states, buf) = (erase_state fd states, erase_buf fd buf)

  -- A connection has the state that was set last, and none once it is erased; the others keep theirs.
  pub get_state-set_state :
      (zeroed state : State) (id other : ℕ) (states : List (ℕ × State))
      → (get_state zeroed other (set_state id state states)
          ≡ (if id == other then (state, true) else get_state zeroed other states))
        × (get_state zeroed other (erase_state id states)
            ≡ (if id == other then (zeroed, false) else get_state zeroed other states))
  unfolding get_state set_state erase_state
  get_state-set_state zeroed state id other states = (
    ground (arith, lookup-insert id other state states),
    ground (arith, lookup-erase id other states),
  )
