-- ===== src/StateMachine/Tests.antt =====
-- The buffers and the states at concrete values.
use universe.Base.{ℕ, ◌≡◌, List, [], ◌∷◌, true}
use universe.Base.Maps.{lookup, nat_key}
use universe.StateMachine.Buffers.{append_buf, need_buf, append_buf-need_buf}

abbrev a_buf : List (ℕ × List ℕ)
a_buf = (5, 30 ∷ []) ∷ []

append_buf-need_buf_example :
    let after = append_buf 4 (20 ∷ []) (need_buf 4 (10 ∷ []) true a_buf).1 in
    (after.0 ≡ true)
    × (after.1 ≡ 10 ∷ 20 ∷ [])
    × (lookup {K = ℕ} 5 after.2 ≡ lookup {K = ℕ} 5 a_buf)
append_buf-need_buf_example = append_buf-need_buf 4 5 (10 ∷ []) (20 ∷ []) a_buf
