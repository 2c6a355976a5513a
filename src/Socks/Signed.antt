-- ===== src/Socks/Signed.antt =====
-- Lengths that are read into a signed `char`.
use universe.Base.{
  ℕ, suc, ◌+◌, ◌-◌, ◌%◌, ◌^◌, ◌<◌, ◌≤◌, ◌≡◌, refl, ltb, lt→ltb, true, false, List, ◌∷◌, length,
  arith,
}
use universe.StateMachine.Buffers.{need_buf}
use universe.Socks.{Socks, signed_size, on_greeting}

-- A greeting that announces 128 to 253 methods is held back, however many of them have come: the
-- number is taken as negative, and the greeting never has the length that this comes to.
pub on_greeting-signed_size :
    (client num_methods : ℕ) (methods : List ℕ) (s : Socks)
    → 128 ≤ num_methods
    → num_methods < 254
    → length methods < 2 ^ 63
    → on_greeting client (5 ∷ num_methods ∷ methods) s
      ≡ record s { buf = (need_buf client (5 ∷ num_methods ∷ methods) true s.buf).1 }
unfolding on_greeting signed_size
on_greeting-signed_size client n methods s low high small =
    rw (two (length methods), negative n low, huge (length methods) n low high small) refl
  where
    two : (k : ℕ) → ltb (suc (suc k)) 2 ≡ false
    two k = ground arith

    negative : (k : ℕ) → 128 ≤ k → ltb k 128 ≡ false
    negative k h = ground arith

    wrapped : (m : ℕ) → 128 ≤ m → m < 254 → (2 ^ 64 + 2 + m - 256) % 2 ^ 64 ≡ 2 ^ 64 + m - 254
    wrapped m a b = omega arith

    huge :
        (k m : ℕ)
        → 128 ≤ m
        → m < 254
        → k < 2 ^ 63
        → ltb (suc (suc k)) ((2 ^ 64 + 2 + m - 256) % 2 ^ 64) ≡ true
    huge k m a b c = lt→ltb (suc (suc k)) _ (omega (arith, wrapped m a b))
