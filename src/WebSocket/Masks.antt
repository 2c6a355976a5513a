-- ===== src/WebSocket/Masks.antt =====
-- The masking of RFC 6455, section 5.3, and what the message parser's loop makes of it.
use Prim.Native.Nat.{bit_xor}
use universe.Base.{
  ℕ, zero, suc, ◌+◌, ◌%◌, ◌≡◌, refl, ap, ◌∙◌, ◌==◌, ==_iff, true, List, [], ◌∷◌, ◌++◌, length,
  arith, All, get_or,
}
use universe.Base.Bits.{holds_below, holds_below_sound}
use universe.Reader.Words.{IsByte}
use universe.WebSocket.{unmask}

-- A key that turns by one byte with every byte that it masks.
abbrev pub mask_with : List ℕ → List ℕ → List ℕ
mask_with key [] = []
mask_with [] (p ∷ ps) = p ∷ ps
mask_with (k ∷ ks) (p ∷ ps) = bit_xor p k ∷ mask_with (ks ++ (k ∷ [])) ps

-- Two bytes under `^` twice.
xor_table : holds_below 256 (λ x. holds_below 256 (λ y. bit_xor (bit_xor x y) y == x)) ≡ true
unfolding holds_below
xor_table = refl

xor_twice : (x y : ℕ) → IsByte x → IsByte y → bit_xor (bit_xor x y) y ≡ x
xor_twice x y hx hy = (==_iff _ x).0 (
    holds_below_sound 256 (λ y'. bit_xor (bit_xor x y') y' == x)
      (holds_below_sound 256 _ xor_table x hx) y hy)

key-IsByte : (key : List ℕ) (i : ℕ) → All IsByte key → IsByte (get_or key i 0)
key-IsByte [] i h = omega arith
key-IsByte (k ∷ ks) zero h = h.0
key-IsByte (k ∷ ks) (suc i) h = key-IsByte ks i h.1

unmask_twice :
    (i : ℕ) (key payload : List ℕ)
    → All IsByte key
    → All IsByte payload
    → unmask i key (unmask i key payload) ≡ payload
unfolding unmask
unmask_twice i key [] hk hp = refl
unmask_twice i key (p ∷ ps) hk hp = ground (
  arith,
  xor_twice p (get_or key (i % 4) 0) hp.0 (key-IsByte key (i % 4) hk),
  unmask_twice (i + 1) key ps hk hp.1,
)

pub length-unmask : (i : ℕ) (key payload : List ℕ) → length (unmask i key payload) ≡ length payload
unfolding unmask
length-unmask i key [] = refl
length-unmask i key (p ∷ ps) = ap suc (length-unmask (i + 1) key ps)

module _ (a b c d : ℕ) where
  abbrev key : List ℕ
  key = a ∷ b ∷ c ∷ d ∷ []

  same_place : (i j : ℕ) → i ≡ j → get_or key i 0 ≡ get_or key j 0
  same_place i j e = ap (λ (k : ℕ). get_or key k 0) e

  -- The byte of the key at the places of one turn.
  at_turn :
      (i : ℕ)
      → i % 4 ≡ 0
      → (get_or key (i % 4) 0 ≡ a)
        × (get_or key ((i + 1) % 4) 0 ≡ b)
        × (get_or key ((i + 1 + 1) % 4) 0 ≡ c)
        × (get_or key ((i + 1 + 1 + 1) % 4) 0 ≡ d)
  at_turn i e = (
    same_place (i % 4) 0 e,
    same_place ((i + 1) % 4) 1 (omega (arith, e)),
    same_place ((i + 1 + 1) % 4) 2 (omega (arith, e)),
    same_place ((i + 1 + 1 + 1) % 4) 3 (omega (arith, e)),
  )

  turns : (i : ℕ) (payload : List ℕ) → i % 4 ≡ 0 → mask_with key payload ≡ unmask i key payload
  unfolding unmask
  turns i [] e = refl
  turns i (p ∷ []) e = rw (at_turn i e).0 refl
  turns i (p ∷ q ∷ []) e = rw ((at_turn i e).0, (at_turn i e).1) refl
  turns i (p ∷ q ∷ r ∷ []) e = rw ((at_turn i e).0, (at_turn i e).1, (at_turn i e).2) refl
  turns i (p ∷ q ∷ r ∷ s ∷ ps) e =
      rw ((at_turn i e).0, (at_turn i e).1, (at_turn i e).2, (at_turn i e).3)
        (ap (λ (t : List ℕ). bit_xor p a ∷ bit_xor q b ∷ bit_xor r c ∷ bit_xor s d ∷ t)
          (turns (i + 1 + 1 + 1 + 1) ps (omega (arith, e))))

pub mask_with-unmask :
    (key payload : List ℕ) → length key ≡ 4 → mask_with key payload ≡ unmask 0 key payload
mask_with-unmask (a ∷ b ∷ c ∷ d ∷ []) payload e = turns a b c d 0 payload refl
mask_with-unmask [] payload e = absurd (omega (arith, e))
mask_with-unmask (a ∷ []) payload e = absurd (omega (arith, e))
mask_with-unmask (a ∷ b ∷ []) payload e = absurd (omega (arith, e))
mask_with-unmask (a ∷ b ∷ c ∷ []) payload e = absurd (omega (arith, e))
mask_with-unmask (a ∷ b ∷ c ∷ d ∷ f ∷ ks) payload e = absurd (omega (arith, e))

-- A payload of bytes that was masked with a key of four bytes, the key turning by one byte with each
-- byte of the payload, is unmasked to what it was.
pub unmask-mask_with :
    (key payload : List ℕ)
    → length key ≡ 4
    → All IsByte key
    → All IsByte payload
    → unmask 0 key (mask_with key payload) ≡ payload
unmask-mask_with key payload four hk hp =
    ap (unmask 0 key) (mask_with-unmask key payload four) ∙ unmask_twice 0 key payload hk hp

pub length-mask_with :
    (key payload : List ℕ) → length key ≡ 4 → length (mask_with key payload) ≡ length payload
length-mask_with key payload four =
    ap length (mask_with-unmask key payload four) ∙ length-unmask 0 key payload
