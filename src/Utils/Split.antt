-- ===== src/Utils/Split.antt =====
-- Utils::split and Utils::join.
use universe.Base.{
  ℕ, zero, suc, ◌+◌, ◌<◌, ◌≤◌, ◌&&◌, ltb, true, false, Bool, List, [], ◌∷◌, ◌++◌, length, take,
  drop, Option, none, some, ◌≡◌, ◌≢◌, refl, sym, ap, ◌∙◌, arith, All, length-append, length-drop,
  take-append, take-length, Bool-cases, inl, inr,
}
use universe.Reader.Scans.{Clear}
use universe.Utils.{find, split, split_loop, split_round, add_token, join, unless_empty, or_length}
use universe.Utils.Search.{find-append, find-Clear}

-- A piece that is not empty and has no delimiter in it.
abbrev pub IsPiece : ℕ → List ℕ → Type 0
IsPiece d piece = (0 < length piece) × Clear (d ∷ []) piece

unless_empty-IsPiece :
    (piece : List ℕ) (tokens : List (List ℕ))
    → 0 < length piece
    → unless_empty piece tokens ≡ piece ∷ tokens
unless_empty-IsPiece [] tokens h = absurd (omega arith)
unless_empty-IsPiece (c ∷ cs) tokens h = refl

abbrev goes_on : ℕ → ℕ → ℕ → Bool
goes_on pos prev size = ltb pos size && ltb prev size

drop_past :
    (piece : List ℕ) (d : ℕ) (rest : List ℕ) → drop (length piece + 1) (piece ++ (d ∷ rest)) ≡ rest
drop_past piece d rest =
    let next : length piece + 1 ≡ suc (length piece) = omega arith in
    ap (λ n. drop n (piece ++ (d ∷ rest))) next ∙ behind piece
  where
    behind : (piece : List ℕ) → drop (suc (length piece)) (piece ++ (d ∷ rest)) ≡ rest
    behind [] = refl
    behind (x ∷ piece) = behind piece

split_round-true :
    (rest : List ℕ) (pos prev : ℕ) (later : Option (List (List ℕ)))
    → goes_on pos prev (length rest) ≡ true
    → split_round rest pos prev later ≡ add_token (take pos rest) later
unfolding split_round
split_round-true rest pos prev later e = rw e refl

split_round-false :
    (rest : List ℕ) (pos prev : ℕ) (later : Option (List (List ℕ)))
    → goes_on pos prev (length rest) ≡ false
    → split_round rest pos prev later ≡ add_token (take pos rest) (some [])
unfolding split_round
split_round-false rest pos prev later e = rw e refl

-- The round by what `find` gives.
abbrev round : ℕ → ℕ → List ℕ → Option ℕ → Option (List (List ℕ))
round fuel d rest found =
    let pos = or_length rest found in
    split_round rest pos (pos + 1) (split_loop fuel (d ∷ []) (drop (pos + 1) rest))

split_loop_last :
    (fuel d : ℕ) (piece : List ℕ)
    → IsPiece d piece
    → split_loop (suc fuel) (d ∷ []) piece ≡ some (piece ∷ [])
unfolding split_loop
split_loop_last fuel d piece (some_bytes, clear) =
    ap (round fuel d piece) (find-Clear d [] piece clear)
    ∙ split_round-false piece (length piece) (length piece + 1) _ (ground arith)
    ∙ ap (λ t. some (unless_empty t [])) (take-length piece)
    ∙ ap some (unless_empty-IsPiece piece [] some_bytes)

split_loop_next :
    (fuel d : ℕ) (piece rest : List ℕ) (tokens : List (List ℕ))
    → IsPiece d piece
    → 0 < length rest
    → split_loop fuel (d ∷ []) rest ≡ some tokens
    → split_loop (suc fuel) (d ∷ []) (piece ++ (d ∷ rest)) ≡ some (piece ∷ tokens)
unfolding split_loop
split_loop_next fuel d piece rest tokens (some_bytes, clear) more later =
    ap (round fuel d (piece ++ (d ∷ rest))) (find-append d [] piece rest clear)
    ∙ split_round-true (piece ++ (d ∷ rest)) (length piece) (length piece + 1) _
        (ground (arith, length-append piece (d ∷ rest)))
    ∙ ap (λ t. add_token (take (length piece) (piece ++ (d ∷ rest))) (split_loop fuel (d ∷ []) t))
        (drop_past piece d rest)
    ∙ ap (add_token (take (length piece) (piece ++ (d ∷ rest)))) later
    ∙ ap (λ t. some (unless_empty t tokens)) (take-append piece (d ∷ rest))
    ∙ ap some (unless_empty-IsPiece piece tokens some_bytes)

length-join_pieces :
    (d : ℕ) (piece : List ℕ) (pieces : List (List ℕ))
    → IsPiece d piece
    → 0 < length (join (d ∷ []) (piece ∷ pieces))
unfolding join
length-join_pieces d piece [] h = h.0
length-join_pieces d piece (p ∷ pieces) h =
    omega (arith, length-append piece (d ∷ join (d ∷ []) (p ∷ pieces)), h.0)

split_loop-join :
    (fuel d : ℕ) (piece : List ℕ) (pieces : List (List ℕ))
    → All (IsPiece d) (piece ∷ pieces)
    → length (join (d ∷ []) (piece ∷ pieces)) ≤ fuel
    → split_loop (suc fuel) (d ∷ []) (join (d ∷ []) (piece ∷ pieces)) ≡ some (piece ∷ pieces)
unfolding join
split_loop-join fuel d piece [] good h = split_loop_last fuel d piece good.0
split_loop-join zero d piece (p ∷ pieces) good h =
    absurd (omega (arith, length-append piece (d ∷ join (d ∷ []) (p ∷ pieces))))
split_loop-join (suc fuel) d piece (p ∷ pieces) good h =
    split_loop_next (suc fuel) d piece (join (d ∷ []) (p ∷ pieces)) (p ∷ pieces) good.0
      (length-join_pieces d p pieces good.1.0)
      (split_loop-join fuel d p pieces good.1
        (omega (arith, length-append piece (d ∷ join (d ∷ []) (p ∷ pieces)))))

-- Pieces that are joined with a byte that is in none of them, none of them empty, are split apart
-- again.
pub split-join :
    (d : ℕ) (piece : List ℕ) (pieces : List (List ℕ))
    → All (IsPiece d) (piece ∷ pieces)
    → split (join (d ∷ []) (piece ∷ pieces)) (d ∷ []) ≡ some (piece ∷ pieces)
unfolding split
split-join d piece pieces good =
    split_loop-join (length (join (d ∷ []) (piece ∷ pieces))) d piece pieces good (omega arith)

add_token-none :
    (token : List ℕ) (later : Option (List (List ℕ))) → add_token token later ≡ none → later ≡ none
add_token-none token none e = refl
add_token-none token (some tokens) e = absurd cc

split_loop-ends :
    (fuel : ℕ) (d : ℕ) (ds rest : List ℕ)
    → length rest < fuel
    → split_loop fuel (d ∷ ds) rest ≢ none
unfolding split_loop
split_loop-ends zero d ds rest h = absurd (omega arith)
split_loop-ends (suc fuel) d ds rest h =
    let pos = or_length rest (find (d ∷ ds) rest) in
    let prev = pos + length (d ∷ ds) in
    elim (Bool-cases (goes_on pos prev (length rest))) [
      | inr stops ↦ λ e. let never = sym (split_round-false rest pos prev _ stops) ∙ e in cc
      | inl goes ↦ λ e.
          let shorter : length (drop prev rest) < fuel = ground (arith, length-drop prev rest) in
          split_loop-ends fuel d ds (drop prev rest) shorter
            (add_token-none _ _ (sym (split_round-true rest pos prev _ goes) ∙ e))
    ]

-- With a delimiter that is not empty, split ends on every string.
pub split-ends : (str : List ℕ) (d : ℕ) (ds : List ℕ) → split str (d ∷ ds) ≢ none
unfolding split
split-ends str d ds = split_loop-ends (suc (length str)) d ds str (omega arith)
