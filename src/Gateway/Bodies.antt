-- ===== src/Gateway/Bodies.antt =====
-- Chunked bodies, as Http::parse_chunked_body reads them.
use universe.Base.{
  ℕ, zero, suc, ◌<◌, ◌==◌, ltb, true, false, Bool, List, [], ◌∷◌, ◌++◌, length, ◌≡◌, refl, sym, ap,
  ◌∙◌, arith, All, append_assoc, append-nil,
}
use universe.Base.Text.{bytes_eq}
use universe.Session.Branches.{if_left, if_right}
use universe.Reader.{Reader, ok, read_size, read_until, find_char}
use universe.Reader.Local.{at, >>=-ok}
use universe.Reader.Scans.{Clear, read_until-at, read_size-at, fail_if-false, read_size-at-length}
use universe.Http.{cr, crlf, read_crlf}
use universe.Gateway.Responses.{hex2long, chunk_loop, read_if}

-- Chunks on the wire: the length line, and the bytes.
abbrev pub chunks_wire : List (List ℕ × List ℕ) → List ℕ
chunks_wire [] = []
chunks_wire ((line, bytes) ∷ chunks) = line ++ (crlf ++ (bytes ++ (crlf ++ chunks_wire chunks)))

abbrev pub chunks_body : List (List ℕ × List ℕ) → List ℕ
chunks_body [] = []
chunks_body ((line, bytes) ∷ chunks) = bytes ++ chunks_body chunks

-- A chunk that is not the last: its line says how many bytes there are.
abbrev pub IsChunk : ℕ → List ℕ × List ℕ → Type 0
IsChunk junk (line, bytes) =
    Clear cr line × (hex2long junk line ≡ length bytes) × (0 < length bytes)

read_crlf-at :
    (front rest : List ℕ) → read_crlf (at front (crlf ++ rest)) ≡ ok (tt, at (front ++ crlf) rest)
unfolding read_crlf bytes_eq
read_crlf-at front rest = >>=-ok (read_size 2) _ (read_size-at front crlf rest) ∙ fail_if-false _

read_if-true :
    (b : Bool) (size : ℕ) (front bytes rest : List ℕ)
    → b ≡ true
    → size ≡ length bytes
    → read_if b size (at front (bytes ++ rest)) ≡ ok (bytes, at (front ++ bytes) rest)
read_if-true true size front bytes rest h e = read_size-at-length size front bytes rest (sym e)
read_if-true false size front bytes rest h e = absurd cc

read_if-false : (b : Bool) (size : ℕ) (r : Reader) → b ≡ false → read_if b size r ≡ ok ([], r)
read_if-false true size r h = absurd cc
read_if-false false size r h = refl

-- The line of a chunk, with the line end behind it.
line-at :
    (front line rest : List ℕ)
    → Clear cr line
    → read_until cr [] false (at front (line ++ (crlf ++ rest)))
      ≡ ok (line, at (front ++ line) (crlf ++ rest))
unfolding find_char
line-at front line rest clear = read_until-at cr line 13 (10 ∷ rest) false front clear refl

module _ (junk : ℕ) where
  chunk_loop_last :
      (fuel : ℕ) (body line front rest : List ℕ)
      → Clear cr line
      → hex2long junk line ≡ 0
      → chunk_loop junk (suc fuel) body (at front (line ++ (crlf ++ (crlf ++ rest))))
        ≡ ok (body, at (((front ++ line) ++ crlf) ++ crlf) rest)
  unfolding chunk_loop
  chunk_loop_last fuel body line front rest clear none_left =
      >>=-ok (read_until cr [] false) _ (line-at front line (crlf ++ rest) clear)
      ∙ >>=-ok read_crlf _ (read_crlf-at (front ++ line) (crlf ++ rest))
      ∙ >>=-ok (read_if (ltb 0 (hex2long junk line)) (hex2long junk line)) _
          (read_if-false _ _ _ (ap (ltb 0) none_left))
      ∙ >>=-ok read_crlf _ (read_crlf-at ((front ++ line) ++ crlf) rest)
      ∙ if_left (hex2long junk line == 0) _ _ _ (ap (λ n. n == 0) none_left)

  chunk_loop_next :
      (fuel : ℕ) (body line bytes front rest : List ℕ)
      → IsChunk junk (line, bytes)
      → chunk_loop junk (suc fuel) body (at front (line ++ (crlf ++ (bytes ++ (crlf ++ rest)))))
        ≡ chunk_loop junk fuel
            (body ++ bytes)
            (at ((((front ++ line) ++ crlf) ++ bytes) ++ crlf) rest)
  unfolding chunk_loop
  chunk_loop_next fuel body line bytes front rest (clear, size, some_bytes) =
      >>=-ok (read_until cr [] false) _ (line-at front line (bytes ++ (crlf ++ rest)) clear)
      ∙ >>=-ok read_crlf _ (read_crlf-at (front ++ line) (bytes ++ (crlf ++ rest)))
      ∙ >>=-ok (read_if (ltb 0 (hex2long junk line)) (hex2long junk line)) _
          (read_if-true _ _ ((front ++ line) ++ crlf) bytes (crlf ++ rest) (ground arith) size)
      ∙ >>=-ok read_crlf _ (read_crlf-at (((front ++ line) ++ crlf) ++ bytes) rest)
      ∙ if_right (hex2long junk line == 0) _ _ _ (ground arith)

  -- Chunks whose lines say how many bytes they have, and a last line that says 0, are read to the
  -- bytes of the chunks in order, from any place and whatever follows, with a round of the loop for
  -- each chunk and one more.
  pub chunk_loop-chunks_wire :
      (chunks : List (List ℕ × List ℕ)) (fuel : ℕ) (body last front rest : List ℕ)
      → length chunks < fuel
      → All (IsChunk junk) chunks
      → Clear cr last
      → hex2long junk last ≡ 0
      → chunk_loop junk fuel body
          (at front (chunks_wire chunks ++ (last ++ (crlf ++ (crlf ++ rest)))))
        ≡ ok (
          body ++ chunks_body chunks,
          at (front ++ (chunks_wire chunks ++ (last ++ (crlf ++ crlf)))) rest,
        )
  chunk_loop-chunks_wire chunks zero body last front rest h good clear none_left =
      absurd (omega arith)
  chunk_loop-chunks_wire [] (suc fuel) body last front rest h good clear none_left =
      chunk_loop_last fuel body last front rest clear none_left ∙ λ i.
      ok (sym (append-nil body) i, at (joined front last i) rest)
    where
      joined :
          (front last : List ℕ)
          → ((front ++ last) ++ crlf) ++ crlf ≡ front ++ (last ++ (crlf ++ crlf))
      joined front last = simp append_assoc
  chunk_loop-chunks_wire ((line, bytes) ∷ chunks) (suc fuel) body last front rest h good clear
        none_left =
      rw
        (
          append_assoc line (crlf ++ (bytes ++ (crlf ++ chunks_wire chunks)))
              (last ++ (crlf ++ (crlf ++ rest))),
          append_assoc bytes (crlf ++ chunks_wire chunks) (last ++ (crlf ++ (crlf ++ rest))),
        )
        (chunk_loop_next fuel body line bytes front
            (chunks_wire chunks ++ (last ++ (crlf ++ (crlf ++ rest)))) good.0
          ∙ chunk_loop-chunks_wire chunks fuel (body ++ bytes) last
              ((((front ++ line) ++ crlf) ++ bytes) ++ crlf) rest (omega arith) good.1 clear
              none_left
          ∙ λ i. ok (
            append_assoc body bytes (chunks_body chunks) i,
            at (passed front line bytes (chunks_wire chunks) (last ++ (crlf ++ crlf)) i) rest,
          ))
    where
      passed :
          (front line bytes more last : List ℕ)
          → ((((front ++ line) ++ crlf) ++ bytes) ++ crlf) ++ (more ++ last)
            ≡ front ++ ((line ++ (crlf ++ (bytes ++ (crlf ++ more)))) ++ last)
      passed front line bytes more last = simp append_assoc
