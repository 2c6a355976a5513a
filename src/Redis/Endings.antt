-- ===== src/Redis/Endings.antt =====
-- P::Client::Redis::parse_response looks only at the bytes it consumes, takes one at least, and ends.
use universe.Base.{
  ℕ, zero, suc, ◌==◌, ◌≢◌, ◌≤◌, refl, true, if◌then◌else◌, List, [], ◌∷◌, length, arith,
}
use universe.Base.Text.{ℤ, pos, negsuc, atol}
use universe.Session.Branches.{Local-spent, Local-if, EndsBelow-if}
use universe.Reader.{R, pure, ◌>>=◌, read_byte, read_size, read_until, fail_if, resize}
use universe.Reader.Local.{Local, Local-pure, Local-bind, Local-then, Local-fail_if}
use universe.Reader.Scans.{Local-read_size, Local-read_byte, Local-read_until, Local-resize}
use universe.Reader.Fuel.{IsFraming-with_fuel}
use universe.Session.Framing.{
  IsFraming, Grows, Ends, Grows-bind, Grows-bind_after, Grows-read_byte, Ends-bind, Ends-pure,
  Ends-read_size, Ends-read_until, Ends-read_byte, Ends-fail_if, Ends-resize,
}
use universe.Session.Bounded.{
  EndsBelow, EndsBelow-zero, EndsBelow-Ends, EndsBelow-bind, EndsBelow-bind_after,
}
use universe.Session.{Ending, finished, returned, again, refused, crashed, exhausted}
use universe.Session.Chunks.{outcome, ran_out, serve, serve-ne-ran_out}
use universe.StateMachine.Buffers.{append_buf}
use universe.Redis.{
  RedisReply, reply_of, no_replies, read_line, read_crlf, read_bulk, is_plain, element_count,
  parse_loop, parse_elements, parse_response, Redis, stuck, catch_block, on_message, reply_to,
}
use universe.Redis.Parsing.{Steady-parse_loop}

Local-read_line : Local read_line
unfolding read_line
Local-read_line =
    Local-bind (read_until (13 ∷ []) [] true) _ (Local-read_until (13 ∷ []) true) (λ line.
      Local-bind read_byte _ Local-read_byte
        (λ c. Local-then (fail_if _) _ (Local-fail_if _) (Local-pure line)))

Grows-read_line : Grows read_line
unfolding read_line
Grows-read_line =
    Grows-bind_after (read_until (13 ∷ []) [] true) _ (Local-read_until (13 ∷ []) true) (λ line.
      Grows-bind read_byte _ Grows-read_byte Local-read_byte
        (λ c. Local-then (fail_if _) _ (Local-fail_if _) (Local-pure line)))

Ends-read_line : Ends read_line
unfolding read_line
Ends-read_line =
    Ends-bind (read_until (13 ∷ []) [] true) _ (Ends-read_until (13 ∷ []) [] true)
      (Local-read_until (13 ∷ []) true)
      (λ line.
        Ends-bind read_byte _ Ends-read_byte Local-read_byte
          (λ c. Ends-bind (fail_if _) _ (Ends-fail_if _) (Local-fail_if _) (λ _. Ends-pure line)))

Local-read_crlf : Local read_crlf
unfolding read_crlf
Local-read_crlf = Local-bind (read_size 2) _ (Local-read_size 2) (λ bytes. Local-fail_if _)

Ends-read_crlf : Ends read_crlf
unfolding read_crlf
Ends-read_crlf =
    Ends-bind (read_size 2) _ (Ends-read_size 2) (Local-read_size 2) (λ bytes. Ends-fail_if _)

module _ (max_size : ℕ) where
  Local-read_bulk : (n : ℤ) → Local (read_bulk max_size n)
  unfolding read_bulk
  Local-read_bulk (negsuc n) = Local-pure _
  Local-read_bulk (pos n) = Local-then (resize max_size n) _ (Local-resize max_size n) (
      Local-bind (read_size n) _ (Local-read_size n)
        (λ bytes. Local-then read_crlf _ Local-read_crlf (Local-pure _)))

  Ends-read_bulk : (n : ℤ) → Ends (read_bulk max_size n)
  unfolding read_bulk
  Ends-read_bulk (negsuc n) = Ends-pure _
  Ends-read_bulk (pos n) =
      Ends-bind (resize max_size n) _ (Ends-resize max_size n) (Local-resize max_size n) (λ _.
        Ends-bind (read_size n) _ (Ends-read_size n) (Local-read_size n)
          (λ bytes. Ends-bind read_crlf _ Ends-read_crlf Local-read_crlf (λ _. Ends-pure _)))

  -- The switch behind the first byte.
  abbrev branch : ℕ → ℕ → R RedisReply
  branch fuel next_byte =
      if is_plain next_byte
      then (read_line >>= λ line. pure (reply_of next_byte line no_replies))
      else if next_byte == 36
      then (read_line >>= λ line. read_bulk max_size (atol line))
      else if next_byte == 42
      then (read_line >>= λ line.
          parse_elements max_size fuel (element_count (atol line)) >>= λ elements.
          pure (reply_of 42 [] elements))
      else pure (reply_of next_byte [] no_replies)

  Local-branch : (f c : ℕ) → ((n : ℕ) → Local (parse_elements max_size f n)) → Local (branch f c)
  Local-branch f c local =
      Local-if (is_plain c) _ _ (Local-bind read_line _ Local-read_line (λ line. Local-pure _)) (
        Local-if (c == 36) _ _
          (Local-bind read_line _ Local-read_line (λ line. Local-read_bulk (atol line)))
          (Local-if (c == 42) _ _
            (Local-bind read_line _ Local-read_line (λ line.
              Local-bind (parse_elements max_size f (element_count (atol line))) _
                (local (element_count (atol line))) (λ elements. Local-pure _)))
            (Local-pure _)))

  mutual
    unfolding parse_loop

    pub Local-parse_loop : (f : ℕ) → Local (parse_loop max_size f)
    Local-parse_loop zero = Local-spent _
    Local-parse_loop (suc f) =
        Local-bind read_byte _ Local-read_byte (λ c. Local-branch f c (Local-parse_elements f))

    Local-parse_elements : (f n : ℕ) → Local (parse_elements max_size f n)
    Local-parse_elements f zero = Local-pure _
    Local-parse_elements zero (suc n) = Local-spent _
    Local-parse_elements (suc f) (suc n) =
        Local-bind (parse_loop max_size f) _ (Local-parse_loop f) (λ x.
          Local-bind (parse_elements max_size f n) _ (Local-parse_elements f n)
            (λ xs. Local-pure _))

  Grows-parse_loop : (f : ℕ) → Grows (parse_loop max_size f)
  unfolding parse_loop Grows
  Grows-parse_loop zero = λ front xs a r e. absurd cc
  Grows-parse_loop (suc f) =
      Grows-bind read_byte _ Grows-read_byte Local-read_byte
        (λ c. Local-branch f c (Local-parse_elements f))

  EndsBelow-branch :
      (f c : ℕ)
      → ((n : ℕ)
          → EndsBelow f (
              read_line >>= λ line.
              parse_elements max_size f (element_count (atol line)) >>= λ elements.
              pure (reply_of 42 [] elements)))
      → EndsBelow f (branch f c)
  EndsBelow-branch f c array_ends =
      EndsBelow-if f (is_plain c) _ _
        (EndsBelow-Ends f _
          (Ends-bind read_line _ Ends-read_line Local-read_line (λ line. Ends-pure _)))
        (EndsBelow-if f (c == 36) _ _
          (EndsBelow-Ends f _ (
            Ends-bind read_line _ Ends-read_line Local-read_line
              (λ line. Ends-read_bulk (atol line))))
          (EndsBelow-if f (c == 42) _ _ (array_ends 0) (EndsBelow-Ends f _ (Ends-pure _))))

  -- Every element takes a byte at least.
  EndsBelow-parse_elements :
      (f n : ℕ)
      → ((g : ℕ) → g ≤ f → EndsBelow g (parse_loop max_size g))
      → EndsBelow f (parse_elements max_size (suc f) n)
  unfolding parse_loop
  EndsBelow-parse_elements f zero loops = EndsBelow-Ends f _ (Ends-pure _)
  EndsBelow-parse_elements zero (suc n) loops = EndsBelow-zero _
  EndsBelow-parse_elements (suc f) (suc n) loops =
      EndsBelow-bind_after (parse_loop max_size (suc f)) _ (Local-parse_loop (suc f)) f
        (Grows-parse_loop (suc f)) (loops (suc f) (omega arith))
        (λ x.
          EndsBelow-bind (parse_elements max_size (suc f) n) _ (Local-parse_elements (suc f) n) f
            (EndsBelow-parse_elements f n (λ g le. loops g (omega arith)))
            (λ xs. EndsBelow-Ends f _ (Ends-pure _)))

  EndsBelow-array :
      (f : ℕ)
      → ((g : ℕ) → g ≤ f → EndsBelow g (parse_loop max_size g))
      → EndsBelow f (
          read_line >>= λ line.
          parse_elements max_size f (element_count (atol line)) >>= λ elements.
          pure (reply_of 42 [] elements))
  EndsBelow-array zero loops = EndsBelow-zero _
  EndsBelow-array (suc f) loops =
      EndsBelow-bind_after read_line _ Local-read_line f Grows-read_line
        (EndsBelow-Ends (suc f) read_line Ends-read_line)
        (λ line.
          EndsBelow-bind (parse_elements max_size (suc f) (element_count (atol line))) _
            (Local-parse_elements (suc f) (element_count (atol line))) f
            (EndsBelow-parse_elements f (element_count (atol line)) (λ g le. loops g (omega arith)))
            (λ elements. EndsBelow-Ends f _ (Ends-pure _)))

  -- By the fuels below a bound.
  EndsBelow-parse_loop_to : (f g : ℕ) → g ≤ f → EndsBelow g (parse_loop max_size g)
  unfolding parse_loop
  EndsBelow-parse_loop_to f zero le = EndsBelow-zero _
  EndsBelow-parse_loop_to zero (suc g) le = absurd (omega arith)
  EndsBelow-parse_loop_to (suc f) (suc g) le =
      EndsBelow-bind_after read_byte _ Local-read_byte g Grows-read_byte
        (EndsBelow-Ends (suc g) read_byte Ends-read_byte)
        (λ c.
          EndsBelow-branch g c
            (λ _. EndsBelow-array g (λ k below. EndsBelow-parse_loop_to f k (omega arith))))

  pub parse_response-IsFraming : IsFraming (parse_response max_size)
  unfolding parse_response
  parse_response-IsFraming =
      IsFraming-with_fuel (parse_loop max_size) (Steady-parse_loop max_size) Local-parse_loop
        (λ f. EndsBelow-parse_loop_to f f (omega arith)) Grows-parse_loop

  catch_block-ends :
      (client : ℕ) (message : List ℕ) (e : Ending Redis)
      → outcome message e ≢ ran_out
      → catch_block client message e ≢ stuck
  unfolding catch_block
  catch_block-ends client message (finished s) h e = cc
  catch_block-ends client message (returned s) h e = cc
  catch_block-ends client message (again offset s) h e = cc
  catch_block-ends client message (refused s) h e = cc
  catch_block-ends client message (crashed s) h e = cc
  catch_block-ends client message exhausted h e = h refl

  -- The Redis client's handler comes to an end on every message, whatever is held back and whichever
  -- callbacks wait.
  pub every_reply_ends :
      (client : ℕ) (message : List ℕ) (s : Redis) → on_message max_size client message s ≢ stuck
  unfolding on_message serve
  every_reply_ends client message s =
      let (found, whole, buf) = append_buf client message s.buf in
      catch_block-ends client whole _ (
        serve-ne-ran_out (parse_response max_size) (reply_to client) parse_response-IsFraming
          (suc (length whole)) whole (record s { buf = buf }) (omega arith))
