-- ===== src/Redis/Wire.antt =====
-- Replies as a server sends them, and what P::Client::Redis::parse_response makes of them.
use universe.Base.{
  ℕ, zero, suc, ◌+◌, ◌^◌, ◌<◌, ◌≤◌, ◌≡◌, refl, sym, ap, ◌∙◌, true, false, List, [], ◌∷◌, ◌++◌,
  append_assoc, append-nil, length, length-append, arith, All, codes,
}
use universe.Base.Text.{ℤ, pos, decimal, atol, bytes_eq}
use universe.Base.Decimal.{IsDigit, atol-decimal, decimal-IsDigit}
use universe.Session.Branches.{if_left}
use universe.Reader.{ok, read_size, read_byte, read_until, fail_if, resize, find_char}
use universe.Reader.Local.{at, >>=-ok}
use universe.Reader.Scans.{Clear, read_until-at, read_size-at, fail_if-false, resize_fits}
use universe.Reader.Words.{read_byte-at}
use universe.Reader.Fuel.{with_fuel-ok}
use universe.Redis.{
  RedisReply, Replies, reply_of, no_replies, one_more, crlf, read_line, read_crlf, read_bulk,
  is_plain, element_count, parse_loop, parse_elements, parse_response, resp_encode, create_cmd,
  resp_encode_elements,
}
use universe.Redis.Parsing.{Steady-parse_loop}

-- A simple string, an error or an integer by its first byte; a bulk string; the null bulk string; an
-- array.
mutual
  pub data Sent : Type 0 where
    plain : ℕ → List ℕ → Sent
    bulk : List ℕ → Sent
    null : Sent
    array : SentAll → Sent

  pub data SentAll : Type 0 where
    none_sent : SentAll
    then_sent : Sent → SentAll → SentAll

abbrev pub count : SentAll → ℕ
count none_sent = 0
count (then_sent s ss) = suc (count ss)

unfoldable mutual
  pub wire : Sent → List ℕ
  wire (plain c text) = c ∷ (text ++ crlf)
  wire (bulk text) = resp_encode text
  wire null = codes "$-1" ++ crlf
  wire (array ss) = 42 ∷ (decimal (count ss) ++ (crlf ++ wire_all ss))

  pub wire_all : SentAll → List ℕ
  wire_all none_sent = []
  wire_all (then_sent s ss) = wire s ++ wire_all ss

unfoldable mutual
  pub reply : Sent → RedisReply
  reply (plain c text) = reply_of c text no_replies
  reply (bulk text) = reply_of 36 text no_replies
  reply null = reply_of 32 [] no_replies
  reply (array ss) = reply_of 42 [] (replies ss)

  pub replies : SentAll → Replies
  replies none_sent = no_replies
  replies (then_sent s ss) = one_more (reply s) (replies ss)

-- The fuel that a reply takes.
unfoldable mutual
  spend : Sent → ℕ
  spend (plain c text) = 1
  spend (bulk text) = 1
  spend null = 1
  spend (array ss) = suc (spend_all ss)

  spend_all : SentAll → ℕ
  spend_all none_sent = 0
  spend_all (then_sent s ss) = suc (spend s + spend_all ss)

-- Lines without `\r`, and lengths that a `long` holds and a string can have.
module _ (max_size : ℕ) where
  unfoldable mutual
    pub IsSent : Sent → Type 0
    IsSent (plain c text) = (is_plain c ≡ true) × Clear (13 ∷ []) text
    IsSent (bulk text) = (length text ≤ max_size) × (length text < 2 ^ 63)
    IsSent null = Unit
    IsSent (array ss) = (count ss < 2 ^ 63) × AllSent ss

    pub AllSent : SentAll → Type 0
    AllSent none_sent = Unit
    AllSent (then_sent s ss) = IsSent s × AllSent ss

joined :
    (c : ℕ) (front line body : List ℕ)
    → ((front ++ (c ∷ [])) ++ (line ++ crlf)) ++ body ≡ front ++ (c ∷ (line ++ (crlf ++ body)))
joined c front line body = simp append_assoc

read_line-at :
    (front line rest : List ℕ)
    → Clear (13 ∷ []) line
    → read_line (at front (line ++ (13 ∷ 10 ∷ rest))) ≡ ok (line, at (front ++ (line ++ crlf)) rest)
unfolding read_line find_char
read_line-at front line rest clear =
    >>=-ok (read_until (13 ∷ []) [] true) _
      (read_until-at (13 ∷ []) line 13 (10 ∷ rest) true front clear refl)
    ∙ >>=-ok read_byte _ (read_byte-at 10 _ rest)
    ∙ >>=-ok (fail_if false) _ (fail_if-false _)
    ∙ ap (λ (t : List ℕ). ok (line, at t rest)) (simp append_assoc)

read_crlf-at :
    (front rest : List ℕ) → read_crlf (at front (13 ∷ 10 ∷ rest)) ≡ ok (tt, at (front ++ crlf) rest)
unfolding read_crlf bytes_eq
read_crlf-at front rest = >>=-ok (read_size 2) _ (read_size-at front crlf rest) ∙ fail_if-false _

digits-Clear : (ds : List ℕ) → All IsDigit ds → Clear (13 ∷ []) ds
unfolding find_char
digits-Clear [] h = tt
digits-Clear (d ∷ ds) h = (ground arith, digits-Clear ds h.1)

decimal_line-at :
    (n : ℕ) (front rest : List ℕ)
    → read_line (at front (decimal n ++ (crlf ++ rest)))
      ≡ ok (decimal n, at (front ++ (decimal n ++ crlf)) rest)
decimal_line-at n front rest =
    read_line-at front (decimal n) rest (digits-Clear (decimal n) (decimal-IsDigit n))

module _ (max_size : ℕ) where
  read_bulk-at :
      (text front rest : List ℕ)
      → length text ≤ max_size
      → read_bulk max_size (pos (length text)) (at front (text ++ (crlf ++ rest)))
        ≡ ok (reply_of 36 text no_replies, at (front ++ (text ++ crlf)) rest)
  unfolding read_bulk
  read_bulk-at text front rest fits =
      >>=-ok (resize max_size (length text)) _ (resize_fits max_size (length text) _ fits)
      ∙ >>=-ok (read_size (length text)) _ (read_size-at front text (crlf ++ rest))
      ∙ >>=-ok read_crlf _ (read_crlf-at (front ++ text) rest)
      ∙ ap (λ (t : List ℕ). ok (reply_of 36 text no_replies, at t rest)) (simp append_assoc)

  mutual
    unfolding parse_loop wire reply spend IsSent resp_encode read_bulk find_char atol

    parse_loop-wire :
        (s : Sent) (fuel : ℕ) (front rest : List ℕ)
        → spend s ≤ fuel
        → IsSent max_size s
        → parse_loop max_size fuel (at front (wire s ++ rest))
          ≡ ok (reply s, at (front ++ wire s) rest)
    parse_loop-wire (plain c text) zero front rest h good = absurd (omega arith)
    parse_loop-wire (plain c text) (suc fuel) front rest h (kind, clear) =
        rw (append_assoc text crlf rest) (
          >>=-ok read_byte _ (read_byte-at c front (text ++ (crlf ++ rest)))
          ∙ if_left (is_plain c) _ _ _ kind
          ∙ >>=-ok read_line _ (read_line-at (front ++ (c ∷ [])) text rest clear)
          ∙ ap (λ (t : List ℕ). ok (reply_of c text no_replies, at t rest))
              (append_assoc front (c ∷ []) (text ++ crlf)))
    parse_loop-wire (bulk text) zero front rest h good = absurd (omega arith)
    parse_loop-wire (bulk text) (suc fuel) front rest h (fits, short) =
        let number : atol (decimal (length text)) ≡ pos (length text) =
          atol-decimal (length text) short in
        rw
          (
            append_assoc (decimal (length text)) (crlf ++ (text ++ crlf)) rest,
            append_assoc text crlf rest,
          )
          (>>=-ok read_byte _
              (read_byte-at 36 front (decimal (length text) ++ (crlf ++ (text ++ (crlf ++ rest)))))
            ∙ >>=-ok read_line _
                (decimal_line-at (length text) (front ++ (36 ∷ [])) (text ++ (crlf ++ rest)))
            ∙ ap
                (λ (z : ℤ). read_bulk max_size z (
                  at ((front ++ (36 ∷ [])) ++ (decimal (length text) ++ crlf))
                    (text ++ (crlf ++ rest))))
                number
            ∙ read_bulk-at text ((front ++ (36 ∷ [])) ++ (decimal (length text) ++ crlf)) rest fits
            ∙ ap (λ (t : List ℕ). ok (reply_of 36 text no_replies, at t rest))
                (joined 36 front (decimal (length text)) (text ++ crlf)))
    parse_loop-wire null zero front rest h good = absurd (omega arith)
    parse_loop-wire null (suc fuel) front rest h good =
        >>=-ok read_byte _ (read_byte-at 36 front (45 ∷ 49 ∷ 13 ∷ 10 ∷ rest))
        ∙ >>=-ok read_line _
            (read_line-at (front ++ (36 ∷ [])) (45 ∷ 49 ∷ []) rest (refl, (refl, tt)))
        ∙ ap (λ (t : List ℕ). ok (reply_of 32 [] no_replies, at t rest))
            (append_assoc front (36 ∷ []) (45 ∷ 49 ∷ crlf))
    parse_loop-wire (array ss) zero front rest h good = absurd (omega arith)
    parse_loop-wire (array ss) (suc fuel) front rest h (short, good) =
        let number : atol (decimal (count ss)) ≡ pos (count ss) = atol-decimal (count ss) short in
        rw (append_assoc (decimal (count ss)) (crlf ++ wire_all ss) rest) (
          >>=-ok read_byte _
            (read_byte-at 42 front (decimal (count ss) ++ (crlf ++ (wire_all ss ++ rest))))
          ∙ >>=-ok read_line _
              (decimal_line-at (count ss) (front ++ (42 ∷ [])) (wire_all ss ++ rest))
          ∙ >>=-ok (parse_elements max_size fuel (element_count (atol (decimal (count ss))))) _ (
              ap
                (λ (z : ℤ).
                  parse_elements max_size fuel (element_count z) (
                    at ((front ++ (42 ∷ [])) ++ (decimal (count ss) ++ crlf))
                      (wire_all ss ++ rest)))
                number
              ∙ parse_elements-wire_all ss fuel
                  ((front ++ (42 ∷ [])) ++ (decimal (count ss) ++ crlf)) rest (omega arith) good)
          ∙ ap (λ (t : List ℕ). ok (reply_of 42 [] (replies ss), at t rest))
              (joined 42 front (decimal (count ss)) (wire_all ss)))

    parse_elements-wire_all :
        (ss : SentAll) (fuel : ℕ) (front rest : List ℕ)
        → spend_all ss ≤ fuel
        → AllSent max_size ss
        → parse_elements max_size fuel (count ss) (at front (wire_all ss ++ rest))
          ≡ ok (replies ss, at (front ++ wire_all ss) rest)
    parse_elements-wire_all none_sent fuel front rest h good =
        ap (λ (t : List ℕ). ok (no_replies, at t rest)) (sym (append-nil front))
    parse_elements-wire_all (then_sent s ss) zero front rest h good = absurd (omega arith)
    parse_elements-wire_all (then_sent s ss) (suc fuel) front rest h (good, all_good) =
        rw (append_assoc (wire s) (wire_all ss) rest) (
          >>=-ok (parse_loop max_size fuel) _
            (parse_loop-wire s fuel front (wire_all ss ++ rest) (omega arith) good)
          ∙ >>=-ok (parse_elements max_size fuel (count ss)) _
              (parse_elements-wire_all ss fuel (front ++ wire s) rest (omega arith) all_good)
          ∙ ap (λ (t : List ℕ). ok (one_more (reply s) (replies ss), at t rest))
              (append_assoc front (wire s) (wire_all ss)))

mutual
  unfolding spend wire resp_encode

  spend-wire : (s : Sent) → spend s < length (wire s)
  spend-wire (plain c text) = omega (arith, length-append text crlf)
  spend-wire (bulk text) =
      omega (arith, length-append (decimal (length text)) (crlf ++ (text ++ crlf)))
  spend-wire null = omega arith
  spend-wire (array ss) =
      omega (arith, spend_all-wire_all ss, length-append (decimal (count ss)) (crlf ++ wire_all ss))

  spend_all-wire_all : (ss : SentAll) → spend_all ss ≤ length (wire_all ss)
  spend_all-wire_all none_sent = omega arith
  spend_all-wire_all (then_sent s ss) =
      omega (arith, spend-wire s, spend_all-wire_all ss, length-append (wire s) (wire_all ss))

-- A reply as a server sends it, however deep its arrays, is parsed to its type, text and elements,
-- from any place and whatever follows it; lines have no carriage return, and the lengths fit a
-- `long` and a string.
pub parse_response-wire :
    (max_size : ℕ) (s : Sent) (front rest : List ℕ)
    → IsSent max_size s
    → parse_response max_size (at front (wire s ++ rest)) ≡ ok (reply s, at (front ++ wire s) rest)
unfolding parse_response
parse_response-wire max_size s front rest good =
    with_fuel-ok (parse_loop max_size) (Steady-parse_loop max_size) (spend s) _
      (omega
        (arith, spend-wire s, length-append front (wire s ++ rest), length-append (wire s) rest))
      (parse_loop-wire max_size s (spend s) front rest (omega arith) good) (λ e. cc)

pub wire-nonempty : (s : Sent) → 0 < length (wire s)
wire-nonempty s = omega (arith, spend-wire s)

abbrev pub bulks : List (List ℕ) → SentAll
bulks [] = none_sent
bulks (arg ∷ args) = then_sent (bulk arg) (bulks args)

count-bulks : (args : List (List ℕ)) → count (bulks args) ≡ length args
count-bulks [] = refl
count-bulks (arg ∷ args) = ap suc (count-bulks args)

wire_all-bulks : (args : List (List ℕ)) → wire_all (bulks args) ≡ resp_encode_elements args
unfolding wire resp_encode_elements
wire_all-bulks [] = refl
wire_all-bulks (arg ∷ args) = ap (resp_encode arg ++◌) (wire_all-bulks args)

-- A command is the array of its arguments as bulk strings, as the protocol has it.
pub wire-create_cmd :
    (arg1 : List ℕ) (args : List (List ℕ))
    → wire (array (bulks (arg1 ∷ args))) ≡ create_cmd arg1 args
unfolding wire create_cmd resp_encode_elements
wire-create_cmd arg1 args =
    rw (count-bulks args, wire_all-bulks args)
      (ap (λ n. 42 ∷ (decimal n ++ (crlf ++ resp_encode_elements (arg1 ∷ args)))) (omega arith))
