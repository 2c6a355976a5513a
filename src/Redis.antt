-- ===== src/Redis.antt =====
-- Protocol/Client/Redis.cpp, Redis.h and Redis.hpp: the client of RESP, the protocol of Redis. Commands
-- are arrays of bulk strings, replies may hold replies, and the callbacks of a connection are a queue.
pub mod Wire
pub mod Parsing
pub mod Endings
pub mod Queue
mod Tests
use universe.Base.{
  ℕ, zero, suc, ◌+◌, ltb, not, if◌then◌else◌, List, [], ◌∷◌, ◌++◌, length, drop, Option, none, some,
  codes, true, ◌==◌, Bool, ◌||◌, map, flatten,
}
use universe.Base.Maps.{lookup, insert, erase, nat_key}
use universe.Base.Text.{ℤ, pos, negsuc, decimal, decimal_int, atol, bytes_eq}
use universe.Reader.{
  Reader, R, Result, spent, pure, ◌>>=◌, ◌>>◌, read_byte, read_size, read_until, fail_if, resize,
  open_reader,
}
use universe.Reader.Fuel.{with_fuel}
use universe.Session.{
  Ending, finished, returned, again, refused, crashed, exhausted, serve_loop, Exit, stay, leave,
}
use universe.StateMachine.Buffers.{Buffers, append_buf, need_buf, erase_buf}

-- `RedisReply` holds a vector of itself.
mutual
  pub data RedisReply : Type 0 where
    reply_of : ℕ → List ℕ → Replies → RedisReply

  pub data Replies : Type 0 where
    no_replies : Replies
    one_more : RedisReply → Replies → Replies

abbrev pub crlf : List ℕ
crlf = 13 ∷ 10 ∷ []

-- `read_until("\r", _, true)` and the `\n` behind it.
unfoldable pub read_line : R (List ℕ)
read_line = do
  line ← read_until (13 ∷ []) [] true
  next_byte ← read_byte
  fail_if (not (next_byte == 10))
  pure line

unfoldable pub read_crlf : R (Unit {0})
read_crlf = do bytes ← read_size 2; fail_if (not (bytes_eq bytes crlf))

abbrev pub is_plain : ℕ → Bool
is_plain c = c == 43 || (c == 45 || c == 58)

-- The elements that an array announces; one of a length below 1 has none.
abbrev pub element_count : ℤ → ℕ
element_count (pos n) = n
element_count (negsuc n) = 0

-- `max_size` is `string::max_size()`, past which `r.reply.resize` throws.
module _ (max_size : ℕ) where
  unfoldable pub read_bulk : ℤ → R RedisReply
  unfolding read_crlf
  read_bulk (negsuc n) = pure (reply_of 32 [] no_replies)
  read_bulk (pos n) = do
    resize max_size n
    bytes ← read_size n
    read_crlf
    pure (reply_of 36 bytes no_replies)

  unfoldable mutual
    unfolding read_line read_bulk

    -- The switch on the first byte. A byte that is none of them is a reply of its own.
    pub parse_loop : ℕ → R RedisReply
    parse_loop zero = λ r. spent
    parse_loop (suc fuel) = do
      next_byte ← read_byte
      if is_plain next_byte
          then (do line ← read_line; pure (reply_of next_byte line no_replies))
          else if next_byte == 36
          then (do line ← read_line; read_bulk (atol line))
          else if next_byte == 42
          then (do
            line ← read_line
            elements ← parse_elements fuel (element_count (atol line))
            pure (reply_of 42 [] elements))
          else pure (reply_of next_byte [] no_replies)

    pub parse_elements : ℕ → ℕ → R Replies
    parse_elements fuel zero = pure no_replies
    parse_elements zero (suc n) = λ r. spent
    parse_elements (suc fuel) (suc n) = do
      element ← parse_loop fuel
      elements ← parse_elements fuel n
      pure (one_more element elements)

  -- A reply of some bytes takes at most that fuel.
  unfoldable pub parse_response : R RedisReply
  unfolding parse_loop with_fuel
  parse_response = with_fuel parse_loop

-- `resp_encode` of a string and of a `char*`, of a null pointer, and of a `uint64_t`.
unfoldable pub resp_encode : List ℕ → List ℕ
resp_encode bulk_string = 36 ∷ (decimal (length bulk_string) ++ (crlf ++ (bulk_string ++ crlf)))

unfoldable pub resp_encode_null : List ℕ
resp_encode_null = codes "$-1" ++ crlf

unfoldable pub resp_encode_number : ℕ → List ℕ
resp_encode_number n = 58 ∷ (decimal n ++ crlf)

unfoldable pub resp_encode_elements : List (List ℕ) → List ℕ
unfolding resp_encode
resp_encode_elements [] = []
resp_encode_elements (arg ∷ args) = resp_encode arg ++ resp_encode_elements args

-- `create_cmd` takes at least one argument.
unfoldable pub create_cmd : List ℕ → List (List ℕ) → List ℕ
unfolding resp_encode_elements
create_cmd arg1 args =
    42 ∷ (decimal (1 + length args) ++ (crlf ++ resp_encode_elements (arg1 ∷ args)))

unfoldable pub packet_get : List ℕ → List ℕ
unfolding create_cmd
packet_get key = create_cmd (codes "GET") (key ∷ [])

pub data Nxxx : Type 0 where
  nx xx : Nxxx

abbrev pub enum_string : Nxxx → List ℕ
enum_string nx = codes "NX"
enum_string xx = codes "XX"

unfoldable pub element_expire : Option ℤ → Option ℤ → List ℕ
element_expire p_ex (some px) = codes "PX " ++ decimal_int px
element_expire (some ex) none = codes "EX " ++ decimal_int ex
element_expire none none = []

abbrev pub element_nxxx : Option Nxxx → List ℕ
element_nxxx (some nxxx) = enum_string nxxx
element_nxxx none = []

-- An element that is empty is left out.
abbrev pub unless_empty : List ℕ → List (List ℕ)
unless_empty [] = []
unless_empty (c ∷ cs) = (c ∷ cs) ∷ []

unfoldable pub packet_set : List ℕ → List ℕ → Option ℤ → Option ℤ → Option Nxxx → List ℕ
unfolding create_cmd element_expire
packet_set key value p_ex p_px p_nxxx =
    create_cmd (codes "SET") (
      key ∷ value ∷ (unless_empty (element_expire p_ex p_px) ++ unless_empty (element_nxxx p_nxxx)))

-- A callback is known by a number and waits under the number of its request. `replied` are the
-- callbacks that were called and what with, each followed by the notice to who waits for the request,
-- and `closed` the connections given up, the newest last.
pub record Redis : Type 0 where
  pub buf : Buffers
  pub callbacks : List (ℕ × List (ℕ × ℕ))
  pub replied : List (ℕ × ℕ × RedisReply)
  pub closed : List ℕ

-- `crashed` where an exception is left uncaught; `stuck` is no state of the source.
pub data Outcome : Type 0 where
  running : Redis → Outcome
  dead stuck : Outcome

-- The loop's body behind the parse: it breaks where no callback waits.
unfoldable pub reply_to : ℕ → RedisReply → Redis → Redis × Exit
reply_to client r s = elim (lookup client s.callbacks) [
  | none ↦ (s, leave)
  | some [] ↦ (s, leave)
  | some ((request_id, cb) ∷ cbs) ↦ (
    record s {
      callbacks = insert client cbs s.callbacks;
      replied = s.replied ++ ((request_id, cb, r) ∷ []);
    },
    stay,
  )
]

unfoldable pub on_close : ℕ → Redis → Redis
on_close client s = record s { buf = erase_buf client s.buf; callbacks = erase client s.callbacks }

-- `_scheduler.close` calls `on_close`.
unfoldable pub catch_block : ℕ → List ℕ → Ending Redis → Outcome
unfolding on_close
catch_block client message (finished s) = running s
catch_block client message (returned s) = running s
catch_block client message (again offset s) =
    let rest = if ltb 0 offset then drop offset message else message in
    running (record s { buf = (need_buf client rest true s.buf).1 })
catch_block client message (refused s) =
    running (on_close client (record s { closed = s.closed ++ (client ∷ []) }))
catch_block client message (crashed s) = dead
catch_block client message exhausted = stuck

unfoldable pub on_message : ℕ → ℕ → List ℕ → Redis → Outcome
unfolding reply_to catch_block parse_response
on_message max_size client message s =
    let (found, whole, buf) = append_buf client message s.buf in
    catch_block client whole (
      serve_loop (parse_response max_size) (reply_to client) (suc (length whole))
        (open_reader whole) 0 (record s { buf = buf }))

unfoldable pub add_callback : ℕ → ℕ → ℕ → Redis → Redis
add_callback request_id fd callback s = elim (lookup fd s.callbacks) [
  | none ↦ record s { callbacks = insert fd ((request_id, callback) ∷ []) s.callbacks }
  | some cbs ↦ record s { callbacks = insert fd (cbs ++ ((request_id, callback) ∷ [])) s.callbacks }
]
