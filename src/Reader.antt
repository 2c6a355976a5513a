-- ===== src/Reader.antt =====
-- StreamReader.h, StreamReader.hpp and StreamReader.cpp under ideas/procpp/mixin_handler: the reader
-- that every protocol parses with. A `string` is a list of bytes. An exception is a value: `ng` is
-- `ReaderException::NG` (the input is wrong), `ag` is `ReaderException::AG` (more input is needed).
pub mod Local
pub mod Scans
pub mod Words
pub mod Fuel
use universe.Base.{ℕ, zero, suc, ◌+◌, ◌*◌, ◌-◌, ◌≡◌, Bool, true, false, List, [], ◌∷◌, ◌++◌}
use universe.Base.{
  Option, none, some, ◌==◌, ltb, leb, ◌&&◌, ◌||◌, not, if◌then◌else◌, sub_size, length, take, drop,
}

pub data ReaderException : Type 0 where
  ng ag : ReaderException

-- What a parse comes to. `fatal` is an exception that no caller catches: the `std::length_error` of
-- a `resize` past `max_size()`. `spent` is no outcome of the source: a loop of the model ran out of fuel.
pub data Result {ℓ} (A : Type ℓ) : Type ℓ where
  ok : A → Result A
  throw : ReaderException → Result A
  fatal : Result A
  spent : Result A

-- `_str` and `_offset`.
pub record Reader : Type 0 where
  pub str : List ℕ
  pub offset : ℕ

abbrev pub R : Type 0 → Type 0
R A = Reader → Result (A × Reader)

abbrev pub pure : {A : Type 0} → A → R A
pure a r = ok (a, r)

infixl 5 ◌>>=◌ ◌>>◌
abbrev pub ◌>>=◌ : {A B : Type 0} → R A → (A → R B) → R B
◌>>=◌ m f r = elim (m r) [ ok (a, s) ↦ f a s | throw e ↦ throw e | fatal ↦ fatal | spent ↦ spent ]

abbrev pub ◌>>◌ : {B : Type 0} → R (Unit {0}) → R B → R B
m >> k = m >>= λ _. k

-- `_str.length() - _offset`, on `size_t`.
abbrev pub remaining : Reader → ℕ
remaining r = sub_size (length r.str) r.offset

-- `pread_size`, and `pread_plain` of a type of that size.
unfoldable pub pread_size : ℕ → R (List ℕ)
pread_size size r =
    if ltb (remaining r) size then throw ag else ok (take size (drop r.offset r.str), r)

-- `read_size`, and `read_plain` of a type of that size with the endian handling left to the caller.
unfoldable pub read_size : ℕ → R (List ℕ)
read_size size r =
    if ltb (remaining r) size
    then throw ag
    else ok (take size (drop r.offset r.str), record r { offset = r.offset + size })

-- The value of bytes in network byte order, most significant first.
unfoldable pub network_value : ℕ → List ℕ → ℕ
network_value acc [] = acc
network_value acc (b ∷ bs) = network_value (acc * 256 + b) bs

-- `read_plain<true>` of an unsigned type of that size.
unfoldable pub read_network : ℕ → R ℕ
read_network size = do bytes ← read_size size; pure (network_value 0 bytes)

-- `read_plain` of a `uint8_t` or a `char`.
unfoldable pub read_byte : R ℕ
read_byte = read_network 1

unfoldable pub pread_byte : R ℕ
pread_byte = do bytes ← pread_size 1; pure (network_value 0 bytes)

-- `s.find(ch) != string::npos`.
unfoldable pub find_char : List ℕ → ℕ → Bool
find_char [] ch = false
find_char (c ∷ cs) ch = c == ch || find_char cs ch

-- The loop of `read_until` over the bytes from `_offset` on: the offset of the first byte of `s`.
unfoldable pub until_loop : List ℕ → List ℕ → ℕ → Option ℕ
until_loop s [] i = none
until_loop s (ch ∷ rest) i = if not (find_char s ch) then until_loop s rest (i + 1) else some i

-- `result` is what the caller's string holds before the call, and keeps if nothing is read.
unfoldable pub read_until : List ℕ → List ℕ → Bool → R (List ℕ)
read_until s result eatup_final r = elim (until_loop s (drop r.offset r.str) r.offset) [
  | none ↦ throw ag
  | some i ↦ ok (
    if i == r.offset then result else take (i - r.offset) (drop r.offset r.str),
    record r { offset = if eatup_final then i + 1 else i },
  )
]

-- The loop of `read_up`: the offset of the first byte that is not one of `s`.
unfoldable pub up_loop : List ℕ → List ℕ → ℕ → Option ℕ
up_loop s [] i = none
up_loop s (ch ∷ rest) i = if find_char s ch then up_loop s rest (i + 1) else some i

unfoldable pub read_up : List ℕ → Bool → R (List ℕ)
read_up s nullable r = elim (up_loop s (drop r.offset r.str) r.offset) [
  | none ↦ throw ag
  | some i ↦
      if i == r.offset && not nullable
      then throw ng
      else ok (take (i - r.offset) (drop r.offset r.str), record r { offset = i })
]

unfoldable pub fail_if : Bool → R (Unit {0})
fail_if exp r = if exp then throw ng else ok (tt, r)

unfoldable pub fail_unless : Bool → R (Unit {0})
fail_unless exp r = if not exp then throw ng else ok (tt, r)

-- `end`, a reserved word elsewhere.
unfoldable pub at_end : Reader → Bool
at_end r = leb (length r.str) r.offset

-- `string::resize` and `string(n, 0)`: past `max_size()` the standard library throws `length_error`.
unfoldable pub resize : ℕ → ℕ → R (Unit {0})
resize max_size size r = if ltb max_size size then fatal else ok (tt, r)

-- A fresh reader on a message.
abbrev pub open_reader : List ℕ → Reader
open_reader str = record { str = str; offset = 0 }
