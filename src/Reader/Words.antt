-- ===== src/Reader/Words.antt =====
-- Numbers in network byte order: `Utils::hton` of Utils.h, then the bytes of the object.
use universe.Base.{
  ℕ, zero, suc, ◌+◌, ◌*◌, ◌/◌, ◌%◌, ◌^◌, ◌<◌, ◌≡◌, refl, ◌∙◌, List, [], ◌∷◌, ◌++◌, length,
  length-append, arith, All, All-append,
}
use native.Mathlib.Nat.{pow-suc}
use universe.Reader.{ok, network_value, read_network, read_byte, read_size, ◌>>=◌}
use universe.Reader.Local.{at}
use universe.Reader.Scans.{read_size-at}

abbrev pub IsByte : ℕ → Type 0
IsByte b = b < 256

-- An unsigned value of that many bytes on the wire, most significant byte first.
unfoldable pub network_bytes : ℕ → ℕ → List ℕ
network_bytes zero n = []
network_bytes (suc size) n = network_bytes size (n / 256) ++ (n % 256 ∷ [])

pub length-network_bytes : (size n : ℕ) → length (network_bytes size n) ≡ size
unfolding network_bytes
length-network_bytes zero n = refl
length-network_bytes (suc size) n = omega (
  arith,
  length-append (network_bytes size (n / 256)) (n % 256 ∷ []),
  length-network_bytes size (n / 256),
)

pub network_bytes-IsByte : (size n : ℕ) → All IsByte (network_bytes size n)
unfolding network_bytes
network_bytes-IsByte zero n = tt
network_bytes-IsByte (suc size) n =
    All-append IsByte (network_bytes size (n / 256)) _ (network_bytes-IsByte size (n / 256))
      (omega arith, tt)

network_value-append :
    (acc : ℕ) (xs ys : List ℕ)
    → network_value acc (xs ++ ys) ≡ network_value (network_value acc xs) ys
unfolding network_value
network_value-append acc [] ys = refl
network_value-append acc (x ∷ xs) ys = network_value-append (acc * 256 + x) xs ys

quotient-lt : (size n : ℕ) → n < 256 ^ suc size → n / 256 < 256 ^ size
quotient-lt size n h = omega (arith, pow-suc 256 size)

-- The value that the bytes of a value stand for is that value, if it fits.
pub network_value-network_bytes :
    (size n : ℕ) → n < 256 ^ size → network_value 0 (network_bytes size n) ≡ n
unfolding network_bytes network_value
network_value-network_bytes zero n h = omega arith
network_value-network_bytes (suc size) n h =
    network_value-append 0 (network_bytes size (n / 256)) (n % 256 ∷ [])
    ∙ omega (arith, network_value-network_bytes size (n / 256) (quotient-lt size n h))

pub read_network-at :
    (size n : ℕ) (front rest : List ℕ)
    → n < 256 ^ size
    → read_network size (at front (network_bytes size n ++ rest))
      ≡ ok (n, at (front ++ network_bytes size n) rest)
unfolding read_network
read_network-at size n front rest h = rw (read, ◌>>=◌) (rw (network_value-network_bytes size n h))
  where
    read :
        read_size size (at front (network_bytes size n ++ rest))
        ≡ ok (network_bytes size n, at (front ++ network_bytes size n) rest)
    read = rw (length-network_bytes size n) at (read_size-at front (network_bytes size n) rest)

pub read_byte-at :
    (b : ℕ) (front rest : List ℕ)
    → read_byte (at front (b ∷ rest)) ≡ ok (b, at (front ++ (b ∷ [])) rest)
unfolding read_byte read_network network_value
read_byte-at b front rest = rw (read_size-at front (b ∷ []) rest, ◌>>=◌) (ground arith)
