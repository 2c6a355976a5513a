-- ===== src/Soa/Packets.antt =====
-- What the parser makes of whole packets, of pieces and of false lengths.
use universe.Base.{ℕ, ◌<◌, ◌≤◌, ◌^◌, ◌≡◌, ap, ◌∙◌, List, ◌++◌, length, append_assoc, arith}
use universe.Reader.{R, ok, throw, fatal, ag, pure, ◌>>=◌, ◌>>◌, read_size, read_network, resize}
use universe.Reader.Local.{at, Local, Local-pure, Local-bind, Local-then, >>=-ok, >>=-ag, >>=-fatal}
use universe.Reader.Scans.{
  resize_fits, resize_past, read_size-at, read_size_short, Local-read_size, Local-read_network,
  Local-resize,
}
use universe.Reader.Words.{network_bytes, read_network-at}
use universe.Session.Framing.{
  IsFraming, Ends, Grows-bind, Ends-bind, Ends-pure, Grows-read_size, Ends-read_size,
  Ends-read_network, Ends-resize,
}
use universe.Soa.{SoaRequest, uuid_size, to_string, parse_request}

-- The parser after the uuid and the length.
abbrev json_part : ℕ → ℕ → List ℕ → ℕ → R SoaRequest
json_part max_size client uuid json_size = do
  resize max_size json_size
  json ← read_size json_size
  pure (record { client = client; uuid = uuid; json = json })

after_header :
    (max_size client n : ℕ) (uuid front rest : List ℕ)
    → length uuid ≡ uuid_size
    → n < 2 ^ 64
    → parse_request max_size client (at front (uuid ++ (network_bytes 8 n ++ rest)))
      ≡ json_part max_size client uuid n (at ((front ++ uuid) ++ network_bytes 8 n) rest)
unfolding parse_request
after_header max_size client n uuid front rest full fits =
    >>=-ok (read_size uuid_size) _
      (rw full at (read_size-at front uuid (network_bytes 8 n ++ rest)))
    ∙ >>=-ok (read_network 8) _ (read_network-at 8 n (front ++ uuid) rest fits)

-- The parser reads back the packet that `to_string` wrote, and stands behind it, whatever follows.
pub parse_request-to_string :
    (max_size client : ℕ) (uuid json front rest : List ℕ)
    → length uuid ≡ uuid_size
    → length json < 2 ^ 64
    → length json ≤ max_size
    → parse_request max_size client (at front (to_string uuid json ++ rest))
      ≡ ok (
        record { client = client; uuid = uuid; json = json },
        at (front ++ to_string uuid json) rest,
      )
unfolding to_string
parse_request-to_string max_size client uuid json front rest full fits small =
    rw
      (
        append_assoc uuid (network_bytes 8 (length json) ++ json) rest,
        append_assoc (network_bytes 8 (length json)) json rest,
      )
      (after_header max_size client (length json) uuid front (json ++ rest) full fits
        ∙ >>=-ok (resize max_size (length json)) _ (resize_fits max_size (length json) _ small)
        ∙ >>=-ok (read_size (length json)) _ (read_size-at _ json rest)
        ∙ ap (λ (t : List ℕ). ok (record { client = client; uuid = uuid; json = json }, at t rest))
            regroup)
  where
    regroup :
        ((front ++ uuid) ++ network_bytes 8 (length json)) ++ json
        ≡ front ++ (uuid ++ (network_bytes 8 (length json) ++ json))
    regroup = simp append_assoc

-- A packet that is not all there yet makes the parser ask for more.
pub parse_request_short :
    (max_size client n : ℕ) (uuid front part : List ℕ)
    → length uuid ≡ uuid_size
    → n < 2 ^ 64
    → n ≤ max_size
    → length part < n
    → parse_request max_size client (at front (uuid ++ (network_bytes 8 n ++ part))) ≡ throw ag
parse_request_short max_size client n uuid front part full fits small short =
    after_header max_size client n uuid front part full fits
    ∙ >>=-ok (resize max_size n) _ (resize_fits max_size n _ small)
    ∙ >>=-ag (read_size n) _ (read_size_short n _ part short)

-- A length field above `max_size` ends the process, although the packet is 24 bytes and no more.
pub parse_request_fatal :
    (max_size client n : ℕ) (uuid front part : List ℕ)
    → length uuid ≡ uuid_size
    → n < 2 ^ 64
    → max_size < n
    → parse_request max_size client (at front (uuid ++ (network_bytes 8 n ++ part))) ≡ fatal
parse_request_fatal max_size client n uuid front part full fits big =
    after_header max_size client n uuid front part full fits
    ∙ >>=-fatal (resize max_size n) _ (resize_past max_size n _ big)

pub parse_request-IsFraming : (max_size client : ℕ) → IsFraming (parse_request max_size client)
unfolding parse_request
parse_request-IsFraming max_size client = record {
  local =
      Local-bind (read_size uuid_size) _ (Local-read_size uuid_size) (λ uuid.
        Local-bind (read_network 8) _ (Local-read_network 8) (λ n. Local-json_part uuid n));
  grows =
      Grows-bind (read_size uuid_size) _ (Grows-read_size uuid_size (omega arith))
        (Local-read_size uuid_size)
        (λ uuid.
          Local-bind (read_network 8) _ (Local-read_network 8) (λ n. Local-json_part uuid n));
  ends =
      Ends-bind (read_size uuid_size) _ (Ends-read_size uuid_size) (Local-read_size uuid_size)
        (λ uuid.
          Ends-bind (read_network 8) _ (Ends-read_network 8) (Local-read_network 8)
            (λ n. Ends-json_part uuid n));
}
  where
    Local-json_part : (uuid : List ℕ) (n : ℕ) → Local (json_part max_size client uuid n)
    Local-json_part uuid n =
        Local-then (resize max_size n) _ (Local-resize max_size n)
          (Local-bind (read_size n) _ (Local-read_size n) (λ json. Local-pure _))

    Ends-json_part : (uuid : List ℕ) (n : ℕ) → Ends (json_part max_size client uuid n)
    Ends-json_part uuid n =
        Ends-bind (resize max_size n) _ (Ends-resize max_size n) (Local-resize max_size n) (λ _.
          Ends-bind (read_size n) _ (Ends-read_size n) (Local-read_size n) (λ json. Ends-pure _))
