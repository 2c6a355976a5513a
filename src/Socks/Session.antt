-- ===== src/Socks/Session.antt =====
-- A client that speaks the protocol, step by step and from the greeting to the first bytes relayed.
use universe.Base.{ℕ, ◌+◌, ◌*◌, true, List, [], ◌∷◌, ◌++◌, length, Option, none, some}
use universe.Base.Maps.{nat_key}
use universe.Session.Host.{Action}
use universe.Socks.{Socks, on_connect, on_message, on_remote_connect}

-- A whole greeting: its number of methods and the methods.
abbrev pub greeting_of : List ℕ → List ℕ
greeting_of methods = 5 ∷ length methods ∷ methods

-- A request to connect to a name.
abbrev pub request_of : ℕ → ℕ → List ℕ → ℕ → ℕ → List ℕ
request_of version reserved name high low =
    version ∷ 1 ∷ reserved ∷ 3 ∷ length name ∷ (name ++ (high ∷ low ∷ []))

module _ (connect : List ℕ → ℕ → Option ℕ) (client remote_fd version reserved : ℕ) (name : List ℕ)
    (high low : ℕ) where
  -- What the server does for a client from its first byte to its first relayed message, each part in
  -- a message of its own.
  unfoldable pub conversation : List ℕ → List ℕ → Socks → Option (List Action)
  conversation methods message s =
      elim (on_message connect client (greeting_of methods) (on_connect client s)) [
        | none ↦ none
        | some s1 ↦
            elim (on_message connect client (request_of version reserved name high low) s1) [
              | none ↦ none
              | some s2 ↦
                  elim (on_message connect client message
                    (on_remote_connect client (high * 256 + low) true s2)) [
                      | none ↦ none
                      | some s3 ↦ some s3.actions
                    ]
            ]
      ]
