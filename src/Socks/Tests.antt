-- ===== src/Socks/Tests.antt =====
-- The SOCKS server at concrete values.
use universe.Base.{ℕ, ◌≡◌, refl, List, [], ◌∷◌, true, Option, some, ltb→lt, leb→le}
use universe.Base.Maps.{nat_key}
use universe.StateMachine.Buffers.{need_buf}
use universe.Socks.{Socks, on_greeting}
use universe.Socks.Signed.{on_greeting-signed_size}

abbrev dial_nine : List ℕ → ℕ → Option ℕ
dial_nine name port = some 9

abbrev no_clients : Socks
no_clients = record { states = []; buf = []; url = []; c2r = []; r2c = []; actions = [] }

on_greeting-signed_size_example :
    on_greeting 4 (5 ∷ 200 ∷ 0 ∷ 1 ∷ []) no_clients
    ≡ record no_clients { buf = (need_buf 4 (5 ∷ 200 ∷ 0 ∷ 1 ∷ []) true no_clients.buf).1 }
on_greeting-signed_size_example =
    on_greeting-signed_size 4 200 (0 ∷ 1 ∷ []) no_clients (leb→le _ _ refl) (ltb→lt _ _ refl)
      (ltb→lt _ _ refl)
