-- ===== src/WebSocket/Framing.antt =====
-- The message parser fits the message loop, however many frames a message has.
use universe.Base.{
  ℕ, zero, suc, ◌%◌, ◌/◌, ◌==◌, refl, Bool, true, false, if◌then◌else◌, List, [], arith,
}
use universe.Reader.{R, pure, ◌>>=◌, ◌>>◌, read_size, read_byte, read_network, resize}
use universe.Reader.Local.{Local, starves, Local-pure, Local-bind, Local-then}
use universe.Reader.Scans.{Local-read_size, Local-read_byte, Local-read_network, Local-resize}
use universe.Reader.Fuel.{Steady, Steady-refl, Steady-bind, IsFraming-with_fuel}
use universe.Session.Framing.{
  IsFraming, Grows, Ends, Grows-bind, Ends-bind, Ends-pure, Grows-read_byte, Ends-read_size,
  Ends-read_byte, Ends-read_network, Ends-resize,
}
use universe.Session.Bounded.{
  EndsBelow, EndsBelow-zero, EndsBelow-Ends, EndsBelow-bind_after, EndsBelow-le,
}
use universe.WebSocket.{
  WebSocketMessage, unmask, payload_length, mask_key, read_frame, frames_loop, parse_message_loop,
  parse_message,
}

Local-payload_length : (n : ℕ) → Local (payload_length n)
unfolding payload_length
Local-payload_length n = go (n == 0x7e) (n == 0x7f)
  where
    go :
        (a b : Bool)
        → Local {A = ℕ} (elim a [
          | true ↦ read_network 2
          | false ↦ elim b [ true ↦ read_network 8 | false ↦ pure n ]
        ])
    go true b = Local-read_network 2
    go false true = Local-read_network 8
    go false false = Local-pure n

Ends-payload_length : (n : ℕ) → Ends (payload_length n)
unfolding payload_length
Ends-payload_length n = go (n == 0x7e) (n == 0x7f)
  where
    go :
        (a b : Bool)
        → Ends {A = ℕ} (elim a [
          | true ↦ read_network 2
          | false ↦ elim b [ true ↦ read_network 8 | false ↦ pure n ]
        ])
    go true b = Ends-read_network 2
    go false true = Ends-read_network 8
    go false false = Ends-pure n

Local-mask_key : (mask : ℕ) → Local (mask_key mask)
unfolding mask_key
Local-mask_key mask = go (mask == 0)
  where
    go : (a : Bool) → Local {A = List ℕ} (elim a [ true ↦ pure [] | false ↦ read_size 4 ])
    go true = Local-pure []
    go false = Local-read_size 4

Ends-mask_key : (mask : ℕ) → Ends (mask_key mask)
unfolding mask_key
Ends-mask_key mask = go (mask == 0)
  where
    go : (a : Bool) → Ends {A = List ℕ} (elim a [ true ↦ pure [] | false ↦ read_size 4 ])
    go true = Ends-pure []
    go false = Ends-read_size 4

-- A frame behind its first byte.
abbrev pub after_first : ℕ → ℕ → R (ℕ × ℕ × List ℕ)
after_first max_size first_byte = do
  second_byte ← read_byte
  payload_len ← payload_length (second_byte % 128)
  mask_value ← mask_key (second_byte / 128)
  resize max_size payload_len
  payload ← read_size payload_len
  pure (
    first_byte / 128,
    first_byte % 16,
    if second_byte / 128 == 0 then payload else unmask 0 mask_value payload,
  )

module _ (max_size : ℕ) where
  Local-after_first : (b : ℕ) → Local (after_first max_size b)
  Local-after_first b = Local-bind read_byte _ Local-read_byte (λ c.
      Local-bind (payload_length (c % 128)) _ (Local-payload_length (c % 128)) (λ n.
        Local-bind (mask_key (c / 128)) _ (Local-mask_key (c / 128)) (λ k.
          Local-then (resize max_size n) _ (Local-resize max_size n)
            (Local-bind (read_size n) _ (Local-read_size n) (λ p. Local-pure _)))))

  Local-read_frame : Local (read_frame max_size)
  unfolding read_frame
  Local-read_frame = Local-bind read_byte _ Local-read_byte Local-after_first

  Grows-read_frame : Grows (read_frame max_size)
  unfolding read_frame
  Grows-read_frame = Grows-bind read_byte _ Grows-read_byte Local-read_byte Local-after_first

  Ends-read_frame : Ends (read_frame max_size)
  unfolding read_frame
  Ends-read_frame = Ends-bind read_byte _ Ends-read_byte Local-read_byte (λ b.
      Ends-bind read_byte _ Ends-read_byte Local-read_byte (λ c.
        Ends-bind (payload_length (c % 128)) _ (Ends-payload_length (c % 128))
          (Local-payload_length (c % 128))
          (λ n.
            Ends-bind (mask_key (c / 128)) _ (Ends-mask_key (c / 128)) (Local-mask_key (c / 128))
              (λ k.
                Ends-bind (resize max_size n) _ (Ends-resize max_size n) (Local-resize max_size n)
                  (λ _.
                    Ends-bind (read_size n) _ (Ends-read_size n) (Local-read_size n)
                      (λ p. Ends-pure _))))))

  -- What a round does behind its frame, for `rest` what it does where more frames follow.
  abbrev branch :
      (WebSocketMessage → R WebSocketMessage) → WebSocketMessage → Bool → R WebSocketMessage
  branch rest m last = elim last [ true ↦ rest m | false ↦ pure m ]

  Local-branch :
      (rest : WebSocketMessage → R WebSocketMessage)
      → ((m : WebSocketMessage) → Local (rest m))
      → (m : WebSocketMessage) (b : Bool) → Local (branch rest m b)
  Local-branch rest h m true = h m
  Local-branch rest h m false = Local-pure m

  Steady-branch :
      (rest rest' : WebSocketMessage → R WebSocketMessage)
      → ((m : WebSocketMessage) → Steady (rest m) (rest' m))
      → (m : WebSocketMessage) (b : Bool) → Steady (branch rest m b) (branch rest' m b)
  Steady-branch rest rest' h m true = h m
  Steady-branch rest rest' h m false = Steady-refl _

  EndsBelow-branch :
      (n : ℕ) (rest : WebSocketMessage → R WebSocketMessage)
      → ((m : WebSocketMessage) → EndsBelow n (rest m))
      → (m : WebSocketMessage) (b : Bool) → EndsBelow n (branch rest m b)
  EndsBelow-branch n rest h m true = h m
  EndsBelow-branch n rest h m false = EndsBelow-Ends n _ (Ends-pure m)

  Local-frames_loop : (fuel : ℕ) (m : WebSocketMessage) → Local (frames_loop max_size fuel m)
  unfolding frames_loop
  Local-frames_loop zero m = unfold Local in λ xs. starves (λ front more. refl)
  Local-frames_loop (suc fuel) m =
      Local-bind (read_frame max_size) _ Local-read_frame (λ f.
        Local-branch (frames_loop max_size fuel) (λ m'. Local-frames_loop fuel m') _ (f.0 == 0))

  Steady-frames_loop :
      (fuel : ℕ) (m : WebSocketMessage)
      → Steady (frames_loop max_size fuel m) (frames_loop max_size (suc fuel) m)
  unfolding frames_loop
  Steady-frames_loop zero m = unfold Steady in λ r h. absurd (h refl)
  Steady-frames_loop (suc fuel) m = Steady-bind (read_frame max_size) _ _ (λ f.
      Steady-branch (frames_loop max_size fuel) (frames_loop max_size (suc fuel))
        (λ m'. Steady-frames_loop fuel m') _ (f.0 == 0))

  -- Each frame takes a byte at least.
  EndsBelow-frames_loop :
      (fuel : ℕ) (m : WebSocketMessage) → EndsBelow fuel (frames_loop max_size fuel m)
  unfolding frames_loop
  EndsBelow-frames_loop zero m = EndsBelow-zero _
  EndsBelow-frames_loop (suc fuel) m =
      EndsBelow-bind_after (read_frame max_size) _ Local-read_frame fuel Grows-read_frame
        (EndsBelow-Ends (suc fuel) _ Ends-read_frame)
        (λ f.
          EndsBelow-branch fuel (frames_loop max_size fuel) (λ m'. EndsBelow-frames_loop fuel m') _
            (f.0 == 0))

  module _ (client : ℕ) where
    Local-parse_message_loop : (fuel : ℕ) → Local (parse_message_loop max_size client fuel)
    unfolding parse_message_loop
    Local-parse_message_loop fuel =
        Local-bind (read_frame max_size) _ Local-read_frame
          (λ f. Local-branch (frames_loop max_size fuel) (Local-frames_loop fuel) _ (f.0 == 0))

    Grows-parse_message_loop : (fuel : ℕ) → Grows (parse_message_loop max_size client fuel)
    unfolding parse_message_loop
    Grows-parse_message_loop fuel =
        Grows-bind (read_frame max_size) _ Grows-read_frame Local-read_frame
          (λ f. Local-branch (frames_loop max_size fuel) (Local-frames_loop fuel) _ (f.0 == 0))

    pub Steady-parse_message_loop :
        (fuel : ℕ)
        → Steady
            (parse_message_loop max_size client fuel)
            (parse_message_loop max_size client (suc fuel))
    unfolding parse_message_loop
    Steady-parse_message_loop fuel = Steady-bind (read_frame max_size) _ _ (λ f.
        Steady-branch (frames_loop max_size fuel) (frames_loop max_size (suc fuel))
          (Steady-frames_loop fuel) _ (f.0 == 0))

    EndsBelow-parse_message_loop :
        (fuel : ℕ) → EndsBelow fuel (parse_message_loop max_size client fuel)
    unfolding parse_message_loop
    EndsBelow-parse_message_loop zero = EndsBelow-zero _
    EndsBelow-parse_message_loop (suc fuel) =
        EndsBelow-bind_after (read_frame max_size) _ Local-read_frame fuel Grows-read_frame
          (EndsBelow-Ends (suc fuel) _ Ends-read_frame)
          (λ f.
            EndsBelow-branch fuel (frames_loop max_size (suc fuel))
              (λ m'.
                EndsBelow-le fuel (suc fuel) _ (omega arith) (EndsBelow-frames_loop (suc fuel) m'))
              _ (f.0 == 0))

pub parse_message-IsFraming : (max_size client : ℕ) → IsFraming (parse_message max_size client)
unfolding parse_message
parse_message-IsFraming max_size client =
    IsFraming-with_fuel (parse_message_loop max_size client)
      (Steady-parse_message_loop max_size client) (Local-parse_message_loop max_size client)
      (EndsBelow-parse_message_loop max_size client) (Grows-parse_message_loop max_size client)
