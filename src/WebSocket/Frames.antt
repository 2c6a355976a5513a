-- ===== src/WebSocket/Frames.antt =====
-- Frames as they stand on the wire, and what the message parser makes of them.
use universe.Base.{
  ℕ, zero, suc, ◌+◌, ◌*◌, ◌/◌, ◌%◌, ◌^◌, ◌<◌, ◌≤◌, ◌≡◌, refl, ap, ◌∙◌, ◌==◌, ltb, if◌then◌else◌,
  Bool-cases, inl, inr, List, [], ◌∷◌, ◌++◌, append_assoc, append-nil, length, length-append, arith,
  All,
}
use universe.Reader.{ok, read_size, read_byte, resize}
use universe.Reader.Local.{at, >>=-ok}
use universe.Reader.Scans.{read_size-at-length, resize_fits}
use universe.Reader.Words.{IsByte, network_bytes, read_network-at, read_byte-at}
use universe.Reader.Fuel.{with_fuel-ok}
use universe.WebSocket.{
  WebSocketMessage, unmask, payload_length, mask_key, read_frame, frames_loop, parse_message_loop,
  parse_message, frame,
}
use universe.WebSocket.Masks.{mask_with, unmask-mask_with, length-mask_with}
use universe.WebSocket.Framing.{after_first, Steady-parse_message_loop}

-- The second byte without the mask bit, and the bytes of the extended length.
abbrev short_length : ℕ → ℕ
short_length n = if ltb 0xffff n then 0x7f else if ltb 0x7d n then 0x7e else n

abbrev long_length : ℕ → List ℕ
long_length n =
    if ltb 0xffff n then network_bytes 8 n else if ltb 0x7d n then network_bytes 2 n else []

payload_length-at :
    (n : ℕ) (front rest : List ℕ)
    → n < 2 ^ 64
    → payload_length (short_length n) (at front (long_length n ++ rest))
      ≡ ok (n, at (front ++ long_length n) rest)
unfolding payload_length
payload_length-at n front rest h = elim (Bool-cases (ltb 0xffff n)) [
  | inl large ↦ rw large (read_network-at 8 n front rest h)
  | inr small ↦ elim (Bool-cases (ltb 0x7d n)) [
    | inl middle ↦ rw (small, middle) (read_network-at 2 n front rest (ground arith))
    | inr tiny ↦ rw (small, tiny, append-nil) (ground arith)
  ]
]

short_length-lt : (n : ℕ) → short_length n < 128
short_length-lt n = ground arith

-- A frame of a masking client, by RFC 6455: the mask bit, the key, and the masked payload.
abbrev pub client_frame : ℕ → ℕ → List ℕ → List ℕ → List ℕ
client_frame fin opcode key payload =
    (fin * 128 + opcode)
    ∷ (128 + short_length (length payload))
    ∷ (long_length (length payload) ++ (key ++ mask_with key payload))

module _ (max_size : ℕ) where
  -- A frame behind its first byte, for what the mask bit makes of the key and the payload.
  after_first-at :
      (b0 mask n : ℕ) (key payload front rest : List ℕ)
      → n < 2 ^ 64
      → length payload ≡ n
      → n ≤ max_size
      → ((front' rest' : List ℕ)
          → mask_key mask (at front' (key ++ rest')) ≡ ok (key, at (front' ++ key) rest'))
      → after_first max_size b0
          (at front ((mask * 128 + short_length n) ∷ (long_length n ++ (key ++ (payload ++ rest)))))
        ≡ ok (
          (b0 / 128, b0 % 16, if mask == 0 then payload else unmask 0 key payload),
          at (front ++ ((mask * 128 + short_length n) ∷ (long_length n ++ (key ++ payload)))) rest,
        )
  after_first-at b0 mask n key payload front rest fits size small keyed =
      >>=-ok read_byte _ (read_byte-at (mask * 128 + short_length n) front _)
      ∙ rw (low, high)
          (>>=-ok (payload_length (short_length n)) _
              (payload_length-at n _ (key ++ (payload ++ rest)) fits)
            ∙ >>=-ok (mask_key mask) _ (keyed _ (payload ++ rest))
            ∙ >>=-ok (resize max_size n) _ (resize_fits max_size n _ small)
            ∙ >>=-ok (read_size n) _ (read_size-at-length n _ payload rest size)
            ∙ ap
                (λ (t : List ℕ). ok (
                  (b0 / 128, b0 % 16, if mask == 0 then payload else unmask 0 key payload),
                  at t rest,
                ))
                (simp append_assoc))
    where
      low : (mask * 128 + short_length n) % 128 ≡ short_length n
      low = omega (arith, short_length-lt n)

      high : (mask * 128 + short_length n) / 128 ≡ mask
      high = omega (arith, short_length-lt n)

  unmasked :
      (front rest : List ℕ) → mask_key 0 (at front ([] ++ rest)) ≡ ok ([], at (front ++ []) rest)
  unfolding mask_key
  unmasked front rest = rw append-nil refl

  masked :
      (key : List ℕ)
      → length key ≡ 4
      → (front rest : List ℕ)
      → mask_key 1 (at front (key ++ rest)) ≡ ok (key, at (front ++ key) rest)
  unfolding mask_key
  masked key size front rest = read_size-at-length 4 front key rest size

  frame-eq :
      (fin opcode : ℕ) (payload : List ℕ)
      → fin < 2
      → opcode < 16
      → frame fin opcode payload
        ≡ (fin * 128 + opcode)
          ∷ (0 * 128 + short_length (length payload))
          ∷ (long_length (length payload) ++ ([] ++ payload))
  unfolding frame
  frame-eq fin opcode payload hf ho = ground arith

  first_byte_parts :
      (fin opcode : ℕ)
      → fin < 2
      → opcode < 16
      → ((fin * 128 + opcode) / 128 ≡ fin) × ((fin * 128 + opcode) % 16 ≡ opcode)
  first_byte_parts fin opcode hf ho = omega arith

  -- A frame that the server sends reads back as it was sent.
  pub read_frame-frame :
      (fin opcode : ℕ) (payload front rest : List ℕ)
      → fin < 2
      → opcode < 16
      → length payload < 2 ^ 64
      → length payload ≤ max_size
      → read_frame max_size (at front (frame fin opcode payload ++ rest))
        ≡ ok ((fin, opcode, payload), at (front ++ frame fin opcode payload) rest)
  unfolding read_frame
  read_frame-frame fin opcode payload front rest hf ho fits small =
      rw
        (
          frame-eq fin opcode payload hf ho,
          append_assoc (long_length (length payload)) payload rest,
        )
        (>>=-ok read_byte _ (read_byte-at (fin * 128 + opcode) front _)
          ∙ after_first-at (fin * 128 + opcode) 0 (length payload) [] payload _ rest fits refl small
              unmasked
          ∙ rw (first_byte_parts fin opcode hf ho).0 (
              rw (first_byte_parts fin opcode hf ho).1 (
                ap (λ (t : List ℕ). ok ((fin, opcode, payload), at t rest))
                  (append_assoc front ((fin * 128 + opcode) ∷ []) _))))

  -- A masked frame reads back as the payload that the client masked.
  pub read_frame-client_frame :
      (fin opcode : ℕ) (key payload front rest : List ℕ)
      → fin < 2
      → opcode < 16
      → length key ≡ 4
      → All IsByte key
      → All IsByte payload
      → length payload < 2 ^ 64
      → length payload ≤ max_size
      → read_frame max_size (at front (client_frame fin opcode key payload ++ rest))
        ≡ ok ((fin, opcode, payload), at (front ++ client_frame fin opcode key payload) rest)
  unfolding read_frame
  read_frame-client_frame fin opcode key payload front rest hf ho four key_bytes bytes fits small =
      rw
        (
          append_assoc (long_length (length payload)) (key ++ mask_with key payload) rest,
          append_assoc key (mask_with key payload) rest,
        )
        (>>=-ok read_byte _ (read_byte-at (fin * 128 + opcode) front _)
          ∙ after_first-at (fin * 128 + opcode) 1 (length payload) key (mask_with key payload) _
              rest fits (length-mask_with key payload four) small (masked key four)
          ∙ rw (unmask-mask_with key payload four key_bytes bytes) (
              rw (first_byte_parts fin opcode hf ho).0 (
                rw (first_byte_parts fin opcode hf ho).1 (
                  ap (λ (t : List ℕ). ok ((fin, opcode, payload), at t rest))
                    (append_assoc front ((fin * 128 + opcode) ∷ []) _)))))

-- What a frame carries on the wire: fin, opcode and payload, and the key where it is masked.
pub data Sent : Type 0 where
  plain : ℕ → List ℕ → Sent
  keyed : ℕ → List ℕ → List ℕ → Sent

abbrev pub bytes_of : ℕ → Sent → List ℕ
bytes_of fin (plain opcode payload) = frame fin opcode payload
bytes_of fin (keyed opcode key payload) = client_frame fin opcode key payload

abbrev pub opcode_of : Sent → ℕ
opcode_of (plain opcode payload) = opcode
opcode_of (keyed opcode key payload) = opcode

abbrev pub payload_of : Sent → List ℕ
payload_of (plain opcode payload) = payload
payload_of (keyed opcode key payload) = payload

abbrev pub Sendable : ℕ → Sent → Type 0
Sendable max_size (plain opcode payload) =
    (opcode < 16) × (length payload < 2 ^ 64) × (length payload ≤ max_size)
Sendable max_size (keyed opcode key payload) =
    (opcode < 16)
    × (length payload < 2 ^ 64)
    × (length payload ≤ max_size)
    × (length key ≡ 4)
    × All IsByte key
    × All IsByte payload

-- The frames of one message: all but the last with `fin` 0.
abbrev pub message_bytes : Sent → List Sent → List ℕ
message_bytes s [] = bytes_of 1 s
message_bytes s (t ∷ ts) = bytes_of 0 s ++ message_bytes t ts

abbrev pub message_payload : Sent → List Sent → List ℕ
message_payload s [] = payload_of s
message_payload s (t ∷ ts) = payload_of s ++ message_payload t ts

module _ (max_size : ℕ) where
  read_frame-Sent :
      (fin : ℕ) (s : Sent) (front rest : List ℕ)
      → fin < 2
      → Sendable max_size s
      → read_frame max_size (at front (bytes_of fin s ++ rest))
        ≡ ok ((fin, opcode_of s, payload_of s), at (front ++ bytes_of fin s) rest)
  read_frame-Sent fin (plain opcode payload) front rest hf h =
      read_frame-frame max_size fin opcode payload front rest hf h.0 h.1 h.2
  read_frame-Sent fin (keyed opcode key payload) front rest hf h =
      read_frame-client_frame max_size fin opcode key payload front rest hf h.0 h.3 h.4 h.5 h.1 h.2

  frames_loop-at :
      (fuel : ℕ) (m : WebSocketMessage) (s : Sent) (ss : List Sent) (front rest : List ℕ)
      → length ss < fuel
      → All (Sendable max_size) (s ∷ ss)
      → frames_loop max_size fuel m (at front (message_bytes s ss ++ rest))
        ≡ ok (
          record m { payload = m.payload ++ message_payload s ss },
          at (front ++ message_bytes s ss) rest,
        )
  unfolding frames_loop
  frames_loop-at zero m s ss front rest h good = absurd (omega arith)
  frames_loop-at (suc fuel) m s [] front rest h good =
      >>=-ok (read_frame max_size) _ (read_frame-Sent 1 s front rest (omega arith) good.0)
  frames_loop-at (suc fuel) m s (t ∷ ts) front rest h good =
      rw (append_assoc (bytes_of 0 s) (message_bytes t ts) rest) (
        >>=-ok (read_frame max_size) _
          (read_frame-Sent 0 s front (message_bytes t ts ++ rest) (omega arith) good.0)
        ∙ frames_loop-at fuel (record m { payload = m.payload ++ payload_of s }) t ts
            (front ++ bytes_of 0 s) rest (omega arith) good.1
        ∙ (λ i. ok (
          record m { payload = append_assoc m.payload (payload_of s) (message_payload t ts) i },
          at (append_assoc front (bytes_of 0 s) (message_bytes t ts) i) rest,
        )))

  bytes_of-pos : (fin : ℕ) (s : Sent) → 0 < length (bytes_of fin s)
  unfolding frame
  bytes_of-pos fin (plain opcode payload) = omega arith
  bytes_of-pos fin (keyed opcode key payload) = omega arith

  message_longer : (s : Sent) (ss : List Sent) → length ss < length (message_bytes s ss)
  message_longer s [] = bytes_of-pos 1 s
  message_longer s (t ∷ ts) = omega (
    arith,
    length-append (bytes_of 0 s) (message_bytes t ts),
    bytes_of-pos 0 s,
    message_longer t ts,
  )

  abbrev pub message_of : ℕ → Sent → List Sent → WebSocketMessage
  message_of client s ss = record {
    client = client;
    opcode = opcode_of s;
    payload = message_payload s ss;
  }

  parse_message_loop-at :
      (client fuel : ℕ) (s : Sent) (ss : List Sent) (front rest : List ℕ)
      → length ss < fuel
      → All (Sendable max_size) (s ∷ ss)
      → parse_message_loop max_size client fuel (at front (message_bytes s ss ++ rest))
        ≡ ok (message_of client s ss, at (front ++ message_bytes s ss) rest)
  unfolding parse_message_loop
  parse_message_loop-at client fuel s [] front rest h good =
      >>=-ok (read_frame max_size) _ (read_frame-Sent 1 s front rest (omega arith) good.0)
  parse_message_loop-at client fuel s (t ∷ ts) front rest h good =
      rw (append_assoc (bytes_of 0 s) (message_bytes t ts) rest) (
        >>=-ok (read_frame max_size) _
          (read_frame-Sent 0 s front (message_bytes t ts ++ rest) (omega arith) good.0)
        ∙ frames_loop-at fuel
            (record { client = client; opcode = opcode_of s; payload = payload_of s }) t ts
            (front ++ bytes_of 0 s) rest (omega arith) good.1
        ∙ ap (λ (u : List ℕ). ok (message_of client s (t ∷ ts), at u rest))
            (append_assoc front (bytes_of 0 s) (message_bytes t ts)))

  -- A message in any number of frames, masked or not, is put together again: the opcode of the first
  -- frame, the payloads in order, and the reader behind the last frame.
  pub parse_message-frames :
      (client : ℕ) (s : Sent) (ss : List Sent) (front rest : List ℕ)
      → All (Sendable max_size) (s ∷ ss)
      → parse_message max_size client (at front (message_bytes s ss ++ rest))
        ≡ ok (message_of client s ss, at (front ++ message_bytes s ss) rest)
  unfolding parse_message
  parse_message-frames client s ss front rest good =
      with_fuel-ok (parse_message_loop max_size client) (Steady-parse_message_loop max_size client)
        (suc (length ss)) (at front (message_bytes s ss ++ rest))
        (omega (
          arith,
          message_longer s ss,
          length-append front (message_bytes s ss ++ rest),
          length-append (message_bytes s ss) rest,
        ))
        (parse_message_loop-at client (suc (length ss)) s ss front rest (omega arith) good)
        (λ e. cc)
