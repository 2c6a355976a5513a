-- ===== src/SoaClient/Responses.antt =====
-- Responses reach their own callbacks, in whatever order they come.
use universe.Base.{
  ℕ, zero, suc, ◌≤◌, ◌<◌, ◌^◌, ◌≡◌, refl, ap, ◌∙◌, false, List, [], ◌∷◌, ◌++◌, append_assoc, length,
  length-append, arith, All, some, none, leb,
}
use universe.Base.Maps.{lookup, insert, erase, nat_key, lookup-insert_self, lookup-erase}
use universe.Base.Text.{bytes_key, bytes_eq}
use universe.Session.Branches.{at_end_lem}
use universe.Reader.{ok, read_size, read_network, resize}
use universe.Reader.Local.{at, >>=-ok}
use universe.Reader.Scans.{resize_fits, read_size-at}
use universe.Reader.Words.{network_bytes, read_network-at}
use universe.Session.{finished, serve_loop, stay}
use universe.Session.Steps.{serve_loop-last, serve_loop-next}
use universe.StateMachine.Buffers.{append_buf-none}
use universe.Soa.{uuid_size, to_string, parse_response}
use universe.SoaClient.{SoaClient, running, reply_to, on_message, catch_block}

-- The client reads the packet that the server's `to_string` wrote, whatever follows.
pub parse_response-to_string :
    (max_size : ℕ) (uuid json front rest : List ℕ)
    → length uuid ≡ uuid_size
    → length json < 2 ^ 64
    → length json ≤ max_size
    → parse_response max_size (at front (to_string uuid json ++ rest))
      ≡ ok (record { uuid = uuid; json = json }, at (front ++ to_string uuid json) rest)
unfolding to_string parse_response
parse_response-to_string max_size uuid json front rest full fits small =
    rw
      (
        append_assoc uuid (network_bytes 8 (length json) ++ json) rest,
        append_assoc (network_bytes 8 (length json)) json rest,
      )
      (>>=-ok (read_size uuid_size) _
          (rw full at (read_size-at front uuid (network_bytes 8 (length json) ++ (json ++ rest))))
        ∙ >>=-ok (read_network 8) _
            (read_network-at 8 (length json) (front ++ uuid) (json ++ rest) fits)
        ∙ >>=-ok (resize max_size (length json)) _ (resize_fits max_size (length json) _ small)
        ∙ >>=-ok (read_size (length json)) _ (read_size-at _ json rest)
        ∙ ap (λ (t : List ℕ). ok (record { uuid = uuid; json = json }, at t rest)) regroup)
  where
    regroup :
        ((front ++ uuid) ++ network_bytes 8 (length json)) ++ json
        ≡ front ++ (uuid ++ (network_bytes 8 (length json) ++ json))
    regroup = simp append_assoc

-- A response that is awaited: its uuid, the callback and the json.
pub record Awaited : Type 0 where
  pub uuid : List ℕ
  pub cb : ℕ
  pub json : List ℕ

abbrev pub packets : List Awaited → List ℕ
packets [] = []
packets (a ∷ later) = to_string a.uuid a.json ++ packets later

abbrev pub calls : List Awaited → List (ℕ × List ℕ)
calls [] = []
calls (a ∷ later) = (a.cb, a.json) ∷ calls later

-- The uuid has its size, the json can be sent, and `cbs` has the callback.
pub record IsAwaited (max_size : ℕ) (cbs : List (List ℕ × ℕ)) (a : Awaited) : Type 0 where
  pub full : length a.uuid ≡ uuid_size
  pub fits : length a.json < 2 ^ 64
  pub small : length a.json ≤ max_size
  pub waits : lookup a.uuid cbs ≡ some a.cb

abbrev pub AreDistinct : List Awaited → Type 0
AreDistinct [] = Unit
AreDistinct (a ∷ later) = All (λ b. bytes_eq a.uuid b.uuid ≡ false) later × AreDistinct later

-- `more` was called back, and the buffers and the connections given up are as before.
pub record IsAnswered (client : ℕ) (more : List (ℕ × List ℕ)) (s s' : SoaClient) : Type 0 where
  pub called : s'.called ≡ s.called ++ more
  pub buf_kept : s'.buf ≡ s.buf
  pub closed_kept : s'.closed ≡ s.closed

-- Where another uuid is answered, the others still wait.
still_awaited :
    (max_size : ℕ) (cbs : List (List ℕ × ℕ)) (a : Awaited) (later : List Awaited)
    → All (λ b. bytes_eq a.uuid b.uuid ≡ false) later
    → All (IsAwaited max_size cbs) later
    → All (IsAwaited max_size (erase a.uuid cbs)) later
still_awaited max_size cbs a [] apart good = tt
still_awaited max_size cbs a (b ∷ later) apart good = (
  record {
    full = good.0.full;
    fits = good.0.fits;
    small = good.0.small;
    waits = lookup-erase a.uuid b.uuid cbs ∙ rw apart.0 good.0.waits;
  },
  still_awaited max_size cbs a later apart.1 good.1,
)

packets-nonempty :
    (uuid json rest : List ℕ)
    → length uuid ≡ uuid_size
    → leb (length (to_string uuid json ++ rest)) 0 ≡ false
unfolding to_string
packets-nonempty uuid json rest full = ground (
  arith,
  length-append (uuid ++ (network_bytes 8 (length json) ++ json)) rest,
  length-append uuid (network_bytes 8 (length json) ++ json),
)

length-packets :
    (max_size : ℕ) (cbs : List (List ℕ × ℕ)) (later : List Awaited)
    → All (IsAwaited max_size cbs) later
    → length later ≤ length (packets later)
unfolding to_string
length-packets max_size cbs [] good = omega arith
length-packets max_size cbs (a ∷ later) good = omega (
  arith,
  good.0.full,
  length-packets max_size cbs later good.1,
  length-append (to_string a.uuid a.json) (packets later),
  length-append a.uuid (network_bytes 8 (length a.json) ++ a.json),
)

module _ (max_size client : ℕ) where
  abbrev next : Awaited → List (List ℕ × ℕ) → SoaClient → SoaClient
  next a cbs s = record s {
    callbacks = insert client (erase a.uuid cbs) s.callbacks;
    called = s.called ++ ((a.cb, a.json) ∷ []);
    notified = s.notified ++ (a.uuid ∷ []);
  }

  reply_to-next :
      (a : Awaited) (cbs : List (List ℕ × ℕ)) (s : SoaClient)
      → lookup client s.callbacks ≡ some cbs
      → lookup a.uuid cbs ≡ some a.cb
      → reply_to client (record { uuid = a.uuid; json = a.json }) s ≡ (next a cbs s, stay)
  unfolding reply_to
  reply_to-next a cbs s e waits = rw (e, reply_to) (rw (waits, reply_to) refl)

  serve_loop-packets :
      (a : Awaited) (later : List Awaited) (fuel : ℕ) (front : List ℕ) (offset : ℕ)
      (cbs : List (List ℕ × ℕ)) (s : SoaClient)
      → All (IsAwaited max_size cbs) (a ∷ later)
      → AreDistinct (a ∷ later)
      → lookup client s.callbacks ≡ some cbs
      → length later < fuel
      → (s' : SoaClient) × (serve_loop
            (parse_response max_size)
            (reply_to client)
            fuel
            (at front (packets (a ∷ later)))
            offset
            s
          ≡ finished s')
        × IsAnswered client (calls (a ∷ later)) s s'
  serve_loop-packets a later zero front offset cbs s good apart e h = absurd (omega arith)
  serve_loop-packets a [] (suc fuel) front offset cbs s good apart e h = (
    next a cbs s,
    serve_loop-last (parse_response max_size) (reply_to client) fuel offset _ _ _ s _
        (parse_response-to_string max_size a.uuid a.json front [] good.0.full good.0.fits
          good.0.small)
        (reply_to-next a cbs s e good.0.waits) (at_end_lem (front ++ to_string a.uuid a.json) []),
    record { called = refl; buf_kept = refl; closed_kept = refl },
  )
  serve_loop-packets a (b ∷ later) (suc fuel) front offset cbs s good apart e h =
      let passed = front ++ to_string a.uuid a.json in
      let (s', run, answered) =
        serve_loop-packets b later fuel passed (length passed) (erase a.uuid cbs) (next a cbs s)
          (still_awaited max_size cbs a (b ∷ later) apart.0 good.1) apart.1
          (lookup-insert_self client (erase a.uuid cbs) s.callbacks) (omega arith) in
      (
        s',
        serve_loop-next (parse_response max_size) (reply_to client) fuel offset _ _ _ s _
              (parse_response-to_string max_size a.uuid a.json front (packets (b ∷ later))
                good.0.full good.0.fits good.0.small)
              (reply_to-next a cbs s e good.0.waits)
              (at_end_lem passed (packets (b ∷ later))
                ∙ packets-nonempty b.uuid b.json (packets later) good.1.0.full)
            ∙ run,
        record {
          called = answered.called ∙ append_assoc s.called _ _;
          buf_kept = answered.buf_kept;
          closed_kept = answered.closed_kept;
        },
      )

  -- Some responses that come in one message, with nothing held back, each awaited and no two with
  -- the same uuid, each reach the callback of their own uuid once, in the order in which they come,
  -- whatever the order of the requests was.
  pub on_message-packets_awaited :
      (a : Awaited) (later : List Awaited) (cbs : List (List ℕ × ℕ)) (s : SoaClient)
      → All (IsAwaited max_size cbs) (a ∷ later)
      → AreDistinct (a ∷ later)
      → lookup client s.buf ≡ none
      → lookup client s.callbacks ≡ some cbs
      → (s' : SoaClient) × (on_message max_size client (packets (a ∷ later)) s ≡ running s')
        × IsAnswered client (calls (a ∷ later)) s s'
  unfolding on_message catch_block
  on_message-packets_awaited a later cbs s good apart empty e =
      let (s', run, answered) =
        serve_loop-packets a later (suc (length (packets (a ∷ later)))) [] 0 cbs s good apart e
          (omega (arith, length-packets max_size cbs (a ∷ later) good)) in
      (
        s',
        rw (append_buf-none client (packets (a ∷ later)) s.buf empty, on_message)
            (rw (run, catch_block) refl),
        answered,
      )
