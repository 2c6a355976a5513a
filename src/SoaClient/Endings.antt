-- ===== src/SoaClient/Endings.antt =====
-- P::Client::Soa::on_message ends on every message.
use universe.Base.{ℕ, suc, ◌≢◌, refl, List, length, arith}
use universe.Reader.{R, pure, ◌>>=◌, ◌>>◌, read_size, read_network, resize}
use universe.Reader.Local.{Local, Local-pure, Local-bind, Local-then}
use universe.Reader.Scans.{Local-read_size, Local-read_network, Local-resize}
use universe.Session.{Ending, finished, returned, again, refused, crashed, exhausted}
use universe.Session.Framing.{
  IsFraming, Ends, Grows-bind, Ends-bind, Ends-pure, Grows-read_size, Ends-read_size,
  Ends-read_network, Ends-resize,
}
use universe.Session.Chunks.{outcome, ran_out, serve, serve-ne-ran_out}
use universe.StateMachine.Buffers.{append_buf}
use universe.Soa.{SoaResponse, uuid_size, parse_response}
use universe.SoaClient.{SoaClient, stuck, catch_block, on_message, reply_to}

-- The parser after the uuid and the length.
abbrev json_part : ℕ → List ℕ → ℕ → R SoaResponse
json_part max_size uuid json_size = do
  resize max_size json_size
  json ← read_size json_size
  pure (record { uuid = uuid; json = json })

module _ (max_size : ℕ) where
  Local-json_part : (uuid : List ℕ) (n : ℕ) → Local (json_part max_size uuid n)
  Local-json_part uuid n =
      Local-then (resize max_size n) _ (Local-resize max_size n)
        (Local-bind (read_size n) _ (Local-read_size n) (λ json. Local-pure _))

  Ends-json_part : (uuid : List ℕ) (n : ℕ) → Ends (json_part max_size uuid n)
  Ends-json_part uuid n =
      Ends-bind (resize max_size n) _ (Ends-resize max_size n) (Local-resize max_size n) (λ _.
        Ends-bind (read_size n) _ (Ends-read_size n) (Local-read_size n) (λ json. Ends-pure _))

  parse_response-IsFraming : IsFraming (parse_response max_size)
  unfolding parse_response
  parse_response-IsFraming = record {
    local = Local-bind (read_size uuid_size) _ (Local-read_size uuid_size) behind_uuid;
    grows =
        Grows-bind (read_size uuid_size) _ (Grows-read_size uuid_size (omega arith))
          (Local-read_size uuid_size) behind_uuid;
    ends =
        Ends-bind (read_size uuid_size) _ (Ends-read_size uuid_size) (Local-read_size uuid_size)
          (λ uuid.
            Ends-bind (read_network 8) _ (Ends-read_network 8) (Local-read_network 8)
              (λ n. Ends-json_part uuid n));
  }
    where
      behind_uuid : (uuid : List ℕ) → Local (read_network 8 >>= λ n. json_part max_size uuid n)
      behind_uuid uuid =
          Local-bind (read_network 8) _ (Local-read_network 8) (λ n. Local-json_part uuid n)

  catch_block-ends :
      (client : ℕ) (message : List ℕ) (e : Ending SoaClient)
      → outcome message e ≢ ran_out
      → catch_block client message e ≢ stuck
  unfolding catch_block
  catch_block-ends client message (finished s) h e = cc
  catch_block-ends client message (returned s) h e = cc
  catch_block-ends client message (again offset s) h e = cc
  catch_block-ends client message (refused s) h e = cc
  catch_block-ends client message (crashed s) h e = cc
  catch_block-ends client message exhausted h e = h refl

  -- The handler ends on every message.
  pub every_response_ends :
      (client : ℕ) (message : List ℕ) (s : SoaClient) → on_message max_size client message s ≢ stuck
  unfolding on_message serve
  every_response_ends client message s =
      let (found, whole, buf) = append_buf client message s.buf in
      catch_block-ends client whole _ (
        serve-ne-ran_out (parse_response max_size) (reply_to client) parse_response-IsFraming
          (suc (length whole)) whole (record s { buf = buf }) (omega arith))
