-- ===== src/Soa.antt =====
-- Protocol/Soa.h and Protocol/Soa.cpp, the request side of the SOA protocol: a packet is a 16 byte
-- uuid, the length of the json in 8 bytes, and the json. Protocol/Client/Soa.cpp reads the responses
-- by the same code.
pub mod Packets
pub mod Delivery
mod Tests
use universe.Base.{ℕ, ◌+◌, List, ◌++◌, length, [], ◌∷◌}
use universe.Session.{Exit, stay}
use universe.Reader.{R, pure, ◌>>=◌, ◌>>◌, read_size, read_network, resize}
use universe.Reader.Words.{network_bytes}
use universe.Session.Host.{Action, wrote, Host, Session, receive}
use universe.StateMachine.Buffers.{erase_buf}

-- `sizeof(uuid_t)`
abbrev pub uuid_size : ℕ
uuid_size = 16

pub record SoaRequest : Type 0 where
  pub client : ℕ
  pub uuid : List ℕ
  pub json : List ℕ

pub record SoaResponse : Type 0 where
  pub uuid : List ℕ
  pub json : List ℕ

-- `SoaRequest::to_string`, which `SoaResponse::to_string` calls: both sides write this.
unfoldable pub to_string : List ℕ → List ℕ → List ℕ
to_string uuid json = uuid ++ (network_bytes 8 (length json) ++ json)

-- `max_size` is `string::max_size()`, past which `r.json.resize` throws.
module _ (max_size : ℕ) where
  unfoldable pub parse_request : ℕ → R SoaRequest
  parse_request client = do
    uuid ← read_size uuid_size
    json_size ← read_network 8
    resize max_size json_size
    json ← read_size json_size
    pure (record { client = client; uuid = uuid; json = json })

  -- `P::Client::Soa::parse_response`
  unfoldable pub parse_response : R SoaResponse
  parse_response = do
    uuid ← read_size uuid_size
    json_size ← read_network 8
    resize max_size json_size
    json ← read_size json_size
    pure (record { uuid = uuid; json = json })

  -- `answer` stands for the callbacks of `ON_REQUEST`, which fill in the json of the response.
  module _ (answer : SoaRequest → List ℕ) where
    unfoldable pub respond : ℕ → SoaRequest → List Action → List Action × Exit
    unfolding to_string
    respond client r acts = (acts ++ (wrote client (to_string r.uuid (answer r)) ∷ []), stay)

    unfoldable pub on_message : ℕ → List ℕ → Host → Session
    on_message client message h = receive (parse_request client) (respond client) client message h

unfoldable pub on_connect : ℕ → Host → Host
on_connect client h = h

unfoldable pub on_close : ℕ → Host → Host
on_close client h = record h { buf = erase_buf client h.buf }
