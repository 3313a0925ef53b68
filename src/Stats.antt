-- ===== src/Stats.antt =====
-- The payloads of larking/stats.go, the address of a peer, and the contexts of larking/log.go. Messages,
-- times and contexts are parameters.
use larking.Base.{◌+◌, ℕ, Bool, true, false, [], ◌∷◌, Bytes, codes, length}

abbrev pub header_len : ℕ
header_len = 1 + 4

-- stats.OutPayload and stats.InPayload.
pub record Payload (Msg Time : Type 0) : Type 0 where
  pub client : Bool
  pub payload : Msg
  pub length : ℕ
  pub wire_length : ℕ
  pub time : Time

module _ {Msg Time : Type 0} where
  unfoldable pub out_payload : Bool → Msg → Bytes → Time → Payload Msg Time
  out_payload client msg payload t = record {
    client = client;
    payload = msg;
    length = length payload;
    wire_length = length payload + header_len;
    time = t;
  }

  -- The flag of the caller is not read.
  unfoldable pub in_payload : Bool → Msg → Bytes → Time → Payload Msg Time
  in_payload client msg payload t = record {
    client = true;
    payload = msg;
    length = length payload;
    wire_length = length payload + header_len;
    time = t;
  }

-- `strAddr.Network`
unfoldable pub network : Bytes → Bytes
network [] = []
network (c ∷ a) = codes "tcp"

-- `NewContextFunc`
abbrev pub NewContextFunc : Type 0 → Type 0
NewContextFunc Context = Context → Bytes → Bool → Bool → Context

module _ {Context Request Response : Type 0} where
  -- `NewUnaryContext`
  unfoldable pub new_unary_context :
      NewContextFunc Context → Context → Request → Bytes → (Context → Request → Response) → Response
  new_unary_context ctx_fn ctx req full_method handler =
      handler (ctx_fn ctx full_method false false) req

-- `NewStreamContext`: the context that the handler's stream has.
unfoldable pub new_stream_context :
    {Context Response : Type 0}
    → NewContextFunc Context
    → Bytes
    → Bool
    → Bool
    → Context
    → (Context → Response)
    → Response
new_stream_context ctx_fn full_method is_client_stream is_server_stream ctx handler =
    handler (ctx_fn ctx full_method is_client_stream is_server_stream)
