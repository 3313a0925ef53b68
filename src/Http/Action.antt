-- ===== src/Http/Action.antt =====
-- The state of streamHTTP in larking/http.go, and the calls on it. The messages of package proto, the
-- codecs, metadata.Join and the coding of headers are parameters.
use larking.Base.{ℕ, Bool, Option, none, some, List, Bytes}
use larking.Io.{IoError, Reader}
use larking.Codec.Json.{ReadError, NextRead}
use larking.Codec.Body.{WriteError}
use larking.Grpc.Headers.{Header}

-- proto messages: the message at a path of fields and a write to it, the full name, the fields of
-- google.api.HttpBody, and `params.set`.
pub record Messages : Type 1 where
  pub Msg : Type 0
  pub Field : Type 0
  pub Params : Type 0
  pub at : List Field → Msg → Msg
  pub put_at : List Field → Msg → Msg → Msg
  pub full_name : Msg → Bytes
  pub body_type : Msg → Bytes
  pub body_data : Msg → Bytes
  pub make_body : Bytes → Bytes → Msg → Msg
  pub set_params : Params → Msg → Option Msg

-- The methods of a StreamCodec.
pub record Framing : Type 0 where
  pub read_next : ℕ → Bytes → Reader → NextRead
  pub write_next : Bytes → Bytes

-- A Codec; `framing` is `none` where it is no StreamCodec.
pub record Coder (Msg : Type 0) : Type 0 where
  pub marshal : Msg → Option Bytes
  pub unmarshal : Bytes → Msg → Option Msg
  pub framing : Option Framing

-- The headers: metadata.Join, base 64, canonical names.
pub record Metadata : Type 0 where
  pub join : Header → Header → Header
  pub encode : Bytes → Bytes
  pub canonical : Bytes → Bytes

-- What does not change during a call: the method, the mux's options and the negotiated types.
pub record Config (p : Messages) : Type 0 where
  pub metadata : Metadata
  pub codecs : List (Bytes × Coder p.Msg)
  pub max_receive : ℕ
  pub max_send : ℕ
  pub body : List p.Field
  pub resp : List p.Field
  pub method_has_body : Bool
  pub is_streaming_client : Bool
  pub is_streaming_server : Bool
  pub params : p.Params
  pub content_type : Bytes
  pub accept : Bytes
  pub has_body : Bool
  pub write : Bytes → ℕ × Option IoError

pub record Stream : Type 0 where
  pub w_header : Header
  pub header : Header
  pub trailer : Header
  pub rbuf : Bytes
  pub reader : Reader
  pub written : List Bytes
  pub recv_count : ℕ
  pub send_count : ℕ
  pub sent_header : Bool
  pub r_eof : Bool

pub data StreamError : Type 0 where
  already_sent no_codec marshal_failed unmarshal_failed bad_params receive_limit : StreamError
  end_of_stream : StreamError
  reading : ReadError → StreamError
  writing : WriteError → StreamError
  io_write : IoError → StreamError

-- A result, an error, a panic, or a read that still waits.
pub data Result (A : Type 0) : Type 0 where
  ok : A → Result A
  err : StreamError → Result A
  panic wait : Result A

abbrev pub Action : Type 0 → Type 0
Action A = Stream → Result A × Stream

module _ {A : Type 0} where
  abbrev pub pure : A → Action A
  pure a s = (ok a, s)

  abbrev pub raise : StreamError → Action A
  raise e s = (err e, s)

  abbrev pub stop : Result A → Action A
  stop r s = (r, s)

  abbrev pub or_raise : Option A → StreamError → Action A
  or_raise none e = raise e
  or_raise (some a) e = pure a

infixl 5 ◌>>=◌ ◌>>◌
abbrev pub ◌>>=◌ : {A B : Type 0} → Action A → (A → Action B) → Action B
◌>>=◌ m f s =
    let (r, s') = m s in
    elim r [ ok a ↦ f a s' | err e ↦ (err e, s') | panic ↦ (panic, s') | wait ↦ (wait, s') ]

abbrev pub ◌>>◌ : {A B : Type 0} → Action A → Action B → Action B
m >> k = m >>= λ _. k

abbrev pub modify : (Stream → Stream) → Action (Unit {0})
modify f s = (ok tt, f s)

abbrev pub gets : {A : Type 0} → (Stream → A) → Action A
gets f s = (ok (f s), s)
