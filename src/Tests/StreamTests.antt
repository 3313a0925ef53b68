-- ===== src/Tests/StreamTests.antt =====
-- Runs of the streams of larking/grpc.go, larking/http.go, larking/web.go and larking/websocket.go.
use larking.Base.{
  ◌≢◌, ℕ, true, false, none, some, List, [], ◌∷◌, ◌++◌, ◌≡◌, sym, refl, Bytes, codes, length, arith,
  if◌then◌else◌, beq,
}
use larking.Io.{Reader, eof}
use larking.Rules.Tree.{lookup}
use larking.Grpc.Headers.{Header, any_eq}
use larking.Grpc.Frame.{Wire, make_frame, recv_frame, frame}
use larking.Grpc.FrameLaws.{IsFaithful, Arrives, recv_frame-make_frame}
use larking.Grpc.Serve.{Sending, Status, finish}
use larking.Grpc.Status.{KeepsStatus, Ends, finish-Ends}
use larking.Codec.Json.{json_read_next, json_write_next}
use larking.Http.Action.{ok, Messages, Coder, Metadata, Config, Stream}
use larking.Http.Once.{recv_msg-once}
use larking.Http.Stream.{
  recv_msg, receive, decode_request_args, read_args, read_msg, read_bytes, keep_all, store_args,
  decode_body, with_params, get_codec,
}
use larking.Codec.Body.{read_all}
use larking.Http.HeadersFirst.{
  HeadersFirst, SentWith, Call, set_header_call, send_header_call, send_call, recv_call, calls,
  calls-HeadersFirst, calls-SentWith,
}
use larking.Http.Websocket.{WsStream, WsConfig}
use larking.Http.WebsocketOrder.{receives, decoded, receives-decoded}
use larking.Base.{not, ◌&&◌, has_prefix}
use larking.Mux.Options.{keys}
use larking.Web.Writer.{WebWriter, trailer_key, trailer_prefix, trailer_from, write}
use larking.Web.TrailerNames.{IsLowered, IsTrailerName}
use larking.Web.Trailers.{IsAlone, trailer-value}

-- Messages are their own bytes.
abbrev plain_wire : Wire Bytes
plain_wire = record {
  marshal = λ b. some b;
  unmarshal = λ b. some b;
  comp = none;
  max_receive = 100;
  has_stats = true;
}

plain_wire-IsFaithful : IsFaithful plain_wire
plain_wire-IsFaithful = record { decodes = λ m b e. sym e; decompresses = λ c b z e k. cc }

abbrev hello_frame : Bytes
hello_frame = 0 ∷ 0 ∷ 0 ∷ 0 ∷ 2 ∷ codes "hi"

hello_framed : make_frame plain_wire (codes "hi") ≡ frame hello_frame
unfolding make_frame
hello_framed = refl

abbrev frame_reads : Reader
frame_reads = (0 ∷ 0 ∷ [], none) ∷ (0 ∷ 0 ∷ 2 ∷ codes "hi!", none) ∷ []

recv_frame-make_frame_example :
    Arrives plain_wire (codes "hi") (codes "!") (recv_frame plain_wire frame_reads)
recv_frame-make_frame_example =
    recv_frame-make_frame plain_wire (codes "hi") hello_frame (codes "!") frame_reads
      plain_wire-IsFaithful hello_framed (omega arith) (omega arith) tt refl

abbrev plain_metadata : Metadata
plain_metadata = record { join = λ h k. h ++ k; encode = λ b. b; canonical = λ k. k }

abbrev ok_status : Status
ok_status = record { code = 0; text = []; details = none }

-- A trailer of the handler under the name of the status.
abbrev sending : Sending
sending = record {
  w_header = [];
  header = [];
  trailer = (codes "x-id", codes "7" ∷ []) ∷ [];
  sent_header = false;
}

abbrev one_digit : ℕ → Bytes
one_digit n = n ∷ []

sending-KeepsStatus : KeepsStatus plain_metadata sending.trailer
unfolding beq
sending-KeepsStatus = ((λ e. cc), tt)

finish-Ends_example :
    Ends
      (one_digit 0)
      false
      sending
      (finish plain_metadata one_digit (codes "application/grpc") [] true false ok_status sending)
finish-Ends_example =
    finish-Ends plain_metadata one_digit (codes "application/grpc") [] true false ok_status sending
      sending-KeepsStatus

abbrev web_header : Header
web_header =
    (codes "Content-Type", codes "application/grpc-web+proto" ∷ [])
    ∷ (codes "Grpc-Status", codes "0" ∷ [])
    ∷ []

web_header-IsAlone : IsAlone (codes "Grpc-Status") web_header
unfolding beq trailer_key lookup
web_header-IsAlone = (refl, (λ e. cc), (refl, (λ e. refl), tt))

abbrev web_writer : WebWriter
web_writer = record {
  header = [];
  seen_headers = [];
  wrote_header = false;
  written = [];
  statuses = [];
  flushes = 0;
}

-- "Status" in lower case.
status-IsLowered : IsLowered (codes "Status") (codes "status")
status-IsLowered = IsLowered.upper (omega arith) (omega arith) (
    IsLowered.above (omega arith) (
      IsLowered.above (omega arith) (
        IsLowered.above (omega arith)
          (IsLowered.above (omega arith) (IsLowered.above (omega arith) IsLowered.end)))))

grpc_status-IsTrailerName : IsTrailerName (codes "Grpc-Status") (codes "grpc-status")
unfolding has_prefix
grpc_status-IsTrailerName = IsTrailerName.bare refl (
    IsLowered.upper (omega arith) (omega arith) (
      IsLowered.above (omega arith) (
        IsLowered.above (omega arith)
          (IsLowered.above (omega arith) (IsLowered.below (omega arith) status-IsLowered)))))

trailer-value_example :
    lookup (codes "grpc-status") (
      trailer_from
        (write
          (codes "application/grpc-web")
          (codes "proto")
          (λ b. false)
          []
          web_writer).1.seen_headers
        []
        web_header)
    ≡ (if not (has_prefix (codes "Grpc-Status") trailer_prefix)
          && any_eq (codes "Grpc-Status") (codes "Content-Type" ∷ keys web_writer.header)
        then none
        else lookup (codes "Grpc-Status") web_header)
trailer-value_example =
    trailer-value (codes "application/grpc-web") (codes "proto") (λ b. false) (codes "Grpc-Status")
      (codes "grpc-status") [] web_writer web_header grpc_status-IsTrailerName web_header-IsAlone
      refl

abbrev texts : Messages
texts = record {
  Msg = Bytes;
  Field = Unit;
  Params = Unit;
  at = λ path m. m;
  put_at = λ path cur m. cur;
  full_name = λ m. codes "Text";
  body_type = λ m. [];
  body_data = λ m. m;
  make_body = λ t b m. b;
  set_params = λ ps m. some m;
}

abbrev text_coder : Coder Bytes
text_coder = record {
  marshal = λ m. some m;
  unmarshal = λ b m. some b;
  framing = some (record { read_next = json_read_next; write_next = json_write_next });
}

-- A method that streams both ways, as JSON.
abbrev text_config : Config texts
text_config = record {
  metadata = plain_metadata;
  codecs = (codes "application/json", text_coder) ∷ [];
  max_receive = 100;
  max_send = 100;
  body = [];
  resp = [];
  method_has_body = true;
  is_streaming_client = true;
  is_streaming_server = true;
  params = tt;
  content_type = codes "application/json";
  accept = codes "application/json";
  has_body = true;
  write = λ b. (length b, none);
}

abbrev fresh_stream : Stream
fresh_stream = record {
  w_header = [];
  header = [];
  trailer = [];
  rbuf = [];
  reader = (codes "{}{}", none) ∷ (codes "", some eof) ∷ [];
  written = [];
  recv_count = 0;
  send_count = 0;
  sent_header = false;
  r_eof = false;
}

abbrev some_calls : List (Call texts)
some_calls =
    recv_call []
    ∷ set_header_call ((codes "x-id", codes "7" ∷ []) ∷ [])
    ∷ send_call (codes "{}")
    ∷ recv_call []
    ∷ send_header_call []
    ∷ send_call (codes "{}")
    ∷ []

calls-HeadersFirst_example : HeadersFirst (calls text_config some_calls fresh_stream)
calls-HeadersFirst_example =
    calls-HeadersFirst text_config some_calls fresh_stream (λ e. (refl, refl))

abbrev sent_stream : Stream
sent_stream = record fresh_stream { sent_header = true; header = (codes "x", []) ∷ [] }

calls-SentWith_example :
    SentWith ((codes "x", []) ∷ []) sent_stream.w_header (calls text_config some_calls sent_stream)
calls-SentWith_example =
    calls-SentWith text_config ((codes "x", []) ∷ []) sent_stream.w_header some_calls sent_stream
      (refl, refl, λ k o. refl)

abbrev ws_config : WsConfig texts
ws_config = record {
  metadata = plain_metadata;
  marshal = λ m. some m;
  unmarshal = λ b m. if beq b [] then none else some b;
  write_fails = λ b. false;
  body = [];
  resp = [];
  has_body = true;
  params = tt;
}

abbrev ws_stream : WsStream
ws_stream = record {
  header = [];
  trailer = [];
  recv_n = 0;
  send_n = 0;
  sent_header = false;
  incoming = codes "{}" ∷ [] ∷ [];
  outgoing = [];
}

receives-decoded_example :
    receives ws_config 2 [] ws_stream ≡ decoded ws_config true [] (codes "{}" ∷ [] ∷ [])
receives-decoded_example = receives-decoded ws_config (codes "{}" ∷ [] ∷ []) [] ws_stream refl

-- The same method, with one message from its client.
abbrev unary_config : Config texts
unary_config = record text_config { is_streaming_client = false; is_streaming_server = false }

abbrev unary_stream : Stream
unary_stream = record fresh_stream { reader = (codes "{}", none) ∷ ([], some eof) ∷ [] }

unary_received : (recv_msg unary_config [] unary_stream).0 ≡ ok (codes "{}")
unfolding recv_msg receive decode_request_args read_args read_msg read_bytes keep_all store_args
    decode_body with_params get_codec lookup beq read_all
unary_received = refl

recv_msg-once_example :
    (recv_msg unary_config []
      (calls unary_config some_calls (recv_msg unary_config [] unary_stream).1)).0
    ≢ ok (codes "{}")
recv_msg-once_example =
    recv_msg-once unary_config some_calls [] [] (codes "{}") (codes "{}") unary_stream refl
      unary_received
