-- ===== src/Grpc/Serve.antt =====
-- streamGRPC's headers and `serveGRPC` of larking/grpc.go. The codec and compressor maps hold values of
-- any type; metadata.Join, base 64, canonical names and strconv.FormatInt are parameters.
use larking.Base.{
  ℕ, Bool, true, not, Option, none, some, List, [], ◌∷◌, ◌++◌, Bytes, codes, beq, ◌==◌,
  if◌then◌else◌,
}
use larking.Base.Int.{ℤ}
use larking.Rules.Tree.{lookup, insert}
use larking.Grpc.Headers.{Header, set_outgoing}
use larking.Grpc.Message.{encode_grpc_message}
use larking.Grpc.Timeout.{
  Timeout, too_short, too_long, no_unit, bad_number, duration, decode_timeout,
}
use larking.Mux.Handlers.{Handler, State, pick_method_handler}
use larking.Http.Action.{Metadata}

-- http.Header.Get and Add, of canonical keys
unfoldable pub get_header : Bytes → Header → Bytes
unfolding lookup
get_header k h = elim (lookup k h) [ none ↦ [] | some [] ↦ [] | some (v ∷ vs) ↦ v ]

unfoldable pub add_header : Bytes → Bytes → Header → Header
unfolding lookup insert
add_header k v h = elim (lookup k h) [
  | none ↦ insert k (v ∷ []) h
  | some vs ↦ insert k (vs ++ v ∷ []) h
]

-- strings.Cut at a plus.
unfoldable pub cut_plus : Bytes → Bytes × Option Bytes
cut_plus [] = ([], none)
cut_plus (c ∷ s) = let (typ, enc) = cut_plus s in if c == b'+' then ([], some s) else (c ∷ typ, enc)

abbrev pub or_proto : Option Bytes → Bytes
or_proto none = codes "proto"
or_proto (some enc) = enc

abbrev pub grpc_base : Bytes
grpc_base = codes "application/grpc"

unfoldable pub grpc_get_codec : {C : Type 0} → List (Bytes × C) → Bytes → Option C
unfolding cut_plus lookup
grpc_get_codec codecs ct =
    let (typ, enc) = cut_plus ct in if beq typ grpc_base then lookup (or_proto enc) codecs else none

-- A compressor may be nil, as that of "identity" is.
unfoldable pub grpc_get_compressor :
    {C : Type 0} → List (Bytes × Option C) → Bytes → Option (Option C)
unfolding lookup
grpc_get_compressor compressors [] = none
grpc_get_compressor compressors (c ∷ me) = lookup (c ∷ me) compressors

pub record GrpcRequest : Type 0 where
  pub proto_major : ℕ
  pub method : Bytes
  pub path : Bytes
  pub header : Header
  pub can_flush : Bool

pub data Refusal : Type 0 where
  no_http2 bad_method no_streaming bad_content_type bad_encoding : Refusal
  bad_timeout no_method : Refusal

-- The status of `http.Error`.
unfoldable pub refusal_status : Refusal → ℕ
refusal_status no_http2 = 400
refusal_status bad_method = 400
refusal_status no_streaming = 500
refusal_status bad_content_type = 415
refusal_status bad_encoding = 415
refusal_status bad_timeout = 400
refusal_status no_method = 404

-- What a stream is opened with.
pub record Opened (C Z M : Type 0) : Type 0 where
  pub codec : C
  pub comp : Option Z
  pub timeout : Option ℤ
  pub handler : Handler M
  pub content_type : Bytes
  pub message_encoding : Bytes

pub data Opening (C Z M : Type 0) : Type 0 where
  refuses : Refusal → Opening C Z M
  opens : Opened C Z M → Opening C Z M

module _ {C Z F M : Type 0} (codecs : List (Bytes × C)) (compressors : List (Bytes × Option Z))
    (draw : ℕ) (s : Option (State F M)) where
  -- The compressor of the request, or nil; `none` refuses.
  unfoldable pub request_compressor : Bytes → Option (Option Z)
  unfolding grpc_get_compressor
  request_compressor [] = some none
  request_compressor (c ∷ me) = grpc_get_compressor compressors (c ∷ me)

  abbrev pub timeout_of : Timeout → Option (Option ℤ)
  timeout_of (duration t) = some (some t)
  timeout_of too_short = none
  timeout_of too_long = none
  timeout_of no_unit = none
  timeout_of bad_number = none

  -- No timeout, or that of the header; `none` refuses.
  unfoldable pub request_timeout : Bytes → Option (Option ℤ)
  unfolding decode_timeout
  request_timeout [] = some none
  request_timeout (c ∷ v) = timeout_of (decode_timeout (c ∷ v))

  unfoldable pub open_method : GrpcRequest → C → Option Z → Option ℤ → Opening C Z M
  unfolding pick_method_handler get_header
  open_method r codec comp to = elim (pick_method_handler draw r.path s) [
    | none ↦ refuses no_method
    | some hd ↦ opens (record {
      codec = codec;
      comp = comp;
      timeout = to;
      handler = hd;
      content_type = get_header (codes "Content-Type") r.header;
      message_encoding = get_header (codes "Grpc-Encoding") r.header;
    })
  ]

  unfoldable pub open_timeout : GrpcRequest → C → Option Z → Opening C Z M
  unfolding request_timeout open_method get_header
  open_timeout r codec comp = elim (request_timeout (get_header (codes "Grpc-Timeout") r.header)) [
    | none ↦ refuses bad_timeout
    | some to ↦ open_method r codec comp to
  ]

  unfoldable pub open_codec : GrpcRequest → Opening C Z M
  unfolding grpc_get_codec request_compressor open_timeout get_header
  open_codec r = elim (grpc_get_codec codecs (get_header (codes "Content-Type") r.header)) [
    | none ↦ refuses bad_content_type
    | some codec ↦ elim (request_compressor (get_header (codes "Grpc-Encoding") r.header)) [
      | none ↦ refuses bad_encoding
      | some comp ↦ open_timeout r codec comp
    ]
  ]

  -- `serveGRPC` up to the stream.
  unfoldable pub serve_grpc : GrpcRequest → Opening C Z M
  unfolding open_codec
  serve_grpc r =
      if not (r.proto_major == 2)
      then refuses no_http2
      else if not (beq r.method (codes "POST"))
      then refuses bad_method
      else if not r.can_flush
      then refuses no_streaming
      else open_codec r

-- The part of streamGRPC that its headers change.
pub record Sending : Type 0 where
  pub w_header : Header
  pub header : Header
  pub trailer : Header
  pub sent_header : Bool

pub data SendError : Type 0 where
  context_done already_sent : SendError

-- The status of a call: its code, its message, and its encoded proto where it has details.
pub record Status : Type 0 where
  pub code : ℕ
  pub text : Bytes
  pub details : Option Bytes

module _ (md : Metadata) (format_int : ℕ → Bytes) (content_type message_encoding : Bytes) where
  unfoldable pub set_header : Header → Sending → Option SendError × Sending
  set_header h s =
      if s.sent_header
      then (some already_sent, s)
      else (none, record s { header = md.join s.header h })

  abbrev pub encoding_header : Bytes → Header → Header
  encoding_header [] h = h
  encoding_header (c ∷ me) h = insert (codes "Grpc-Encoding") ((c ∷ me) ∷ []) h

  -- The headers of a response before the metadata.
  unfoldable pub grpc_header : Header → Header
  unfolding add_header insert
  grpc_header h = add_header (codes "Trailer") (codes "Grpc-Status-Details-Bin") (
      add_header (codes "Trailer") (codes "Grpc-Message") (
        add_header (codes "Trailer") (codes "Grpc-Status")
          (encoding_header message_encoding (insert (codes "Content-Type") (content_type ∷ []) h))))

  unfoldable pub with_header : Header → Sending → Sending
  unfolding grpc_header set_outgoing
  with_header h s =
      let joined = md.join s.header h in
      record s {
        header = joined;
        w_header = set_outgoing md.encode md.canonical (grpc_header s.w_header) joined;
        sent_header = true;
      }

  unfoldable pub send_header : Bool → Header → Sending → Option SendError × Sending
  unfolding with_header
  send_header done h s =
      if done
      then (some context_done, s)
      else if s.sent_header
      then (some already_sent, s)
      else (none, with_header h s)

  unfoldable pub set_trailer : Header → Sending → Sending
  set_trailer h s = record s { trailer = md.join s.trailer h }

  abbrev pub text_header : Bytes → Header → Header
  text_header [] h = h
  text_header (c ∷ t) h = insert (codes "Grpc-Message") (encode_grpc_message (c ∷ t) ∷ []) h

  abbrev pub details_header : Option Bytes → Header → Header
  details_header none h = h
  details_header (some b) h = insert (codes "Grpc-Status-Details-Bin") (md.encode b ∷ []) h

  -- The status and the trailers, behind the body.
  unfoldable pub write_status : Status → Header → Header → Header
  unfolding insert set_outgoing
  write_status st trailer h =
      set_outgoing md.encode md.canonical
        (details_header st.details
          (text_header st.text (insert (codes "Grpc-Status") (format_int st.code ∷ []) h)))
        trailer

  -- The end of `serveGRPC`, behind the headers. A handler of statistics sets the trailers again.
  unfoldable pub end_call : Bool → Status → Sending → Sending
  unfolding write_status set_outgoing
  end_call has_stats st s =
      let h = write_status st s.trailer s.w_header in
      record s {
        w_header = if has_stats then set_outgoing md.encode md.canonical h s.trailer else h;
      }

  -- The end of `serveGRPC`, behind the handler: a context that is done before the headers are sent
  -- leaves no status.
  unfoldable pub finish : Bool → Bool → Status → Sending → Sending
  unfolding send_header end_call
  finish has_stats done st s =
      if s.sent_header
      then end_call has_stats st s
      else let (e, s') = send_header done [] s in
        elim e [ none ↦ end_call has_stats st s' | some x ↦ s' ]
