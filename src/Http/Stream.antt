-- ===== src/Http/Stream.antt =====
-- The methods of streamHTTP in larking/http.go.
use larking.Base.{
  ℕ, ◌+◌, ◌&&◌, Bool, true, false, Option, none, some, [], ◌∷◌, ◌++◌, Bytes, codes, beq, take, drop,
  ◌==◌, if◌then◌else◌,
}
use larking.Rules.Tree.{lookup, insert}
use larking.Io.{IoError, eof, unexpected_eof, short_write, other_error}
use larking.Codec.Json.{
  ReadError, io, unbalanced_braces, bad_varint, too_large, NextRead, message, no_message,
  last_message, waiting, negative_length, out_of_range,
}
use larking.Codec.Body.{AllData, all_data, over_limit, all_waits, read_all, WriteError, write_all}
use larking.Grpc.Headers.{Header, set_outgoing}
use larking.Http.Action.{
  Messages, Coder, Config, Stream, already_sent, no_codec, marshal_failed, unmarshal_failed,
  bad_params, receive_limit, end_of_stream, reading, writing, io_write, Result, ok, err, panic,
  wait, Action, pure, raise, stop, or_raise, ◌>>=◌, ◌>>◌, modify,
}

abbrev pub http_body : Bytes
http_body = codes "google.api.HttpBody"

abbrev pub is_eof : IoError → Bool
is_eof eof = true
is_eof unexpected_eof = false
is_eof short_write = false
is_eof (other_error n) = false

-- err == io.EOF
abbrev pub is_end : ReadError → Bool
is_end (io e) = is_eof e
is_end unbalanced_braces = false
is_end bad_varint = false
is_end too_large = false

module _ {p : Messages} (c : Config p) where
  open p use {Msg, Field, at, put_at, full_name, body_type, body_data, make_body, set_params}

  unfoldable pub set_header : Header → Action (Unit {0})
  set_header md s =
      if s.sent_header
      then (err already_sent, s)
      else (ok tt, record s { header = c.metadata.join s.header md })

  unfoldable pub send_header : Header → Action (Unit {0})
  unfolding set_outgoing
  send_header md s =
      let joined = c.metadata.join s.header md in
      if s.sent_header then (err already_sent, s) else (
        ok tt,
        record s {
          header = joined;
          w_header = set_outgoing c.metadata.encode c.metadata.canonical s.w_header joined;
          sent_header = true;
        },
      )

  unfoldable pub set_trailer : Header → Action (Unit {0})
  set_trailer md s = (ok tt, record s { trailer = c.metadata.join s.trailer md })

  -- By the full name of the message first, then by the media type.
  unfoldable pub get_codec : Bytes → Msg → Option (Coder Msg)
  unfolding lookup
  get_codec media_type cur = elim (lookup (full_name cur) c.codecs) [
    | some k ↦ some k
    | none ↦ lookup media_type c.codecs
  ]

  -- The headers that go before the first message.
  unfoldable pub first_header : Bytes → Action (Unit {0})
  unfolding send_header insert
  first_header content_type s =
      let s' : Stream = record s {
        w_header = insert (codes "Content-Type") (content_type ∷ []) s.w_header;
      } in
      if s.send_count == 0
      then (if s.sent_header then (ok tt, s') else send_header [] s')
      else (ok tt, s)

  abbrev pub written_by : Option WriteError → Bytes → Action (Unit {0})
  written_by none b s = (ok tt, record s { written = s.written ++ b ∷ [] })
  written_by (some e) b s = (err (writing e), s)

  -- A message to the response. A codec that is no StreamCodec leaves a nil to the error's message.
  unfoldable pub put_msg : Coder Msg → Bytes → Action (Unit {0})
  unfolding write_all
  put_msg k b =
      if c.is_streaming_server
      then (elim k.framing [
        | none ↦ stop panic
        | some f ↦ elim (c.write (f.write_next b)).1 [
          | some e ↦ raise (io_write e)
          | none ↦ written_by none (f.write_next b)
        ]
      ])
      else written_by (write_all c.max_send b c.write) b

  abbrev pub count_sent : Action (Unit {0})
  count_sent = modify (λ s. record s { send_count = s.send_count + 1 })

  unfoldable pub write_msg : Coder Msg → Bytes × Bytes → Action (Unit {0})
  unfolding first_header put_msg
  write_msg k (b, content_type) = first_header content_type >> (count_sent >> put_msg k b)

  -- The bytes of a reply and their content type.
  unfoldable pub encode_reply : Coder Msg → Msg → Option (Bytes × Bytes)
  encode_reply k cur =
      if beq (full_name cur) http_body
      then some (body_data cur, body_type cur)
      else elim (k.marshal cur) [ none ↦ none | some b ↦ some (b, c.accept) ]

  unfoldable pub send_by : Msg → Coder Msg → Action (Unit {0})
  unfolding encode_reply write_msg
  send_by reply k = or_raise (encode_reply k (at c.resp reply)) marshal_failed >>= write_msg k

  unfoldable pub send_msg : Msg → Action (Unit {0})
  unfolding get_codec send_by
  send_msg reply = or_raise (get_codec c.accept (at c.resp reply)) no_codec >>= send_by reply

  -- What `readMsg` makes of a message of a stream: what is read beyond it stays in `rbuf`, and the end
  -- of the stream is no error yet.
  unfoldable pub keep_rest : NextRead → Action Bytes
  keep_rest (message b n r) s = (ok (take n b), record s { rbuf = drop n b; reader = r })
  keep_rest (no_message b e r) s =
      if is_end e
      then (ok [], record s { rbuf = b; reader = r; r_eof = true })
      else (err (reading e), record s { rbuf = b; reader = r })
  keep_rest (last_message b n e r) s =
      if is_eof e
      then (ok (take n b), record s { rbuf = drop n b; reader = r; r_eof = true })
      else (err (reading (io e)), record s { rbuf = drop n b; reader = r })
  keep_rest (waiting b) s = (wait, s)
  keep_rest (negative_length b n r) s = (panic, record s { reader = r })
  keep_rest out_of_range s = (panic, s)

  unfoldable pub keep_all : AllData → Action Bytes
  keep_all (all_data b e r) s =
      if is_eof e
      then (ok b, record s { reader = r; r_eof = true })
      else (err (reading (io e)), record s { reader = r })
  keep_all (over_limit r) s = (err receive_limit, record s { reader = r })
  keep_all (all_waits b) s = (wait, s)

  -- The bytes of the next message.
  unfoldable pub read_bytes : Coder Msg → Action Bytes
  unfolding keep_rest keep_all read_all
  read_bytes k s =
      if c.is_streaming_client
      then (elim k.framing [
        | none ↦ (panic, s)
        | some f ↦ keep_rest (f.read_next c.max_receive s.rbuf s.reader) s
      ])
      else keep_all (read_all c.max_receive [] s.reader) s

  -- `readMsg` with the number of the message; the count stands still at the end of the stream.
  unfoldable pub read_msg : Coder Msg → Action (ℕ × Bytes)
  unfolding read_bytes
  read_msg k s =
      let read : Result (ℕ × Bytes) × Stream =
        (do b ← read_bytes k; pure (s.recv_count, b))
          (record s { recv_count = s.recv_count + 1 }) in
      if s.r_eof then (err end_of_stream, s) else read

  -- The request's body, decoded into the message at the path of the body.
  unfoldable pub decode_body : Coder Msg → Bytes → Msg → Option Msg
  decode_body k b cur =
      if beq (full_name cur) http_body
      then some (make_body c.content_type b cur)
      else k.unmarshal b cur

  unfoldable pub store_args : Coder Msg → Msg → ℕ × Bytes → Action (ℕ × Msg)
  unfolding decode_body
  store_args k args (count, b) = do
    cur ← or_raise (decode_body k b (at c.body args)) unmarshal_failed
    pure (count, put_at c.body cur args)

  unfoldable pub read_args : Msg → Coder Msg → Action (ℕ × Msg)
  unfolding read_msg store_args
  read_args args k = read_msg k >>= store_args k args

  unfoldable pub decode_request_args : Msg → Action (ℕ × Msg)
  unfolding get_codec read_args
  decode_request_args args =
      or_raise (get_codec c.content_type (at c.body args)) no_codec >>= read_args args

  -- A message with no body is received once.
  unfoldable pub take_empty : Msg → Action (ℕ × Msg)
  take_empty args s =
      let counted : Stream = record s { recv_count = s.recv_count + 1 } in
      if s.r_eof
      then (err end_of_stream, counted)
      else (ok (s.recv_count, args), record counted { r_eof = true })

  -- The first message takes the params of the path and the query.
  unfoldable pub with_params : ℕ → Msg → Action Msg
  with_params count args =
      if count == 0 then or_raise (set_params c.params args) bad_params else pure args

  unfoldable pub receive : Bool → Msg → Action (ℕ × Msg)
  unfolding decode_request_args take_empty
  receive true args = decode_request_args args
  receive false args = take_empty args

  unfoldable pub recv_msg : Msg → Action Msg
  unfolding receive with_params
  recv_msg args = receive (c.method_has_body && c.has_body) args >>= λ a. with_params a.0 a.1
