-- ===== src/Http/Ended.antt =====
-- That a streamHTTP of larking/http.go stays at the end of its request.
use larking.Base.{
  ℕ, ◌+◌, ◌&&◌, Bool, true, false, Option, none, some, List, [], ◌∷◌, ◌≡◌, refl, Bytes, ◌==◌,
  Bool-cases, Option-cases, inl, inr,
}
use larking.Codec.Json.{
  NextRead, message, no_message, last_message, waiting, negative_length, out_of_range,
}
use larking.Codec.Body.{AllData, all_data, over_limit, all_waits, read_all}
use larking.Http.Action.{
  Messages, Coder, Config, Stream, end_of_stream, no_codec, unmarshal_failed, bad_params, err, pure,
  or_raise,
}
use larking.Http.Stream.{
  set_header, send_header, set_trailer, first_header, is_end, is_eof, get_codec, keep_rest,
  keep_all, read_bytes, read_msg, decode_body, store_args, read_args, decode_request_args,
  take_empty, with_params, receive, recv_msg,
}
use larking.Http.Bodies.{
  BodyCall, body_refusal, counted_params, as_http_body_reader, open_writer, as_http_body_writer,
}
use larking.Http.Triples.{Triple, seq, branch-keeps, or_raise-keeps}
use larking.Http.HeadersFirst.{
  Call, set_header_call, send_header_call, set_trailer_call, send_call, recv_call, reader_call,
  writer_call, call, calls, write_msg-keeps, send_msg-keeps,
}

-- The stream has met its end.
abbrev pub AtEnd : Stream → Type 0
AtEnd s = s.r_eof ≡ true

module _ {p : Messages} (c : Config p) where
  pub with_params-keeps : (P : Stream → Type 0) (a : ℕ × p.Msg) → Triple P (with_params c a.0 a.1) P
  unfolding with_params
  with_params-keeps P a s q = elim (Bool-cases (a.0 == 0)) [
    | inl e ↦ rw e (or_raise-keeps P (p.set_params c.params a.1) bad_params s q)
    | inr e ↦ rw e q
  ]

  pub store_args-keeps :
      (P : Stream → Type 0) (k : Coder p.Msg) (m : p.Msg) (a : ℕ × Bytes)
      → Triple P (store_args c k m a) P
  unfolding store_args
  store_args-keeps P k m a =
      seq P P (or_raise (decode_body c k a.1 (p.at c.body m)) unmarshal_failed)
        (λ cur. pure (a.0, p.put_at c.body cur m))
        (or_raise-keeps P (decode_body c k a.1 (p.at c.body m)) unmarshal_failed) (λ cur t q. q)

  keep_rest-AtEnd : (x : NextRead) → Triple AtEnd (keep_rest c x) AtEnd
  unfolding keep_rest
  keep_rest-AtEnd (message b n r) s h = h
  keep_rest-AtEnd (no_message b e r) s h = branch-keeps AtEnd (is_end e) _ _ refl h
  keep_rest-AtEnd (last_message b n e r) s h = branch-keeps AtEnd (is_eof e) _ _ refl h
  keep_rest-AtEnd (waiting b) s h = h
  keep_rest-AtEnd (negative_length b n r) s h = h
  keep_rest-AtEnd out_of_range s h = h

  keep_all-end : (x : AllData) → Triple AtEnd (keep_all c x) AtEnd
  unfolding keep_all
  keep_all-end (all_data b e r) s h = branch-keeps AtEnd (is_eof e) _ _ refl h
  keep_all-end (over_limit r) s h = h
  keep_all-end (all_waits b) s h = h

  read_bytes-end : (k : Coder p.Msg) → Triple AtEnd (read_bytes c k) AtEnd
  unfolding read_bytes
  read_bytes-end k s h = elim (Bool-cases c.is_streaming_client) [
    | inr unary ↦ rw (unary, read_bytes) (keep_all-end (read_all c.max_receive [] s.reader) s h)
    | inl streams ↦ elim (Option-cases k.framing) [
      | inl plain ↦ rw (streams, read_bytes, plain) h
      | inr (f, framed) ↦
          rw (streams, read_bytes, framed)
            (keep_rest-AtEnd (f.read_next c.max_receive s.rbuf s.reader) s h)
    ]
  ]

  read_msg-end : (k : Coder p.Msg) → Triple AtEnd (read_msg c k) AtEnd
  unfolding read_msg
  read_msg-end k s h =
      branch-keeps AtEnd s.r_eof (err end_of_stream, s) _ h
        (seq AtEnd AtEnd (read_bytes c k) (λ b. pure {A = ℕ × Bytes} (s.recv_count, b))
          (read_bytes-end k) (λ b t q. q) (record s { recv_count = s.recv_count + 1 }) h)

  receive-end : (b : Bool) (m : p.Msg) → Triple AtEnd (receive c b m) AtEnd
  unfolding receive decode_request_args read_args take_empty
  receive-end false m s h = branch-keeps AtEnd s.r_eof _ _ h refl
  receive-end true m s h =
      seq AtEnd AtEnd (or_raise (get_codec c c.content_type (p.at c.body m)) no_codec)
        (read_args c m) (or_raise-keeps AtEnd (get_codec c c.content_type (p.at c.body m)) no_codec)
        (λ k.
          seq AtEnd AtEnd (read_msg c k) (store_args c k m) (read_msg-end k)
            (store_args-keeps AtEnd k m))
        s h

  recv_msg-end : (m : p.Msg) → Triple AtEnd (recv_msg c m) AtEnd
  unfolding recv_msg
  recv_msg-end m =
      seq AtEnd AtEnd (receive c (c.method_has_body && c.has_body) m) (λ a. with_params c a.0 a.1)
        (receive-end (c.method_has_body && c.has_body) m) (with_params-keeps AtEnd)

  first_header-AtEnd : (t : Bytes) → Triple AtEnd (first_header c t) AtEnd
  unfolding first_header send_header
  first_header-AtEnd t s h =
      branch-keeps AtEnd (s.send_count == 0) _ _
        (branch-keeps AtEnd s.sent_header _ _ h (branch-keeps AtEnd s.sent_header _ _ h h)) h

  counted_params-AtEnd : (o : Option p.Msg) (s : Stream) → AtEnd s → AtEnd (counted_params c o s).1
  counted_params-AtEnd none s h = h
  counted_params-AtEnd (some m) s h = h

  as_reader-AtEnd :
      (b : BodyCall) (m : p.Msg) (s : Stream) → AtEnd s → AtEnd (as_http_body_reader c b m s).1
  unfolding as_http_body_reader
  as_reader-AtEnd b m s h =
      elim (Option-cases (body_refusal c b c.is_streaming_client s.recv_count c.body m)) [
        | inl none_ ↦ rw (none_, as_http_body_reader) (counted_params-AtEnd _ s h)
        | inr (e, some_) ↦ rw (some_, as_http_body_reader) h
      ]

  open_writer-AtEnd : (m : p.Msg) (s : Stream) → AtEnd s → AtEnd (open_writer c m s).1
  unfolding open_writer send_header
  open_writer-AtEnd m s h = elim (Bool-cases s.sent_header) [
    | inl sent ↦ rw (sent, open_writer) h
    | inr unsent ↦ rw (unsent, open_writer) h
  ]

  as_writer-AtEnd :
      (b : BodyCall) (m : p.Msg) (s : Stream) → AtEnd s → AtEnd (as_http_body_writer c b m s).1
  unfolding as_http_body_writer
  as_writer-AtEnd b m s h =
      elim (Option-cases (body_refusal c b c.is_streaming_server s.send_count c.resp m)) [
        | inl none_ ↦ rw (none_, as_http_body_writer) (open_writer-AtEnd m s h)
        | inr (e, some_) ↦ rw (some_, as_http_body_writer) h
      ]

call-AtEnd : {p : Messages} (c : Config p) (x : Call p) (s : Stream) → AtEnd s → AtEnd (call c x s)
unfolding set_header send_header set_trailer
call-AtEnd c (set_header_call md) s h = branch-keeps AtEnd s.sent_header _ _ h h
call-AtEnd c (send_header_call md) s h = branch-keeps AtEnd s.sent_header _ _ h h
call-AtEnd c (set_trailer_call md) s h = h
call-AtEnd c (send_call m) s h =
    send_msg-keeps c AtEnd
      (write_msg-keeps c AtEnd (λ s bs q. q) (λ s n q. q) (first_header-AtEnd c)) m s h
call-AtEnd c (recv_call m) s h = recv_msg-end c m s h
call-AtEnd c (reader_call b m) s h = as_reader-AtEnd c b m s h
call-AtEnd c (writer_call b m) s h = as_writer-AtEnd c b m s h

-- No call of a handler takes the stream back from its end.
pub calls-AtEnd :
    {p : Messages} (c : Config p) (xs : List (Call p)) (s : Stream) → AtEnd s → AtEnd (calls c xs s)
calls-AtEnd c [] s h = h
calls-AtEnd c (x ∷ xs) s h = calls-AtEnd c xs (call c x s) (call-AtEnd c x s h)
