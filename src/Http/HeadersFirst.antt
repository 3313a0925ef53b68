-- ===== src/Http/HeadersFirst.antt =====
-- The order of headers and messages in a streamHTTP of larking/http.go.
use larking.Base.{
  true, false, Option, none, some, List, [], ◌∷◌, ◌≡◌, refl, sym, ◌∙◌, Bytes, Bool-cases,
  Option-cases, inl, inr, arith,
}
use larking.Base.{if◌then◌else◌, Bool, ℕ, ap, beq, codes, ◌==◌}
use larking.Rules.Tree.{lookup, insert}
use larking.Mux.Removal.{lookup-insert}
use larking.Grpc.Headers.{Header}
use larking.Codec.Body.{WriteError, write_all}
use larking.Http.Action.{Messages, Coder, Config, Stream, no_codec, marshal_failed, or_raise, ◌>>◌}
use larking.Http.Stream.{
  set_header, send_header, set_trailer, get_codec, first_header, written_by, put_msg, write_msg,
  encode_reply, send_msg, recv_msg, count_sent, send_by,
}
use larking.Http.Bodies.{
  BodyCall, body_refusal, counted_params, as_http_body_reader, open_writer, as_http_body_writer,
}
use larking.Http.Triples.{Triple, seq, branch-keeps, or_raise-keeps, recv_msg-IsSame}

-- Nothing is written, and no message counted, before the headers are sent.
abbrev pub HeadersFirst : Stream → Type 0
HeadersFirst s = s.sent_header ≡ false → (s.send_count ≡ 0) × (s.written ≡ [])

-- The headers are sent, with this metadata, and the response's headers are these, but for its type.
abbrev pub SentWith : Header → Header → Stream → Type 0
SentWith md hd s =
    (s.sent_header ≡ true)
    × (s.header ≡ md)
    × ((k : Bytes) → beq (codes "Content-Type") k ≡ false → lookup k s.w_header ≡ lookup k hd)

abbrev Sent : Stream → Type 0
Sent s = s.sent_header ≡ true

Sent-HeadersFirst : (s : Stream) → Sent s → HeadersFirst s
Sent-HeadersFirst s h e = cc

taken :
    {A : Type 0} (P : Stream → Type 0) (b : Bool) (x y : A × Stream)
    → b ≡ true
    → P x.1
    → P (if b then x else y).1
taken P true x y e h = h
taken P false x y e h = cc

-- An insert of the type leaves the other headers.
other_headers :
    (t : List Bytes) (hd w : Header)
    → ((k : Bytes) → beq (codes "Content-Type") k ≡ false → lookup k w ≡ lookup k hd)
    → (k : Bytes) → beq (codes "Content-Type") k ≡ false
    → lookup k (insert (codes "Content-Type") t w) ≡ lookup k hd
other_headers t hd w kept k o = lookup-insert k (codes "Content-Type") t w ∙ rw o (kept k o)

module _ {p : Messages} (c : Config p) where
  pub put_msg-keeps :
      (P : Stream → Type 0)
      → ((s : Stream) (bs : List Bytes) → P s → P (record s { written = bs }))
      → (k : Coder p.Msg) (b : Bytes) → Triple P (put_msg c k b) P
  unfolding put_msg
  put_msg-keeps P h k b s q = elim (Bool-cases c.is_streaming_server) [
    | inl streams ↦ elim (Option-cases k.framing) [
      | inl plain ↦ rw (streams, put_msg, plain) q
      | inr (f, framed) ↦ elim (Option-cases (c.write (f.write_next b)).1) [
        | inl written ↦ rw (streams, put_msg, framed, written) (h s _ q)
        | inr (e, failed) ↦ rw (streams, put_msg, framed, failed) q
      ]
    ]
    | inr unary ↦ rw (unary, put_msg) (by_result (write_all c.max_send b c.write))
  ]
    where
      by_result : (r : Option WriteError) → P (written_by c r b s).1
      by_result none = h s _ q
      by_result (some e) = q

  -- A property that the headers keep, and what is written and counted does not touch.
  pub write_msg-keeps :
      (P : Stream → Type 0)
      → ((s : Stream) (bs : List Bytes) → P s → P (record s { written = bs }))
      → ((s : Stream) (n : ℕ) → P s → P (record s { send_count = n }))
      → ((t : Bytes) → Triple P (first_header c t) P)
      → (k : Coder p.Msg) (b : Bytes × Bytes) → Triple P (write_msg c k b) P
  unfolding write_msg
  write_msg-keeps P h n f k b =
      seq P P (first_header c b.1) (λ u. count_sent c >> put_msg c k b.0) (f b.1)
        (λ u.
          seq P P (count_sent c) (λ u. put_msg c k b.0) (λ t q. n t _ q)
            (λ u. put_msg-keeps P h k b.0))

  Sent-put_msg : (k : Coder p.Msg) (b : Bytes) → Triple Sent (put_msg c k b) Sent
  Sent-put_msg = put_msg-keeps Sent (λ s bs q. q)

  first_header-Sent : (t : Bytes) → Triple HeadersFirst (first_header c t) Sent
  unfolding first_header send_header
  first_header-Sent t s h = elim (Bool-cases s.sent_header) [
    | inl sent ↦ ground arith
    | inr unsent ↦ let (none_yet, empty) = h unsent in ground arith
  ]

  write_msg-HeadersFirst :
      (k : Coder p.Msg) (b : Bytes × Bytes) → Triple HeadersFirst (write_msg c k b) HeadersFirst
  unfolding write_msg
  write_msg-HeadersFirst k b s h = Sent-HeadersFirst (write_msg c k b s).1 (
      seq HeadersFirst Sent (first_header c b.1) (λ u. count_sent c >> put_msg c k b.0)
        (first_header-Sent b.1)
        (λ u.
          seq Sent Sent (count_sent c) (λ u. put_msg c k b.0) (λ t q. q) (λ u. Sent-put_msg k b.0))
        s h)

  first_header-SentWith :
      (md hd : Header) (t : Bytes) → Triple (SentWith md hd) (first_header c t) (SentWith md hd)
  unfolding first_header send_header
  first_header-SentWith md hd t s (sent, same, kept) =
      branch-keeps (SentWith md hd) (s.send_count == 0) _ _
        (taken (SentWith md hd) s.sent_header _ _ sent
          (sent, same, other_headers (t ∷ []) hd s.w_header kept))
        (sent, same, kept)

  write_msg-SentWith :
      (md hd : Header) (k : Coder p.Msg) (b : Bytes × Bytes)
      → Triple (SentWith md hd) (write_msg c k b) (SentWith md hd)
  write_msg-SentWith md hd =
      write_msg-keeps (SentWith md hd) (λ s bs q. q) (λ s n q. q) (first_header-SentWith md hd)

  pub send_msg-keeps :
      (P : Stream → Type 0)
      → ((k : Coder p.Msg) (b : Bytes × Bytes) → Triple P (write_msg c k b) P)
      → (m : p.Msg) → Triple P (send_msg c m) P
  unfolding send_msg send_by
  send_msg-keeps P h m =
      seq P P (or_raise (get_codec c c.accept (p.at c.resp m)) no_codec) (send_by c m)
        (or_raise-keeps P (get_codec c c.accept (p.at c.resp m)) no_codec)
        (λ k.
          seq P P (or_raise (encode_reply c k (p.at c.resp m)) marshal_failed) (write_msg c k)
            (or_raise-keeps P (encode_reply c k (p.at c.resp m)) marshal_failed) (h k))

module _ {p : Messages} (c : Config p) where
  counted_params-HeadersFirst :
      (o : Option p.Msg) (s : Stream) → HeadersFirst s → HeadersFirst (counted_params c o s).1
  counted_params-HeadersFirst none s h = h
  counted_params-HeadersFirst (some m) s h = h

  counted_params-SentWith :
      (md hd : Header) (o : Option p.Msg) (s : Stream)
      → SentWith md hd s
      → SentWith md hd (counted_params c o s).1
  counted_params-SentWith md hd none s q = q
  counted_params-SentWith md hd (some m) s q = q

  as_reader-HeadersFirst :
      (b : BodyCall) (m : p.Msg) (s : Stream)
      → HeadersFirst s
      → HeadersFirst (as_http_body_reader c b m s).1
  unfolding as_http_body_reader
  as_reader-HeadersFirst b m s h =
      elim (Option-cases (body_refusal c b c.is_streaming_client s.recv_count c.body m)) [
        | inl none_ ↦ rw (none_, as_http_body_reader) (counted_params-HeadersFirst _ s h)
        | inr (e, some_) ↦ rw (some_, as_http_body_reader) h
      ]

  as_reader-SentWith :
      (md hd : Header) (b : BodyCall) (m : p.Msg) (s : Stream)
      → SentWith md hd s
      → SentWith md hd (as_http_body_reader c b m s).1
  unfolding as_http_body_reader
  as_reader-SentWith md hd b m s q =
      elim (Option-cases (body_refusal c b c.is_streaming_client s.recv_count c.body m)) [
        | inl none_ ↦ rw (none_, as_http_body_reader) (counted_params-SentWith md hd _ s q)
        | inr (e, some_) ↦ rw (some_, as_http_body_reader) q
      ]

  open_writer-Sent : (m : p.Msg) (s : Stream) → Sent (open_writer c m s).1
  unfolding open_writer send_header
  open_writer-Sent m s = ground arith

  as_writer-HeadersFirst :
      (b : BodyCall) (m : p.Msg) (s : Stream)
      → HeadersFirst s
      → HeadersFirst (as_http_body_writer c b m s).1
  unfolding as_http_body_writer
  as_writer-HeadersFirst b m s h =
      elim (Option-cases (body_refusal c b c.is_streaming_server s.send_count c.resp m)) [
        | inl none_ ↦
            rw (none_, as_http_body_writer)
              (Sent-HeadersFirst (open_writer c m s).1 (open_writer-Sent m s))
        | inr (e, some_) ↦ rw (some_, as_http_body_writer) h
      ]

  open_writer-SentWith :
      (md hd : Header) (m : p.Msg) (s : Stream)
      → SentWith md hd s
      → SentWith md hd (open_writer c m s).1
  unfolding open_writer send_header
  open_writer-SentWith md hd m s (sent, same, kept) =
      rw (sent, open_writer) (refl, same, other_headers _ hd s.w_header kept)

  as_writer-SentWith :
      (md hd : Header) (b : BodyCall) (m : p.Msg) (s : Stream)
      → SentWith md hd s
      → SentWith md hd (as_http_body_writer c b m s).1
  unfolding as_http_body_writer
  as_writer-SentWith md hd b m s q =
      elim (Option-cases (body_refusal c b c.is_streaming_server s.send_count c.resp m)) [
        | inl none_ ↦ rw (none_, as_http_body_writer) (open_writer-SentWith md hd m s q)
        | inr (e, some_) ↦ rw (some_, as_http_body_writer) q
      ]

-- The calls of a handler on its stream.
pub data Call (p : Messages) : Type 0 where
  set_header_call send_header_call set_trailer_call : Header → Call p
  send_call recv_call : p.Msg → Call p
  reader_call writer_call : BodyCall → p.Msg → Call p

abbrev pub call : {p : Messages} → Config p → Call p → Stream → Stream
call c (set_header_call md) s = (set_header c md s).1
call c (send_header_call md) s = (send_header c md s).1
call c (set_trailer_call md) s = (set_trailer c md s).1
call c (send_call m) s = (send_msg c m s).1
call c (recv_call m) s = (recv_msg c m s).1
call c (reader_call b m) s = (as_http_body_reader c b m s).1
call c (writer_call b m) s = (as_http_body_writer c b m s).1

abbrev pub calls : {p : Messages} → Config p → List (Call p) → Stream → Stream
calls c [] s = s
calls c (x ∷ xs) s = calls c xs (call c x s)

call-HeadersFirst :
    {p : Messages} (c : Config p) (x : Call p) (s : Stream)
    → HeadersFirst s
    → HeadersFirst (call c x s)
unfolding set_header send_header set_trailer
call-HeadersFirst c (set_header_call md) s h = branch-keeps HeadersFirst s.sent_header _ _ h h
call-HeadersFirst c (send_header_call md) s h =
    branch-keeps HeadersFirst s.sent_header _ _ h (λ e. cc)
call-HeadersFirst c (set_trailer_call md) s h = h
call-HeadersFirst c (send_call m) s h =
    send_msg-keeps c HeadersFirst (write_msg-HeadersFirst c) m s h
call-HeadersFirst c (recv_call m) s h =
    let (a, b, d, e, g) = recv_msg-IsSame c s m s (refl, refl, refl, refl, refl) in
    λ unsent. let (n, w) = h (sym a ∙ unsent) in (b ∙ n, d ∙ w)
call-HeadersFirst c (reader_call b m) s h = as_reader-HeadersFirst c b m s h
call-HeadersFirst c (writer_call b m) s h = as_writer-HeadersFirst c b m s h

call-SentWith :
    {p : Messages} (c : Config p) (md hd : Header) (x : Call p) (s : Stream)
    → SentWith md hd s
    → SentWith md hd (call c x s)
unfolding set_header send_header set_trailer
call-SentWith c md hd (set_header_call new) s q = ground arith
call-SentWith c md hd (send_header_call new) s q = ground arith
call-SentWith c md hd (set_trailer_call new) s q = q
call-SentWith c md hd (send_call m) s q =
    send_msg-keeps c (SentWith md hd) (write_msg-SentWith c md hd) m s q
call-SentWith c md hd (recv_call m) s (sent, same, kept) =
    let (a, b, d, e, g) = recv_msg-IsSame c s m s (refl, refl, refl, refl, refl) in
    (a ∙ sent, e ∙ same, λ k o. ap (lookup k) g ∙ kept k o)
call-SentWith c md hd (reader_call b m) s q = as_reader-SentWith c md hd b m s q
call-SentWith c md hd (writer_call b m) s q = as_writer-SentWith c md hd b m s q

-- Whatever calls a handler makes, in whatever order and with whatever errors, its stream writes nothing
-- and counts no message before the headers are sent, if it starts that way.
pub calls-HeadersFirst :
    {p : Messages} (c : Config p) (xs : List (Call p)) (s : Stream)
    → HeadersFirst s
    → HeadersFirst (calls c xs s)
calls-HeadersFirst c [] s h = h
calls-HeadersFirst c (x ∷ xs) s h = calls-HeadersFirst c xs (call c x s) (call-HeadersFirst c x s h)

-- Once the headers are sent, they stay sent, and no calls of a handler change their metadata, or a
-- header of the response but for "Content-Type".
pub calls-SentWith :
    {p : Messages} (c : Config p) (md hd : Header) (xs : List (Call p)) (s : Stream)
    → SentWith md hd s
    → SentWith md hd (calls c xs s)
calls-SentWith c md hd [] s q = q
calls-SentWith c md hd (x ∷ xs) s q =
    calls-SentWith c md hd xs (call c x s) (call-SentWith c md hd x s q)
