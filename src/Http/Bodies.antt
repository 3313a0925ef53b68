-- ===== src/Http/Bodies.antt =====
-- `AsHTTPBodyReader` and `AsHTTPBodyWriter` of larking/http.go: a streamHTTP as the reader or the writer
-- of the bytes behind its first message.
use larking.Base.{
  ℕ, ◌+◌, not, Bool, Option, none, some, List, [], ◌∷◌, Bytes, codes, beq, ltb, if◌then◌else◌,
}
use larking.Rules.Tree.{insert}
use larking.Http.Action.{Messages, Config, Stream, StreamError, Result, ok, err, panic, wait}
use larking.Http.Stream.{send_header, http_body}

pub data BodyError : Type 0 where
  not_http not_streaming not_first wrong_message no_body params_failed : BodyError
  header_failed : StreamError → BodyError

-- The message's name that the method has, and whether the context holds a streamHTTP.
pub record BodyCall : Type 0 where
  pub is_http : Bool
  pub want : Bytes

module _ {p : Messages} (c : Config p) where
  open p use {Msg, Field, at, put_at, full_name, body_type, body_data, make_body, set_params}

  -- The errors before a message is touched.
  unfoldable pub body_refusal : BodyCall → Bool → ℕ → List Field → Msg → Option BodyError
  body_refusal call streams count path msg =
      if not call.is_http
      then some not_http
      else if not streams
      then some not_streaming
      else if ltb 0 count
      then some not_first
      else if not (beq (full_name msg) call.want)
      then some wrong_message
      else if not (beq (full_name (at path msg)) http_body)
      then some no_body
      else none

  abbrev pub counted_params : Option Msg → Stream → (Option BodyError × Option Msg) × Stream
  counted_params none s = ((some params_failed, none), s)
  counted_params (some m) s = ((none, some m), record s { recv_count = s.recv_count + 1 })

  -- The error or the message with its content type and params; the bytes are those of the stream's
  -- reader.
  unfoldable pub as_http_body_reader :
      BodyCall → Msg → Stream → (Option BodyError × Option Msg) × Stream
  unfolding body_refusal
  as_http_body_reader call msg s =
      let cur = at c.body msg in
      let typed = put_at c.body (make_body c.content_type (body_data cur) cur) msg in
      elim (body_refusal call c.is_streaming_client s.recv_count c.body msg) [
        | some e ↦ ((some e, none), s)
        | none ↦ counted_params (set_params c.params typed) s
      ]

  abbrev pub count_header : Result (Unit {0}) → Stream → Option BodyError × Stream
  count_header (ok a) s = (none, record s { send_count = s.send_count + 1 })
  count_header (err e) s = (some (header_failed e), s)
  count_header panic s = (none, s)
  count_header wait s = (none, s)

  -- The headers go out, with the content type of the message.
  unfoldable pub open_writer : Msg → Stream → Option BodyError × Stream
  unfolding send_header insert
  open_writer msg s =
      let s' : Stream = record s {
        w_header = insert (codes "Content-Type") (body_type (at c.resp msg) ∷ []) s.w_header;
      } in
      let (r, s'') = send_header c [] s' in
      if s.sent_header then count_header (ok tt) s' else count_header r s''

  unfoldable pub as_http_body_writer : BodyCall → Msg → Stream → Option BodyError × Stream
  unfolding body_refusal open_writer
  as_http_body_writer call msg s =
      elim (body_refusal call c.is_streaming_server s.send_count c.resp msg) [
        | some e ↦ (some e, s)
        | none ↦ open_writer msg s
      ]
