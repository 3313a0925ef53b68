-- ===== src/Http/Websocket.antt =====
-- streamWS of larking/websocket.go, and the end of a WebSocket in `serveHTTP` of larking/http.go. The
-- connection, its frames and protojson are parameters.
use larking.Base.{
  ℕ, ◌+◌, Bool, true, false, Option, none, some, List, [], ◌∷◌, ◌++◌, ◌==◌, Bytes, if◌then◌else◌,
}
use larking.Grpc.Headers.{Header}
use larking.Codes.{ws_status_code}
use larking.Grpc.Serve.{Status}
use larking.Http.Action.{Messages, Metadata}

-- A streamWS: the messages that the client has sent and that are not yet read, and those written.
pub record WsStream : Type 0 where
  pub header : Header
  pub trailer : Header
  pub recv_n : ℕ
  pub send_n : ℕ
  pub sent_header : Bool
  pub incoming : List Bytes
  pub outgoing : List Bytes

pub data WsError : Type 0 where
  ws_marshal ws_write ws_read ws_unmarshal ws_params : WsError

pub record WsConfig (p : Messages) : Type 0 where
  pub metadata : Metadata
  pub marshal : p.Msg → Option Bytes
  pub unmarshal : Bytes → p.Msg → Option p.Msg
  pub write_fails : Bytes → Bool
  pub body : List p.Field
  pub resp : List p.Field
  pub has_body : Bool
  pub params : p.Params

module _ {p : Messages} (c : WsConfig p) where
  open p use {Msg, at, put_at, set_params}

  unfoldable pub set_header : Header → WsStream → WsStream
  set_header md s = if s.sent_header then s else record s { header = c.metadata.join s.header md }

  unfoldable pub send_header : Header → WsStream → WsStream
  send_header md s = record s { sent_header = true }

  unfoldable pub set_trailer : Header → WsStream → WsStream
  set_trailer md s = record s { sent_header = true; trailer = c.metadata.join s.trailer md }

  unfoldable pub send_msg : Msg → WsStream → Option WsError × WsStream
  send_msg m s =
      let counted : WsStream = record s { send_n = s.send_n + 1 } in
      elim (c.marshal (at c.resp m)) [
        | none ↦ (some ws_marshal, counted)
        | some b ↦
            if c.write_fails b
            then (some ws_write, counted)
            else (none, record counted { outgoing = s.outgoing ++ b ∷ [] })
      ]

  -- A message of the client, or the error of a connection that has none left.
  unfoldable pub read_body : Msg → WsStream → (Option WsError × Msg) × WsStream
  read_body m s = elim s.incoming [
    | [] ↦ ((some ws_read, m), s)
    | b ∷ bs ↦ elim (c.unmarshal b (at c.body m)) [
      | none ↦ ((some ws_unmarshal, m), record s { incoming = bs })
      | some cur ↦ ((none, put_at c.body cur m), record s { incoming = bs })
    ]
  ]

  abbrev pub first_params : Bool → Msg → Option WsError × Msg
  first_params false m = (none, m)
  first_params true m = elim (set_params c.params m) [
    | none ↦ (some ws_params, m)
    | some m' ↦ (none, m')
  ]

  -- `RecvMsg` of a method with a body, once counted.
  unfoldable pub recv_body : Bool → Msg → WsStream → (Option WsError × Msg) × WsStream
  unfolding read_body
  recv_body first m s =
      let ((e, m'), s') = read_body m s in
      (elim e [ some x ↦ (some x, m') | none ↦ first_params first m' ], s')

  unfoldable pub recv_msg : Msg → WsStream → (Option WsError × Msg) × WsStream
  unfolding recv_body
  recv_msg m s =
      let counted : WsStream = record s { recv_n = s.recv_n + 1 } in
      if c.has_body
      then recv_body (counted.recv_n == 1) m counted
      else (first_params (counted.recv_n == 1) m, counted)

-- The frame that ends a WebSocket; a code without a status panics.
pub data Close : Type 0 where
  empty_close close_panics : Close
  close : ℕ → Bytes → Close

unfoldable pub close_frame : Option Status → Close
unfolding ws_status_code
close_frame none = empty_close
close_frame (some st) = elim (ws_status_code st.code) [
  | none ↦ close_panics
  | some n ↦ close n st.text
]
