-- ===== src/Mux/Proxy/Unary.antt =====
-- The handler of `createConnHandler` in larking/mux.go for a method that does not stream. The connection,
-- the interceptor and the client's stream are parameters.
use larking.Base.{Option, some}
use larking.Mux.Settings.{intercepted}

-- A message, or an error.
pub data Answer (Msg Error : Type 0) : Type 0 where
  answered : Msg → Answer Msg Error
  failed : Error → Answer Msg Error

module _ {Metadata Msg Error : Type 0} where
  -- The call of the connection, with the incoming metadata as the outgoing.
  unfoldable pub invoke_conn :
      Option Metadata → (Option Metadata → Msg → Answer Msg Error) → Msg → Answer Msg Error
  invoke_conn incoming invoke args = elim (invoke incoming args) [
    | failed e ↦ failed e
    | answered reply ↦ answered reply
  ]

  -- The handler's error, on what RecvMsg returns.
  unfoldable pub serve_unary :
      Option ((Msg → Answer Msg Error) → Msg → Answer Msg Error)
      → Option Metadata
      → (Option Metadata → Msg → Answer Msg Error)
      → (Msg → Option Error)
      → Answer Msg Error
      → Option Error
  unfolding intercepted invoke_conn
  serve_unary interceptor incoming invoke send (failed e) = some e
  serve_unary interceptor incoming invoke send (answered args) =
      elim (intercepted interceptor (invoke_conn incoming invoke) args) [
        | failed e ↦ some e
        | answered reply ↦ send reply
      ]
