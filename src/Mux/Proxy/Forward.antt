-- ===== src/Mux/Proxy/Forward.antt =====
-- The handlers of `createConnHandler` in larking/mux.go. A call that streams is forwarded by two
-- goroutines: the handler itself, which passes the replies on, and one that passes on the messages of a
-- client that streams. The steps below are the calls of the two on their streams, in any order; what
-- a call on a stream returns is left open.
use larking.Base.{ℕ, Bool, true, false, Option, none, some, List, [], ◌∷◌, ◌++◌, ◌≡◌}

-- io.EOF, context.Canceled and other errors.
pub data Fault : Type 0 where
  eof canceled : Fault
  failed : ℕ → Fault

-- `isStreamError`; nil is `none`.
abbrev pub is_stream_error : Option Fault → Bool
is_stream_error none = false
is_stream_error (some eof) = false
is_stream_error (some canceled) = false
is_stream_error (some (failed n)) = true

-- How far the client's messages are passed on: the first by the handler, before the goroutine starts;
-- `over` where there is none, or none left.
pub data InPc (Msg : Type 0) : Type 0 where
  at_start over receiving : InPc Msg
  opening sending_first forwarding : Msg → InPc Msg
  in_done : Fault → InPc Msg

-- Where the handler stands with the replies: before its loop, in it, with the error that ends it, and
-- with what it returns.
pub data OutPc (Reply : Type 0) : Type 0 where
  before awaiting : OutPc Reply
  replying : Reply → OutPc Reply
  out_done returned : Option Fault → OutPc Reply

-- A call: what was received from the client and passed to the connection, and what came from the
-- connection and was answered to the client, in order.
pub record Call (Msg Reply : Type 0) : Type 0 where
  pub in_pc : InPc Msg
  pub out_pc : OutPc Reply
  pub got : List Msg
  pub passed : List Msg
  pub came : List Reply
  pub answered : List Reply
  pub trailer : Bool

-- IsStreamingClient and IsStreamingServer of the method
pub record Streaming : Type 0 where
  pub client : Bool
  pub server : Bool

-- The goroutine starts with the first message passed on, if the client streams.
abbrev pub started : {Msg : Type 0} → Bool → InPc Msg
started true = receiving
started false = over

-- After a reply, the next one if the server streams.
abbrev pub after_reply : {Reply : Type 0} → Bool → OutPc Reply
after_reply true = awaiting
after_reply false = out_done none

module _ {Msg Reply : Type 0} where
  abbrev pub new_call : Call Msg Reply
  new_call = record {
    in_pc = at_start;
    out_pc = before;
    got = [];
    passed = [];
    came = [];
    answered = [];
    trailer = false;
  }

  pub data Step (d : Streaming) (s : Call Msg Reply) : Call Msg Reply → Type 0 where
    first :
        (m : Msg)
        → s.in_pc ≡ at_start
        → s.out_pc ≡ before
        → Step d s (record s { in_pc = opening m; got = s.got ++ m ∷ [] })
    first_fails :
        (e : Fault)
        → s.in_pc ≡ at_start
        → s.out_pc ≡ before
        → Step d s (record s { in_pc = over; out_pc = returned (some e) })
    opens :
        (m : Msg)
        → s.in_pc ≡ opening m
        → s.out_pc ≡ before
        → Step d s (record s { in_pc = sending_first m })
    open_fails :
        (m : Msg) (e : Fault)
        → s.in_pc ≡ opening m
        → s.out_pc ≡ before
        → Step d s (record s { in_pc = over; out_pc = returned (some e) })
    first_sent :
        (m : Msg)
        → s.in_pc ≡ sending_first m
        → s.out_pc ≡ before
        → Step d s
            (record s { in_pc = started d.client; out_pc = awaiting; passed = s.passed ++ m ∷ [] })
    first_lost :
        (m : Msg) (e : Fault)
        → s.in_pc ≡ sending_first m
        → s.out_pc ≡ before
        → Step d s (record s { in_pc = over; out_pc = returned (some e) })
    in_recv :
        (m : Msg)
        → s.in_pc ≡ receiving
        → Step d s (record s { in_pc = forwarding m; got = s.got ++ m ∷ [] })
    in_recv_fails : (e : Fault) → s.in_pc ≡ receiving → Step d s (record s { in_pc = in_done e })
    in_send :
        (m : Msg)
        → s.in_pc ≡ forwarding m
        → Step d s (record s { in_pc = receiving; passed = s.passed ++ m ∷ [] })
    in_send_fails :
        (m : Msg) (e : Fault) → s.in_pc ≡ forwarding m → Step d s (record s { in_pc = in_done e })
    out_recv :
        (r : Reply)
        → s.out_pc ≡ awaiting
        → Step d s (record s { out_pc = replying r; came = s.came ++ r ∷ [] })
    out_recv_fails :
        (e : Fault) → s.out_pc ≡ awaiting → Step d s (record s { out_pc = out_done (some e) })
    out_send :
        (r : Reply)
        → s.out_pc ≡ replying r
        → Step d s (record s { out_pc = after_reply d.server; answered = s.answered ++ r ∷ [] })
    out_send_fails :
        (r : Reply) (e : Fault)
        → s.out_pc ≡ replying r
        → Step d s (record s { out_pc = out_done (some e) })
    returns_error :
        (o : Option Fault)
        → s.out_pc ≡ out_done o
        → is_stream_error o ≡ true
        → Step d s (record s { out_pc = returned o })
    -- `wg.Wait`, for a client that streams
    returns_in_error :
        (o : Option Fault) (e : Fault)
        → s.out_pc ≡ out_done o
        → is_stream_error o ≡ false
        → d.client ≡ true
        → s.in_pc ≡ in_done e
        → is_stream_error (some e) ≡ true
        → Step d s (record s { out_pc = returned (some e) })
    returns_joined :
        (o : Option Fault) (e : Fault)
        → s.out_pc ≡ out_done o
        → is_stream_error o ≡ false
        → d.client ≡ true
        → s.in_pc ≡ in_done e
        → is_stream_error (some e) ≡ false
        → Step d s (record s { out_pc = returned none; trailer = true })
    returns_alone :
        (o : Option Fault)
        → s.out_pc ≡ out_done o
        → is_stream_error o ≡ false
        → d.client ≡ false
        → Step d s (record s { out_pc = returned none; trailer = true })

  -- The calls that steps lead to from `s`.
  pub data Reach (d : Streaming) (s : Call Msg Reply) : Call Msg Reply → Type 0 where
    here : Reach d s s
    next : {t u : Call Msg Reply} → Reach d s t → Step d t u → Reach d s u
