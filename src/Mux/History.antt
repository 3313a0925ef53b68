-- ===== src/Mux/History.antt =====
-- The states of a mux in larking/mux.go, through registrations of services and of connections.
use larking.Base.{ℕ, Option, none, some, ◌≡◌, sym, Bytes}
use larking.Lexer.Rune.{Tables}
use larking.Rules.Fields.{Descriptors}
use larking.Mux.Selector.{Selector}
use larking.Mux.Handlers.{State, handlers_of, remove_handler, clone_state}
use larking.Mux.Register.{
  MethodDesc, ServiceDesc, Registered, registered, no_service, no_method, rule_refused, rule_bug,
  register_service, store_registered, drop_conn,
}
use larking.Mux.Reflection.{Reflection}
use larking.Mux.Connect.{
  Outcome, done, unread, bad_rule, bad_implicit_rule, register_conn, store_connected,
}
use larking.Mux.Outcomes.{Holds}
use larking.Mux.Connected.{add_conn_handler-remove_handler}
use larking.Mux.Numbered.{
  Numbered, NumberedResult, clone_state-Numbered, register_conn-Numbered, register_service-Numbered,
}

-- m.state, and the number of the next handler.
pub record History (F M : Type 0) : Type 0 where
  pub state : Option (State F M)
  pub next : ℕ

-- The number of the next handler; one that failed gives its numbers back.
abbrev pub next_of_service : {F M : Type 0} → Registered F M → ℕ → ℕ
next_of_service (registered s n) next = n
next_of_service no_service next = next
next_of_service no_method next = next
next_of_service (rule_refused a) next = next
next_of_service (rule_bug a) next = next

abbrev pub next_of_conn : {F M : Type 0} → Outcome (State F M × ℕ) → ℕ → ℕ
next_of_conn (done (s, n)) next = n
next_of_conn unread next = next
next_of_conn (bad_rule a) next = next
next_of_conn (bad_implicit_rule a) next = next

abbrev pub after_service : {F M : Type 0} → Registered F M → History F M → History F M
unfolding store_registered
after_service r m = record { state = store_registered r m.state; next = next_of_service r m.next }

abbrev pub after_conn : {F M : Type 0} → Outcome (State F M × ℕ) → History F M → History F M
unfolding store_connected
after_conn r m = record { state = store_connected r m.state; next = next_of_conn r m.next }

module _ (d : Descriptors) (u : Tables) (http_rules : Selector) (p : Reflection d.Message) where
  open d use {Field, Message}
  open p use {Stream}

  -- `RegisterService`, `RegisterConn` and `DropConn`, each under the lock of the mux.
  pub data Step (m : History Field Message) : History Field Message → Type 0 where
    registers :
        (registry : Bytes → Option (Bytes → Option (MethodDesc Message))) (sd : ServiceDesc)
        → Step m (after_service (register_service d u http_rules registry sd m.next m.state) m)
    connects :
        (conn : ℕ) (stream : Stream)
        → Step m (after_conn (register_conn d u http_rules p conn stream m.state m.next) m)
    drops : (conn : ℕ) → Step m (record m { state = (drop_conn conn m.state).0 })

  abbrev pub new_history : History Field Message
  new_history = record { state = none; next = 0 }

  pub data Past : History Field Message → Type 0 where
    start : Past new_history
    then_step : {m m' : History Field Message} → Past m → Step m m' → Past m'

  abbrev AllNumbered : History Field Message → Type 0
  AllNumbered m = (s : State Field Message) → m.state ≡ some s → Numbered (s, m.next)

  stored : {s s' : State Field Message} → some s ≡ some s' → s ≡ s'
  stored e = cc

  Step-AllNumbered : (m m' : History Field Message) → Step m m' → AllNumbered m → AllNumbered m'
  unfolding drop_conn store_registered store_connected
  Step-AllNumbered m m' (registers registry sd) q =
      go (register_service d u http_rules registry sd m.next m.state)
        (register_service-Numbered d u http_rules p registry sd m.next m.state q)
    where
      go : (r : Registered Field Message) → NumberedResult r → AllNumbered (after_service r m)
      go (registered s n) k = λ s' e. rw (sym (stored e)) k
      go no_service k = q
      go no_method k = q
      go (rule_refused a) k = q
      go (rule_bug a) k = q
  Step-AllNumbered m m' (connects conn stream) q =
      go (register_conn d u http_rules p conn stream m.state m.next)
        (register_conn-Numbered d u http_rules p conn stream m.state m.next q)
    where
      go : (r : Outcome (State Field Message × ℕ)) → Holds Numbered r → AllNumbered (after_conn r m)
      go (done (s, n)) k = λ s' e. rw (sym (stored e)) k
      go unread k = q
      go (bad_rule a) k = q
      go (bad_implicit_rule a) k = q
  Step-AllNumbered m m' (drops conn) q = q

  Past-AllNumbered : (m : History Field Message) → Past m → AllNumbered m
  Past-AllNumbered m start = λ s e. cc
  Past-AllNumbered m (then_step {m = k} r step) = Step-AllNumbered k m step (Past-AllNumbered k r)

  -- Whatever services and connections were registered before, with or without success: once a
  -- connection is registered, over older handlers of its own or not, its removal from the stored state
  -- leaves each method the handlers, in their order, that its removal from the state before leaves.
  pub register_conn-remove_handler :
      (m : History Field Message)
      → Past m
      → (conn : ℕ) (stream : Stream) (s' : State Field Message) (next' : ℕ)
      → register_conn d u http_rules p conn stream m.state m.next ≡ done (s', next')
      → (n : Bytes)
      → handlers_of n (remove_handler conn s').0.handlers
        ≡ handlers_of n (remove_handler conn (clone_state m.state)).0.handlers
  unfolding register_conn
  register_conn-remove_handler m r conn stream s' next' e n =
      add_conn_handler-remove_handler d u http_rules p conn stream (clone_state m.state) m.next s'
        next' (clone_state-Numbered d u http_rules p m.state m.next (Past-AllNumbered m r)) e n
