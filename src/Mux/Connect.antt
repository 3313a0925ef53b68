-- ===== src/Mux/Connect.antt =====
-- `RegisterConn`, `addConnHandler` and `processFile` of larking/mux.go: the methods of a connection's
-- services become handlers of the mux.
use larking.Base.{
  ℕ, ◌+◌, Bool, false, Option, none, some, List, [], ◌∷◌, ◌++◌, Bytes, beq, ◌==◌, if◌then◌else◌,
}
use larking.Lexer.Rune.{Tables}
use larking.Rules.Fields.{Descriptors}
use larking.Rules.Add.{Added}
use larking.Mux.Selector.{Selector}
use larking.Mux.Handlers.{
  Handler, State, Appended, appended, refused, bug, append_handler, remove_handler, clone_state,
}
use larking.Mux.Register.{MethodDesc, method_name}
use larking.Mux.Reflection.{Reflection, read_all_services}

-- What a step ends with: an error of the stream or of a file, an error or the panic of a rule.
pub data Outcome (A : Type 0) : Type 0 where
  done : A → Outcome A
  unread : Outcome A
  bad_rule bad_implicit_rule : Added → Outcome A

infixl 5 ◌>>=◌
abbrev pub ◌>>=◌ : {A B : Type 0} → Outcome A → (A → Outcome B) → Outcome B
done a >>= f = f a
unread >>= f = unread
bad_rule e >>= f = bad_rule e
bad_implicit_rule e >>= f = bad_implicit_rule e

abbrev pub read : {A : Type 0} → Option A → Outcome A
read none = unread
read (some a) = done a

abbrev pub of_appended :
    {Field Message : Type 0} → Appended Field Message → Outcome (State Field Message)
of_appended (appended s) = done s
of_appended (refused a) = bad_rule a
of_appended (bug a) = bad_implicit_rule a

-- The state, the connection's handlers so far, and the number of the next one.
pub record Work (Field Message : Type 0) : Type 0 where
  pub state : State Field Message
  pub handlers : List (Handler Message)
  pub next : ℕ

-- `createConnHandler`, but for the function that forwards the calls.
unfoldable pub create_conn_handler :
    {Message : Type 0} → ℕ → Bytes → Bytes → MethodDesc Message → Handler Message
create_conn_handler next service name md = record {
  id = next;
  method = method_name service name;
  desc = md.full_name;
  input = md.input;
}

module _ {Message : Type 0} where
  -- s.conns[cc].fdHash
  unfoldable pub find_hash : ℕ → List (ℕ × List (Handler Message) × Bytes) → Option Bytes
  find_hash conn [] = none
  find_hash conn ((c, hs, hash) ∷ m) = if c == conn then some hash else find_hash conn m

  unfoldable pub put_conn :
      ℕ
      → List (Handler Message)
      → Bytes
      → List (ℕ × List (Handler Message) × Bytes)
      → List (ℕ × List (Handler Message) × Bytes)
  put_conn conn hs hash [] = (conn, hs, hash) ∷ []
  put_conn conn hs hash ((c, hs', hash') ∷ m) =
      if c == conn then (conn, hs, hash) ∷ m else (c, hs', hash') ∷ put_conn conn hs hash m

module _ (d : Descriptors) (u : Tables) (http_rules : Selector) (p : Reflection d.Message) where
  open d use {Field, Message}
  open p use {Stream, FileProto, File, services_of, known, new_file, order, sum}

  unfoldable pub process_method :
      Bytes → Bytes → MethodDesc Message → Work Field Message → Outcome (Work Field Message)
  unfolding append_handler create_conn_handler
  process_method service name md w =
      let h = create_conn_handler w.next service name md in
      do
        s ← of_appended (append_handler d u http_rules md.annotation h w.state)
        done (record { state = s; handlers = w.handlers ++ h ∷ []; next = w.next + 1 })

  unfoldable pub process_methods :
      Bytes → List (Bytes × MethodDesc Message) → Work Field Message → Outcome (Work Field Message)
  unfolding process_method
  process_methods service [] w = done w
  process_methods service ((name, md) ∷ mds) w =
      process_method service name md w >>= λ w'. process_methods service mds w'

  -- `processFile`, over the services of a file.
  unfoldable pub process_file :
      List (Bytes × List (Bytes × MethodDesc Message))
      → Work Field Message
      → Outcome (Work Field Message)
  unfolding process_methods
  process_file [] w = done w
  process_file ((service, mds) ∷ sds) w =
      process_methods service mds w >>= λ w'. process_file sds w'

  -- The loop over the descriptors.
  unfoldable pub process_files :
      List (Bytes × FileProto)
      → List (Bytes × File) × Stream
      → Work Field Message
      → Outcome (Work Field Message)
  unfolding process_file
  process_files [] r w = done w
  process_files ((name, fd) ∷ fds) r w = do
    (file, files, stream) ← read (new_file fd r)
    w' ← process_file (services_of file) w
    process_files fds (files, stream) w'

  -- The rest of `addConnHandler`, once the connection has no handler.
  unfoldable pub rebuild :
      ℕ
      → List (Bytes × FileProto)
      → Bytes
      → Stream
      → State Field Message
      → ℕ
      → Outcome (State Field Message × ℕ)
  unfolding process_files put_conn
  rebuild conn fds hash stream s next = do
    files ← read known
    w ← process_files (order fds) (files, stream) (record { state = s; handlers = []; next = next })
    done (record w.state { conns = put_conn conn w.handlers hash w.state.conns }, w.next)

  -- Is the hash of the connection, if it is known, the same?
  abbrev pub is_current : Option Bytes → Bytes → Bool
  is_current none hash = false
  is_current (some old) hash = beq old hash

  unfoldable pub add_read :
      ℕ
      → List (Bytes × FileProto)
      → Bytes
      → Stream
      → State Field Message
      → ℕ
      → Outcome (State Field Message × ℕ)
  unfolding rebuild find_hash remove_handler
  add_read conn fds hash stream s next =
      if is_current (find_hash conn s.conns) hash
      then done (s, next)
      else rebuild conn fds hash stream (remove_handler conn s).0 next

  unfoldable pub add_conn_handler :
      ℕ → Stream → State Field Message → ℕ → Outcome (State Field Message × ℕ)
  unfolding add_read read_all_services
  add_conn_handler conn stream s next = do
    ((fds, bytes), stream') ← read (read_all_services p stream)
    add_read conn fds (sum bytes) stream' s next

  -- `RegisterConn` on the copy of the state, which it stores where nothing fails.
  unfoldable pub register_conn :
      ℕ → Stream → Option (State Field Message) → ℕ → Outcome (State Field Message × ℕ)
  unfolding add_conn_handler clone_state
  register_conn conn stream s next = add_conn_handler conn stream (clone_state s) next

-- m.state after `RegisterConn`.
unfoldable pub store_connected :
    {Field Message : Type 0}
    → Outcome (State Field Message × ℕ)
    → Option (State Field Message)
    → Option (State Field Message)
store_connected (done (s', next)) s = some s'
store_connected unread s = s
store_connected (bad_rule a) s = s
store_connected (bad_implicit_rule a) s = s
