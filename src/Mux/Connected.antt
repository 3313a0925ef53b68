-- ===== src/Mux/Connected.antt =====
-- What `addConnHandler` of larking/mux.go adds, and that `removeHandler` takes it away.
use larking.Base.{
  ℕ, ◌≤◌, Bool, true, false, Option, none, some, List, [], ◌∷◌, ◌++◌, ◌≡◌, refl, sym, ap, ◌∙◌, ◌==◌,
  if◌then◌else◌, Bytes, beq, Bool-cases, append-nil, append_assoc, inl, inr, arith, beq_iff,
  eq_self,
}
use larking.Lexer.Rune.{Tables}
use larking.Rules.Fields.{Descriptors, HttpRule, split}
use larking.Rules.Tree.{Tree, insert}
use larking.Rules.Add.{Added, is_nil, add_rule}
use larking.Mux.Selector.{Selector, get_rules}
use larking.Mux.Handlers.{
  Handler, State, bug, or_nil, handlers_of, find_conn, finish_append, append_handler,
  remove_handler, add_rules, target, implicit_rule, to_list,
}
use larking.Mux.Removal.{lookup-insert, remove_handler_lem}
use larking.Mux.Register.{MethodDesc}
use larking.Mux.Reflection.{Reflection, read_all_services}
use larking.Mux.Connect.{
  done, read, of_appended, Work, create_conn_handler, find_hash, put_conn, process_method,
  process_methods, process_file, process_files, rebuild, is_current, add_read, add_conn_handler,
}
use larking.Mux.Owned.{
  own, AllBelow, AllFrom, own-append, AllFrom-append, AllBelow-kept, kept-own_added,
}
use larking.Mux.Outcomes.{Holds, bind-Holds, read-Holds, of_done}

put-handlers_of :
    {M : Type 0} (n : Bytes) (h : Handler M) (m : List (Bytes × List (Handler M)))
    → handlers_of n (insert h.method (handlers_of h.method m ++ h ∷ []) m)
      ≡ handlers_of n m ++ (if beq h.method n then h ∷ [] else [])
unfolding handlers_of
put-handlers_of n h m =
    ap or_nil (lookup-insert n h.method (handlers_of h.method m ++ h ∷ []) m)
    ∙ elim (Bool-cases (beq h.method n)) [
      | inl same ↦ rw (same, (beq_iff h.method n).0 same) refl
      | inr other ↦ rw other (sym (append-nil (handlers_of n m)))
    ]

find_conn-put_conn :
    {M : Type 0} (conn : ℕ) (hs : List (Handler M)) (hash : Bytes)
    (m : List (ℕ × List (Handler M) × Bytes))
    → find_conn conn (put_conn conn hs hash m) ≡ some hs
unfolding find_conn put_conn
find_conn-put_conn conn hs hash [] = rw (eq_self conn) refl
find_conn-put_conn conn hs hash ((c, hs', hash') ∷ m) = elim (Bool-cases (c == conn)) [
  | inl same ↦ rw (same, eq_self conn) refl
  | inr other ↦ rw (other, other) (find_conn-put_conn conn hs hash m)
]

module _ {F M : Type 0} where
  -- The handlers of each method are the old ones and then the connection's own, whose numbers are
  -- new; no connection is touched.
  pub record Adds (before : State F M) (first : ℕ) (w : Work F M) : Type 0 where
    pub added :
        (n : Bytes)
        → handlers_of n w.state.handlers ≡ handlers_of n before.handlers ++ own n w.handlers
    pub new : AllFrom first w.handlers
    pub grows : first ≤ w.next
    pub conns : w.state.conns ≡ before.conns

  abbrev pub IsAppended : Handler M → State F M → State F M → Type 0
  IsAppended h s s' =
      ((n : Bytes)
        → handlers_of n s'.handlers
          ≡ handlers_of n s.handlers ++ (if beq h.method n then h ∷ [] else []))
      × (s'.conns ≡ s.conns)

starts :
    {F M : Type 0} (before : State F M) (first : ℕ)
    → Adds before first (record { state = before; handlers = []; next = first })
unfolding own AllFrom
starts before first = record {
  added = λ n. sym (append-nil (handlers_of n before.handlers));
  new = tt;
  grows = omega arith;
  conns = refl;
}

module _ (d : Descriptors) (u : Tables) (http_rules : Selector) (p : Reflection d.Message) where
  open d use {Field, Message}
  open p use {Stream, FileProto, File, services_of, known, new_file, order, sum}

  pub append_handler-IsAppended :
      (annotated : Option HttpRule) (h : Handler Message) (s : State Field Message)
      → Holds (IsAppended h s) (of_appended (append_handler d u http_rules annotated h s))
  unfolding append_handler
  append_handler-IsAppended annotated h s =
      let first = add_rule d u (target d u h) (implicit_rule d u h) s.path in
      go (is_nil first.1)
        (add_rules d u (target d u h)
          (get_rules http_rules (split b'.' h.desc) ++ to_list d u annotated) first.0)
        first.1
    where
      go :
          (b : Bool) (x : Tree Field × Option Added) (a : Added)
          → Holds (IsAppended h s) (of_appended (if b then finish_append d u s h x else bug a))
      go false x a = tt
      go true (tree, some e) a = tt
      go true (tree, none) a = ((λ n. put-handlers_of n h s.handlers), refl)

  module _ (before : State Field Message) (first : ℕ) where
    process_method-Adds :
        (service name : Bytes) (md : MethodDesc Message) (w : Work Field Message)
        → Adds before first w
        → Holds (Adds before first) (process_method d u http_rules p service name md w)
    unfolding process_method create_conn_handler
    process_method-Adds service name md w q =
        let h = create_conn_handler w.next service name md in
        bind-Holds (Adds before first)
          (of_appended (append_handler d u http_rules md.annotation h w.state)) _
          (append_handler-IsAppended md.annotation h w.state)
          (λ s r. record {
            added = λ n.
                r.0 n
                ∙ ap (λ t. t ++ (if beq h.method n then h ∷ [] else [])) (q.added n)
                ∙ append_assoc (handlers_of n before.handlers) (own n w.handlers) _
                ∙ ap (λ t. handlers_of n before.handlers ++ t) (sym (own-append n w.handlers h));
            new = AllFrom-append first w.handlers h q.new q.grows;
            grows = let le = q.grows in omega arith;
            conns = r.1 ∙ q.conns;
          })

  -- What each method keeps, all files keep.
  module _ (Q : Work Field Message → Type 0)
      (keeps : (service name : Bytes) (md : MethodDesc Message) (w : Work Field Message)
        → Q w
        → Holds Q (process_method d u http_rules p service name md w)) where
    process_methods-keeps :
        (service : Bytes) (mds : List (Bytes × MethodDesc Message)) (w : Work Field Message)
        → Q w
        → Holds Q (process_methods d u http_rules p service mds w)
    unfolding process_methods
    process_methods-keeps service [] w q = q
    process_methods-keeps service ((name, md) ∷ mds) w q =
        bind-Holds Q (process_method d u http_rules p service name md w) _
          (keeps service name md w q) (process_methods-keeps service mds)

    process_file-keeps :
        (sds : List (Bytes × List (Bytes × MethodDesc Message))) (w : Work Field Message)
        → Q w
        → Holds Q (process_file d u http_rules p sds w)
    unfolding process_file
    process_file-keeps [] w q = q
    process_file-keeps ((service, mds) ∷ sds) w q =
        bind-Holds Q (process_methods d u http_rules p service mds w) _
          (process_methods-keeps service mds w q) (process_file-keeps sds)

    pub process_files-keeps :
        (fds : List (Bytes × FileProto)) (r : List (Bytes × File) × Stream) (w : Work Field Message)
        → Q w
        → Holds Q (process_files d u http_rules p fds r w)
    unfolding process_files
    process_files-keeps [] r w q = q
    process_files-keeps ((name, fd) ∷ fds) r w q =
        bind-Holds Q (read (new_file fd r)) _ (read-Holds (new_file fd r)) (λ x _.
          bind-Holds Q (process_file d u http_rules p (services_of x.0) w) _
            (process_file-keeps (services_of x.0) w q) (process_files-keeps fds (x.1, x.2)))

  -- Without the connection, each method has the handlers that it had before.
  abbrev IsUndone : ℕ → State Field Message → State Field Message × ℕ → Type 0
  IsUndone conn before (s, next) =
      (n : Bytes) → handlers_of n (remove_handler conn s).0.handlers ≡ handlers_of n before.handlers

  Adds-IsUndone :
      (conn : ℕ) (hash : Bytes) (before : State Field Message) (first : ℕ) (w : Work Field Message)
      → ((n : Bytes) → AllBelow first (handlers_of n before.handlers))
      → Adds before first w
      → IsUndone conn before
          (record w.state { conns = put_conn conn w.handlers hash w.state.conns }, w.next)
  Adds-IsUndone conn hash before first w below q n =
      remove_handler_lem conn n
        (record w.state { conns = put_conn conn w.handlers hash w.state.conns })
      ∙ rw (find_conn-put_conn conn w.handlers hash w.state.conns, q.added n)
          (kept-own_added n first w.handlers (handlers_of n before.handlers) q.new (below n))

  rebuild-IsUndone :
      (conn : ℕ) (fds : List (Bytes × FileProto)) (hash : Bytes) (stream : Stream)
      (before : State Field Message) (first : ℕ)
      → ((n : Bytes) → AllBelow first (handlers_of n before.handlers))
      → Holds (IsUndone conn before) (rebuild d u http_rules p conn fds hash stream before first)
  unfolding rebuild
  rebuild-IsUndone conn fds hash stream before first below =
      bind-Holds (IsUndone conn before) (read known) _ (read-Holds known) (λ files _.
        bind-Holds (IsUndone conn before)
          (process_files d u http_rules p (order fds) (files, stream)
            (record { state = before; handlers = []; next = first }))
          _
          (process_files-keeps (Adds before first) (process_method-Adds before first) (order fds)
            (files, stream) (record { state = before; handlers = []; next = first })
            (starts before first))
          (λ w q. Adds-IsUndone conn hash before first w below q))

  pub removed-AllBelow :
      (conn : ℕ) (s : State Field Message) (next : ℕ)
      → ((n : Bytes) → AllBelow next (handlers_of n s.handlers))
      → (n : Bytes) → AllBelow next (handlers_of n (remove_handler conn s).0.handlers)
  removed-AllBelow conn s next below n =
      rw (remove_handler_lem conn n s) (
        AllBelow-kept n next (or_nil (find_conn conn s.conns)) (handlers_of n s.handlers) (below n))

  add_read-IsUndone :
      (conn : ℕ) (fds : List (Bytes × FileProto)) (hash : Bytes) (stream : Stream)
      (s : State Field Message) (next : ℕ)
      → ((n : Bytes) → AllBelow next (handlers_of n s.handlers))
      → Holds
          (IsUndone conn (remove_handler conn s).0)
          (add_read d u http_rules p conn fds hash stream s next)
  unfolding add_read
  add_read-IsUndone conn fds hash stream s next below =
      elim (Bool-cases (is_current d u http_rules p (find_hash conn s.conns) hash)) [
        | inl same ↦ rw (same, add_read) (λ n. refl)
        | inr other ↦
            rw (other, add_read)
              (rebuild-IsUndone conn fds hash stream (remove_handler conn s).0 next
                (removed-AllBelow conn s next below))
      ]

  -- A connection whose handlers were added, over an older set of its own or not, and that is then
  -- removed leaves each method the handlers that the removal alone leaves it, if the numbers that
  -- the mux has given to handlers so far are below the next one.
  pub add_conn_handler-remove_handler :
      (conn : ℕ) (stream : Stream) (s : State Field Message) (next : ℕ) (s' : State Field Message)
      (next' : ℕ)
      → ((n : Bytes) → AllBelow next (handlers_of n s.handlers))
      → add_conn_handler d u http_rules p conn stream s next ≡ done (s', next')
      → (n : Bytes)
      → handlers_of n (remove_handler conn s').0.handlers
        ≡ handlers_of n (remove_handler conn s).0.handlers
  unfolding add_conn_handler
  add_conn_handler-remove_handler conn stream s next s' next' below e =
      of_done (IsUndone conn (remove_handler conn s).0)
        (add_conn_handler d u http_rules p conn stream s next) (s', next') e
        (bind-Holds (IsUndone conn (remove_handler conn s).0) (read (read_all_services p stream)) _
          (read-Holds (read_all_services p stream))
          (λ x _. add_read-IsUndone conn x.0.0 (sum x.0.1) x.1 s next below))
