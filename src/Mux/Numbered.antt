-- ===== src/Mux/Numbered.antt =====
-- The numbers that the registrations of larking/handler.go and larking/mux.go give to handlers.
use larking.Base.{
  ℕ, ◌+◌, Option, none, some, List, [], ◌∷◌, ◌≡◌, refl, Bytes, beq, Bool-cases, Option-cases, inl,
  inr,
}
use larking.Lexer.Rune.{Tables}
use larking.Rules.Fields.{Descriptors}
use larking.Rules.Tree.{lookup}
use larking.Mux.Selector.{Selector}
use larking.Mux.Handlers.{
  Handler, State, Appended, appended, refused, bug, handlers_of, append_handler, remove_handler,
  clone_state,
}
use larking.Mux.Register.{
  MethodDesc, ServiceDesc, Registered, registered, no_service, no_method, rule_refused, rule_bug,
  method_name, register_methods, then_streams, register_service,
}
use larking.Mux.Reflection.{Reflection, read_all_services}
use larking.Mux.Connect.{
  read, of_appended, Work, create_conn_handler, find_hash, process_method, process_files, rebuild,
  is_current, add_read, add_conn_handler, register_conn,
}
use larking.Mux.Owned.{AllBelow, AllBelow-added}
use larking.Mux.Outcomes.{Holds, bind-Holds, read-Holds}
use larking.Mux.Connected.{
  IsAppended, append_handler-IsAppended, process_files-keeps, removed-AllBelow,
}

-- The numbers of all handlers are below the next one.
abbrev pub Numbered : {F M : Type 0} → State F M × ℕ → Type 0
Numbered (s, next) = (n : Bytes) → AllBelow next (handlers_of n s.handlers)

-- The same of a registration that succeeds.
abbrev pub NumberedResult : {F M : Type 0} → Registered F M → Type 0
NumberedResult (registered s next) = Numbered (s, next)
NumberedResult no_service = Unit
NumberedResult no_method = Unit
NumberedResult (rule_refused a) = Unit
NumberedResult (rule_bug a) = Unit

module _ (d : Descriptors) (u : Tables) (http_rules : Selector) (p : Reflection d.Message) where
  open d use {Field, Message}
  open p use {Stream, FileProto, known, order, sum}

  IsAppended-Numbered :
      (h : Handler Message) (s s' : State Field Message)
      → IsAppended h s s'
      → Numbered (s, h.id)
      → Numbered (s', h.id + 1)
  IsAppended-Numbered h s s' (e, k) q =
      λ n. rw (e n) (AllBelow-added h.id (beq h.method n) h (handlers_of n s.handlers) refl (q n))

  process_method-Numbered :
      (service name : Bytes) (md : MethodDesc Message) (w : Work Field Message)
      → Numbered (w.state, w.next)
      → Holds
          (λ w'. Numbered (w'.state, w'.next))
          (process_method d u http_rules p service name md w)
  unfolding process_method create_conn_handler
  process_method-Numbered service name md w q =
      let h = create_conn_handler w.next service name md in
      bind-Holds (λ w'. Numbered (w'.state, w'.next))
        (of_appended (append_handler d u http_rules md.annotation h w.state)) _
        (append_handler-IsAppended d u http_rules p md.annotation h w.state)
        (λ s r. IsAppended-Numbered h w.state s r q)

  rebuild-Numbered :
      (conn : ℕ) (fds : List (Bytes × FileProto)) (hash : Bytes) (stream : Stream)
      (s : State Field Message) (next : ℕ)
      → Numbered (s, next)
      → Holds Numbered (rebuild d u http_rules p conn fds hash stream s next)
  unfolding rebuild
  rebuild-Numbered conn fds hash stream s next q =
      bind-Holds Numbered (read known) _ (read-Holds known) (λ files _.
        bind-Holds Numbered
          (process_files d u http_rules p (order fds) (files, stream)
            (record { state = s; handlers = []; next = next }))
          _
          (process_files-keeps d u http_rules p (λ w. Numbered (w.state, w.next))
            process_method-Numbered (order fds) (files, stream)
            (record { state = s; handlers = []; next = next }) q)
          (λ w r. r))

  add_read-Numbered :
      (conn : ℕ) (fds : List (Bytes × FileProto)) (hash : Bytes) (stream : Stream)
      (s : State Field Message) (next : ℕ)
      → Numbered (s, next)
      → Holds Numbered (add_read d u http_rules p conn fds hash stream s next)
  unfolding add_read
  add_read-Numbered conn fds hash stream s next q =
      elim (Bool-cases (is_current d u http_rules p (find_hash conn s.conns) hash)) [
        | inl same ↦ rw (same, add_read) q
        | inr other ↦
            rw (other, add_read)
              (rebuild-Numbered conn fds hash stream (remove_handler conn s).0 next
                (removed-AllBelow d u http_rules p conn s next q))
      ]

  pub clone_state-Numbered :
      (s : Option (State Field Message)) (next : ℕ)
      → ((s' : State Field Message) → s ≡ some s' → Numbered (s', next))
      → Numbered (clone_state s, next)
  unfolding clone_state handlers_of lookup AllBelow
  clone_state-Numbered none next q = λ n. tt
  clone_state-Numbered (some s) next q = q s refl

  pub register_conn-Numbered :
      (conn : ℕ) (stream : Stream) (s : Option (State Field Message)) (next : ℕ)
      → ((s' : State Field Message) → s ≡ some s' → Numbered (s', next))
      → Holds Numbered (register_conn d u http_rules p conn stream s next)
  unfolding register_conn add_conn_handler
  register_conn-Numbered conn stream s next q =
      bind-Holds Numbered (read (read_all_services p stream)) _
        (read-Holds (read_all_services p stream))
        (λ x _.
          add_read-Numbered conn x.0.0 (sum x.0.1) x.1 (clone_state s) next
            (clone_state-Numbered s next q))

  register_methods-Numbered :
      (find : Bytes → Option (MethodDesc Message)) (service : Bytes) (ms : List Bytes) (next : ℕ)
      (s : State Field Message)
      → Numbered (s, next)
      → NumberedResult (register_methods d u http_rules find service ms next s)
  unfolding register_methods
  register_methods-Numbered find service [] next s q = q
  register_methods-Numbered find service (m ∷ ms) next s q = elim (Option-cases (find m)) [
    | inl missing ↦ rw (missing, register_methods) tt
    | inr (md, here) ↦
        let h : Handler Message = record {
          id = next;
          method = method_name service m;
          desc = md.full_name;
          input = md.input;
        } in
        rw (here, register_methods)
          (go h refl (append_handler d u http_rules md.annotation h s)
            (append_handler-IsAppended d u http_rules p md.annotation h s)
            (register_methods-Numbered find service ms (next + 1)))
  ]
    where
      go :
          (h : Handler Message)
          → h.id ≡ next
          → (a : Appended Field Message) → Holds (IsAppended h s) (of_appended a)
          → ((s' : State Field Message)
              → Numbered (s', next + 1)
              → NumberedResult (register_methods d u http_rules find service ms (next + 1) s'))
          → NumberedResult (elim a [
            | appended s' ↦ register_methods d u http_rules find service ms (next + 1) s'
            | refused e ↦ rule_refused e
            | bug e ↦ rule_bug e
          ])
      go h i (appended s') r later = later s' (rw i at (IsAppended-Numbered h s s' r (rw i q)))
      go h i (refused e) r later = tt
      go h i (bug e) r later = tt

  pub register_service-Numbered :
      (registry : Bytes → Option (Bytes → Option (MethodDesc Message))) (sd : ServiceDesc)
      (next : ℕ) (s : Option (State Field Message))
      → ((s' : State Field Message) → s ≡ some s' → Numbered (s', next))
      → NumberedResult (register_service d u http_rules registry sd next s)
  unfolding register_service
  register_service-Numbered registry sd next s q = elim (Option-cases (registry sd.service_name)) [
    | inl missing ↦ rw (missing, register_service) tt
    | inr (find, here) ↦
        rw (here, register_service)
          (streams find
            (register_methods d u http_rules find sd.service_name sd.methods next (clone_state s))
            (register_methods-Numbered find sd.service_name sd.methods next (clone_state s)
              (clone_state-Numbered s next q)))
  ]
    where
      streams :
          (find : Bytes → Option (MethodDesc Message)) (r : Registered Field Message)
          → NumberedResult r
          → NumberedResult (then_streams d u http_rules find sd r)
      streams find (registered s' next') k =
          register_methods-Numbered find sd.service_name sd.streams next' s' k
      streams find no_service k = tt
      streams find no_method k = tt
      streams find (rule_refused a) k = tt
      streams find (rule_bug a) k = tt
