-- ===== src/Mux/Serving.antt =====
-- The methods that the registration of a service in larking/handler.go serves.
use mathlib.Core.List.{Memᴰ}
use larking.Base.{
  ℕ, ◌+◌, Bool, true, false, Option, none, some, List, [], ◌∷◌, ◌++◌, beq_self, ◌≡◌, ◌≢◌, Bytes,
  if◌then◌else◌, Option-cases, inl, inr,
}
use larking.Lexer.Rune.{Tables}
use larking.Rules.Fields.{Descriptors, HttpRule, split}
use larking.Rules.Tree.{Tree}
use larking.Rules.Add.{Added, is_nil, add_rule}
use larking.Mux.Selector.{Selector, get_rules}
use larking.Mux.Handlers.{
  Handler, State, Appended, appended, refused, bug, finish_append, append_handler,
  pick_method_handler, clone_state, add_rules, target, implicit_rule, to_list,
}
use larking.Mux.Register.{
  MethodDesc, ServiceDesc, Registered, registered, no_service, no_method, rule_refused, rule_bug,
  method_name, register_methods, then_streams, register_service,
}
use larking.Mux.Served.{
  put-served, mem-append, IsServed, Puts, Outcome, map-Outcome, of-Outcome, IsServed-picked,
  picked-IsServed,
}

module _ (d : Descriptors) (u : Tables) (http_rules : Selector) where
  open d use {Field, Message}

  append_handler-Puts :
      (annotated : Option HttpRule) (h : Handler Message) (s : State Field Message)
      → Puts h.method s (append_handler d u http_rules annotated h s)
  unfolding append_handler
  append_handler-Puts annotated h s =
      let first = add_rule d u (target d u h) (implicit_rule d u h) s.path in
      go (is_nil first.1)
        (add_rules d u (target d u h)
          (get_rules http_rules (split b'.' h.desc) ++ to_list d u annotated) first.0)
        first.1
    where
      go :
          (b : Bool) (x : Tree Field × Option Added) (a : Added)
          → Puts h.method s (if b then finish_append d u s h x else bug a)
      go false x a = tt
      go true (tree, some e) a = tt
      go true (tree, none) a = (
        (λ n q. put-served h s.handlers n (inr q)),
        put-served h s.handlers h.method (inl (beq_self h.method)),
      )

  -- A registration of methods keeps what was served, and serves them.
  abbrev Serves : Bytes → List Bytes → State Field Message → State Field Message → Type 0
  Serves service ms s s' =
      ((n : Bytes) → IsServed n s → IsServed n s')
      × ((m : Bytes) → Memᴰ m ms → IsServed (method_name service m) s')

  register_methods-Serves :
      (find : Bytes → Option (MethodDesc Message)) (service : Bytes) (ms : List Bytes) (next : ℕ)
      (s : State Field Message)
      → Outcome (Serves service ms s) (register_methods d u http_rules find service ms next s)
  unfolding register_methods
  register_methods-Serves find service [] next s = ((λ n q. q), (λ m i. elim i [ ]))
  register_methods-Serves find service (m ∷ ms) next s = elim (Option-cases (find m)) [
    | inl missing ↦ rw (missing, register_methods) tt
    | inr (md, here) ↦
        let h : Handler Message = record {
          id = next;
          method = method_name service m;
          desc = md.full_name;
          input = md.input;
        } in
        rw (here, register_methods)
          (go (append_handler d u http_rules md.annotation h s)
            (append_handler-Puts md.annotation h s)
            (register_methods-Serves find service ms (next + 1)))
  ]
    where
      member :
          (s' s'' : State Field Message)
          → Puts (method_name service m) s (appended s')
          → Serves service ms s' s''
          → (n : Bytes) → Memᴰ n (m ∷ ms)
          → IsServed (method_name service n) s''
      member s' s'' (keeps, put) (later, serves) n (Memᴰ.head e) =
          rw e (later (method_name service m) put)
      member s' s'' (keeps, put) (later, serves) n (Memᴰ.tail i) = serves n i

      go :
          (a : Appended Field Message)
          → Puts (method_name service m) s a
          → ((s' : State Field Message)
              → Outcome
                  (Serves service ms s')
                  (register_methods d u http_rules find service ms (next + 1) s'))
          → Outcome (Serves service (m ∷ ms) s) (elim a [
            | appended s' ↦ register_methods d u http_rules find service ms (next + 1) s'
            | refused e ↦ rule_refused e
            | bug e ↦ rule_bug e
          ])
      go (appended s') (keeps, put) later =
          map-Outcome (λ s'' q. ((λ n p. q.0 n (keeps n p)), member s' s'' (keeps, put) q))
            (register_methods d u http_rules find service ms (next + 1) s') (later s')
      go (refused e) p later = tt
      go (bug e) p later = tt

  then_streams-Serves :
      (find : Bytes → Option (MethodDesc Message)) (sd : ServiceDesc) (s : State Field Message)
      (r : Registered Field Message)
      → Outcome (Serves sd.service_name sd.methods s) r
      → Outcome
          (Serves sd.service_name (sd.methods ++ sd.streams) s)
          (then_streams d u http_rules find sd r)
  then_streams-Serves find sd s (registered s' next) (keeps, serves) =
      map-Outcome
        (λ s'' q. (
          (λ n p. q.0 n (keeps n p)),
          (λ m i. elim (mem-append m sd.methods sd.streams i) [
            | inl old ↦ q.0 (method_name sd.service_name m) (serves m old)
            | inr new ↦ q.1 m new
          ]),
        ))
        (register_methods d u http_rules find sd.service_name sd.streams next s')
        (register_methods-Serves find sd.service_name sd.streams next s')
  then_streams-Serves find sd s no_service p = tt
  then_streams-Serves find sd s no_method p = tt
  then_streams-Serves find sd s (rule_refused a) p = tt
  then_streams-Serves find sd s (rule_bug a) p = tt

  register_service-Serves :
      (registry : Bytes → Option (Bytes → Option (MethodDesc Message))) (sd : ServiceDesc)
      (next : ℕ) (s : Option (State Field Message))
      → Outcome
          (Serves sd.service_name (sd.methods ++ sd.streams) (clone_state s))
          (register_service d u http_rules registry sd next s)
  unfolding register_service
  register_service-Serves registry sd next s = elim (Option-cases (registry sd.service_name)) [
    | inl missing ↦ rw (missing, register_service) tt
    | inr (find, here) ↦
        rw (here, register_service)
          (then_streams-Serves find sd (clone_state s)
            (register_methods d u http_rules find sd.service_name sd.methods next (clone_state s))
            (register_methods-Serves find sd.service_name sd.methods next (clone_state s)))
  ]

  -- After a registration that succeeds, every method and every stream of the service is served: a
  -- handler is picked for it, whatever number is drawn.
  pub register_service-picked :
      (registry : Bytes → Option (Bytes → Option (MethodDesc Message))) (sd : ServiceDesc)
      (next : ℕ) (s : Option (State Field Message)) (s' : State Field Message) (next' : ℕ)
      → register_service d u http_rules registry sd next s ≡ registered s' next'
      → (m : Bytes) → Memᴰ m (sd.methods ++ sd.streams)
      → (draw : ℕ) → pick_method_handler draw (method_name sd.service_name m) (some s') ≢ none
  register_service-picked registry sd next s s' next' e m i draw =
      let (keeps, serves) =
        of-Outcome (Serves sd.service_name (sd.methods ++ sd.streams) (clone_state s)) _ s' next' e
          (register_service-Serves registry sd next s) in
      IsServed-picked draw (method_name sd.service_name m) s' (serves m i)

  -- A registration that succeeds keeps what was served: a method that had a handler to pick has one.
  pub register_service-keeps :
      (registry : Bytes → Option (Bytes → Option (MethodDesc Message))) (sd : ServiceDesc)
      (next : ℕ) (s s' : State Field Message) (next' : ℕ)
      → register_service d u http_rules registry sd next (some s) ≡ registered s' next'
      → (name : Bytes) (draw : ℕ) → pick_method_handler draw name (some s) ≢ none
      → pick_method_handler draw name (some s') ≢ none
  unfolding clone_state
  register_service-keeps registry sd next s s' next' e name draw q =
      let (keeps, serves) =
        of-Outcome (Serves sd.service_name (sd.methods ++ sd.streams) (clone_state (some s))) _ s'
          next' e (register_service-Serves registry sd next (some s)) in
      IsServed-picked draw name s' (keeps name (picked-IsServed draw name s q))
