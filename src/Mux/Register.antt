-- ===== src/Mux/Register.antt =====
-- `registerService` of larking/handler.go, and the stores of the state in larking/mux.go. The registry
-- of descriptors is a parameter.
use larking.Base.{ℕ, ◌+◌, Bool, Option, none, some, List, [], ◌∷◌, ◌++◌, Bytes}
use larking.Lexer.Rune.{Tables}
use larking.Rules.Fields.{Descriptors, HttpRule}
use larking.Rules.Add.{Added}
use larking.Mux.Selector.{Selector}
use larking.Mux.Handlers.{
  Handler, State, appended, refused, bug, append_handler, remove_handler, clone_state,
}

-- The descriptor of a method: its full name, its input and its annotation.
pub record MethodDesc (Message : Type 0) : Type 0 where
  pub full_name : Bytes
  pub input : Message
  pub annotation : Option HttpRule

-- A grpc.ServiceDesc: the names of its methods and of its streams.
pub record ServiceDesc : Type 0 where
  pub service_name : Bytes
  pub methods : List Bytes
  pub streams : List Bytes

-- What a registration ends with, and the number of the next handler.
pub data Registered (Field Message : Type 0) : Type 0 where
  registered : State Field Message → ℕ → Registered Field Message
  no_service no_method : Registered Field Message
  rule_refused rule_bug : Added → Registered Field Message

abbrev pub method_name : Bytes → Bytes → Bytes
method_name service method = b'/' ∷ (service ++ b'/' ∷ method)

module _ (d : Descriptors) (u : Tables) (http_rules : Selector) where
  open d use {Field, Message}

  -- The loop over the methods of a service.
  unfoldable pub register_methods :
      (Bytes → Option (MethodDesc Message))
      → Bytes
      → List Bytes
      → ℕ
      → State Field Message
      → Registered Field Message
  unfolding append_handler
  register_methods find service [] next s = registered s next
  register_methods find service (m ∷ ms) next s = elim (find m) [
    | none ↦ no_method
    | some md ↦
        let h : Handler Message = record {
          id = next;
          method = method_name service m;
          desc = md.full_name;
          input = md.input;
        } in
        elim (append_handler d u http_rules md.annotation h s) [
          | appended s' ↦ register_methods find service ms (next + 1) s'
          | refused a ↦ rule_refused a
          | bug a ↦ rule_bug a
        ]
  ]

  abbrev pub then_streams :
      (Bytes → Option (MethodDesc Message))
      → ServiceDesc
      → Registered Field Message
      → Registered Field Message
  then_streams find sd (registered s next) = register_methods find sd.service_name sd.streams next s
  then_streams find sd no_service = no_service
  then_streams find sd no_method = no_method
  then_streams find sd (rule_refused a) = rule_refused a
  then_streams find sd (rule_bug a) = rule_bug a

  -- `registerService` on a copy of the state.
  unfoldable pub register_service :
      (Bytes → Option (Bytes → Option (MethodDesc Message)))
      → ServiceDesc
      → ℕ
      → Option (State Field Message)
      → Registered Field Message
  unfolding register_methods clone_state
  register_service registry sd next s = elim (registry sd.service_name) [
    | none ↦ no_service
    | some find ↦
        then_streams find sd (register_methods find sd.service_name sd.methods next (clone_state s))
  ]

-- m.state: a registration that fails stores nothing.
unfoldable pub store_registered :
    {Field Message : Type 0}
    → Registered Field Message
    → Option (State Field Message)
    → Option (State Field Message)
store_registered (registered s' next) s = some s'
store_registered no_service s = s
store_registered no_method s = s
store_registered (rule_refused a) s = s
store_registered (rule_bug a) s = s

-- `DropConn` removes the handlers from a copy of the state, and stores nothing.
unfoldable pub drop_conn :
    {Field Message : Type 0}
    → ℕ
    → Option (State Field Message)
    → Option (State Field Message) × Bool
unfolding remove_handler clone_state
drop_conn conn s = (s, (remove_handler conn (clone_state s)).1)
