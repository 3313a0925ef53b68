-- ===== src/Mux/Handlers.antt =====
-- The `state` of larking/mux.go: the tree of rules, the connections and the handlers of each method.
-- A handler is told from another by its number, as the source tells pointers apart.
use larking.Base.{
  ℕ, ◌%◌, Bool, true, false, Option, none, some, List, [], ◌∷◌, ◌++◌, ◌==◌, if◌then◌else◌, Bytes,
  codes, beq, length, get_elem?,
}
use larking.Lexer.Rune.{Tables}
use larking.Rules.Fields.{Descriptors, custom, HttpRule, split}
use larking.Rules.Tree.{Tree, new_path, clone, lookup, insert}
use larking.Rules.Add.{Target, Added, is_nil, add_rule}
use larking.Rules.Delete.{del_rule}
use larking.Mux.Selector.{Selector, get_rules}

pub record Handler (Message : Type 0) : Type 0 where
  pub id : ℕ
  pub method : Bytes
  pub desc : Bytes
  pub input : Message

pub record State (Field Message : Type 0) : Type 0 where
  pub path : Tree Field
  pub conns : List (ℕ × List (Handler Message) × Bytes)
  pub handlers : List (Bytes × List (Handler Message))

-- A map's deletion.
unfoldable pub remove_key {ℓ} : {V : Type ℓ} → Bytes → List (Bytes × V) → List (Bytes × V)
remove_key k [] = []
remove_key k ((j, v) ∷ m) = if beq j k then remove_key k m else (j, v) ∷ remove_key k m

-- s.handlers[name], which is nil where it is missing.
abbrev pub or_nil {ℓ} : {A : Type ℓ} → Option (List A) → List A
or_nil none = []
or_nil (some xs) = xs

unfoldable pub handlers_of :
    {Message : Type 0} → Bytes → List (Bytes × List (Handler Message)) → List (Handler Message)
unfolding lookup
handlers_of name m = or_nil (lookup name m)

-- The handlers but `hd`.
unfoldable pub without : {Message : Type 0} → ℕ → List (Handler Message) → List (Handler Message)
without i [] = []
without i (h ∷ hs) = if h.id == i then without i hs else h ∷ without i hs

-- What `appendHandler` ends with: the state, an error, or the panic on its implicit rule.
pub data Appended (Field Message : Type 0) : Type 0 where
  appended : State Field Message → Appended Field Message
  refused : Added → Appended Field Message
  bug : Added → Appended Field Message

module _ (d : Descriptors) (u : Tables) where
  open d use {Field, Message}

  abbrev pub implicit_rule : Handler Message → HttpRule
  implicit_rule h = record {
    selector = [];
    binding = record {
      pattern = custom (codes "*") h.method;
      body = codes "*";
      response_body = [];
      nested = false;
    };
    additional = [];
  }

  abbrev pub target : Handler Message → Target Message
  target h = record { desc = h.desc; input = h.input; name = h.method }

  -- The loop over rules that stops at the first error.
  unfoldable pub add_rules : Target Message → List HttpRule → Tree Field → Tree Field × Option Added
  add_rules t [] tree = (tree, none)
  add_rules t (rule ∷ rules) tree =
      let (tree', a) = add_rule d u t rule tree in
      let later = add_rules t rules tree' in if is_nil a then later else (tree', some a)

  -- The annotated rule, if the method has one.
  abbrev pub to_list : Option HttpRule → List HttpRule
  to_list none = []
  to_list (some rule) = rule ∷ []

  abbrev pub finish_append :
      State Field Message → Handler Message → Tree Field × Option Added → Appended Field Message
  finish_append s h (tree, some a) = refused a
  finish_append s h (tree, none) = appended (record s {
    path = tree;
    handlers = insert h.method (handlers_of h.method s.handlers ++ h ∷ []) s.handlers;
  })

  unfoldable pub append_handler :
      Selector → Option HttpRule → Handler Message → State Field Message → Appended Field Message
  unfolding add_rules handlers_of add_rule
  append_handler http_rules annotated h s =
      let (tree, a) = add_rule d u (target h) (implicit_rule h) s.path in
      if is_nil a
      then finish_append s h (
          add_rules (target h) (get_rules http_rules (split b'.' h.desc) ++ to_list annotated) tree)
      else bug a

abbrev or_same : {Field : Type 0} → Tree Field → Option (Tree Field) → Tree Field
or_same t none = t
or_same t (some t') = t'

module _ {Message : Type 0} where
  unfoldable pub find_conn :
      ℕ → List (ℕ × List (Handler Message) × Bytes) → Option (List (Handler Message))
  find_conn conn [] = none
  find_conn conn ((c, hs, hash) ∷ m) = if c == conn then some hs else find_conn conn m

  unfoldable pub remove_conn :
      ℕ → List (ℕ × List (Handler Message) × Bytes) → List (ℕ × List (Handler Message) × Bytes)
  remove_conn conn [] = []
  remove_conn conn ((c, hs, hash) ∷ m) =
      if c == conn then remove_conn conn m else (c, hs, hash) ∷ remove_conn conn m

module _ {Field Message : Type 0} where
  -- One round of `removeHandler`, on a handler of the connection.
  unfoldable pub drop_handler : State Field Message → Handler Message → State Field Message
  unfolding handlers_of without
  drop_handler s hd = elim (without hd.id (handlers_of hd.method s.handlers)) [
    | [] ↦ record s {
      handlers = remove_key hd.method s.handlers;
      path = or_same s.path (del_rule hd.method s.path);
    }
    | h ∷ hs ↦ record s { handlers = insert hd.method (h ∷ hs) s.handlers }
  ]

  unfoldable pub drop_handlers : State Field Message → List (Handler Message) → State Field Message
  drop_handlers s [] = s
  drop_handlers s (hd ∷ hds) = drop_handlers (drop_handler s hd) hds

  unfoldable pub remove_handler : ℕ → State Field Message → State Field Message × Bool
  unfolding drop_handlers drop_handler find_conn remove_conn
  remove_handler conn s = elim (find_conn conn s.conns) [
    | none ↦ (s, false)
    | some hs ↦
        let s' = drop_handlers s hs in (record s' { conns = remove_conn conn s'.conns }, true)
  ]

  -- `pickMethodHandler`, with the number that rand.Intn draws; `none` is Unimplemented.
  unfoldable pub pick_method_handler :
      ℕ → Bytes → Option (State Field Message) → Option (Handler Message)
  unfolding handlers_of
  pick_method_handler draw name none = none
  pick_method_handler draw name (some s) =
      let hds = handlers_of name s.handlers in
      if length hds == 0 then none else get_elem? hds (draw % length hds)

  -- `state.clone`
  unfoldable pub clone_state : Option (State Field Message) → State Field Message
  unfolding clone
  clone_state none = record { path = new_path; conns = []; handlers = [] }
  clone_state (some s) = record { path = clone s.path; conns = s.conns; handlers = s.handlers }
