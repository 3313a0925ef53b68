-- ===== src/Rules/Fields.antt =====
-- Field paths, methods and HTTP rules of larking/rules.go. The descriptors of package protoreflect
-- are a parameter.
use larking.Base.{ℕ, Bool, Option, none, some, List, [], ◌∷◌, ◌==◌, if◌then◌else◌, Bytes}

-- protoreflect: the lookups of a message's fields, and the message type of a field.
pub record Descriptors : Type 1 where
  pub Field : Type 0
  pub Message : Type 0
  pub by_json_name : Message → Bytes → Option Field
  pub by_name : Message → Bytes → Option Field
  pub message_of : Field → Option Message

abbrev cons_head : ℕ → List Bytes → List Bytes
cons_head c [] = (c ∷ []) ∷ []
cons_head c (p ∷ ps) = (c ∷ p) ∷ ps

-- strings.Split at one byte
unfoldable pub split : ℕ → Bytes → List Bytes
split sep [] = [] ∷ []
split sep (c ∷ s) = if c == sep then [] ∷ split sep s else cons_head c (split sep s)

module _ (d : Descriptors) where
  open d use {Field, Message, by_json_name, by_name, message_of}

  -- One name of a field path: by its JSON name first, then by its proto name.
  unfoldable pub find_field : Message → Bytes → Option Field
  find_field m name = elim (by_json_name m name) [ some fd ↦ some fd | none ↦ by_name m name ]

  unfoldable pub field_path : Message → List Bytes → Option (List Field)
  unfolding find_field
  field_path m [] = some []
  field_path m (name ∷ []) = elim (find_field m name) [ none ↦ none | some fd ↦ some (fd ∷ []) ]
  field_path m (name ∷ next ∷ names) = elim (find_field m name) [
    | none ↦ none
    | some fd ↦ elim (message_of fd) [
      | none ↦ none
      | some inner ↦ elim (field_path inner (next ∷ names)) [
        | none ↦ none
        | some fds ↦ some (fd ∷ fds)
      ]
    ]
  ]

-- `method`; its descriptor stands as its full name.
pub record Method (Field : Type 0) : Type 0 where
  pub desc : Bytes
  pub name : Bytes
  pub body : List Field
  pub vars : List (List Field)
  pub resp : List Field
  pub has_body : Bool

-- The pattern of an annotations.HttpRule.
pub data Pattern : Type 0 where
  get put post delete patch : Bytes → Pattern
  custom : Bytes → Bytes → Pattern
  unset : Pattern

-- A rule but for its additional bindings; `nested` says that it has some.
pub record Binding : Type 0 where
  pub pattern : Pattern
  pub body : Bytes
  pub response_body : Bytes
  pub nested : Bool

-- annotations.HttpRule: bindings within additional bindings are refused, so only their presence counts.
pub record HttpRule : Type 0 where
  pub selector : Bytes
  pub binding : Binding
  pub additional : List Binding
