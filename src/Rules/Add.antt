-- ===== src/Rules/Add.antt =====
-- `addRule` of larking/rules.go.
use larking.Base.{
  ℕ, ◌-◌, Bool, true, false, Option, none, some, List, [], ◌∷◌, map, within, if◌then◌else◌, Bytes,
  codes, beq,
}
use larking.Lexer.Rune.{Tables}
use larking.Lexer.State.{LexError, ok, err}
use larking.Lexer.Template.{lex_template}
use larking.Rules.Fields.{
  Descriptors, split, field_path, Method, Pattern, get, put, post, delete, patch, custom, unset,
  Binding, HttpRule,
}
use larking.Rules.Tree.{Tree, node, lookup, insert, add_path, add_variable}
use larking.Rules.Scan.{
  Edge, constant, capture, complete, field_not_found, invalid, Scanned, at_segment, scan,
}

-- What `addRule` returns: nil after a registration, nil at a rule that is there already, or an
-- error. `invalid_token` and `nil_method` are its panics.
pub data Added : Type 0 where
  registered already : Added
  unsupported_pattern no_field body_field response_field duplicate nested_rules : Added
  bad_template : LexError → Added
  invalid_token nil_method : Added

abbrev pub is_nil : Added → Bool
is_nil registered = true
is_nil already = true
is_nil _ = false

-- strings.ToUpper, on ASCII
upper : ℕ → ℕ
upper c = if within b'a' b'z' c then c - 32 else c

unfoldable pub verb_of : Pattern → Option (Bytes × Bytes)
unfolding upper
verb_of (get tmpl) = some (codes "GET", tmpl)
verb_of (put tmpl) = some (codes "PUT", tmpl)
verb_of (post tmpl) = some (codes "POST", tmpl)
verb_of (delete tmpl) = some (codes "DELETE", tmpl)
verb_of (patch tmpl) = some (codes "PATCH", tmpl)
verb_of (custom kind path) = some (map upper kind, path)
verb_of unset = none

-- The walk of `cursor` along the edges, and `act` at its end.
unfoldable pub walk : {F A : Type 0} → List Edge → (Tree F → Tree F × A) → Tree F → Tree F × A
walk [] act t = act t
walk (constant val ∷ edges) act (node segments methods all vs) =
    let (segments', a) = add_path val (walk edges act) segments in
    (node segments' methods all vs, a)
walk (capture toks ∷ edges) act (node segments methods all vs) =
    let (vs', a) = add_variable toks (walk edges act) vs in (node segments methods all vs', a)

-- The method descriptor that a rule is added for: its full name and its input.
pub record Target (Message : Type 0) : Type 0 where
  pub desc : Bytes
  pub input : Message
  pub name : Bytes

module _ (d : Descriptors) where
  open d use {Field, Message}

  -- `m.body` and `m.hasBody`
  unfoldable pub body_of : Message → Bytes → Option (List Field × Bool)
  body_of m body =
      if beq body (codes "*")
      then some ([], true)
      else if beq body []
      then some ([], false)
      else elim (field_path d m (split b'.' body)) [ none ↦ none | some fds ↦ some (fds, true) ]

  -- `m.resp`; the path that is looked up is the one of `Body`.
  unfoldable pub resp_of : Message → Binding → Option (List Field)
  resp_of m r = if beq r.response_body [] then some [] else field_path d m (split b'.' r.body)

  unfoldable pub store_method : Bytes → Method Field → Tree Field → Tree Field
  store_method verb method (node segments methods all vs) =
      if beq verb (codes "*")
      then node segments methods (some method) vs
      else node segments (insert verb method methods) all vs

  -- `addRule` from the lookup of the verb at the cursor.
  unfoldable pub register :
      Target Message → Binding → Bytes → List (List Field) → Tree Field → Tree Field × Added
  unfolding body_of resp_of store_method
  register t r verb vars (node segments methods all vs) =
      let cursor = node segments methods all vs in
      elim (lookup verb methods) [
        | some y ↦ (cursor, if beq y.desc t.desc then already else duplicate)
        | none ↦ elim all [
          | some other ↦ (cursor, nil_method)
          | none ↦ elim (body_of t.input r.body) [
            | none ↦ (cursor, body_field)
            | some body ↦ elim (resp_of t.input r) [
              | none ↦ (cursor, response_field)
              | some resp ↦ (
                store_method verb
                    (record {
                      desc = t.desc;
                      name = t.name;
                      body = body.0;
                      vars = vars;
                      resp = resp;
                      has_body = body.1;
                    })
                    cursor,
                registered,
              )
            ]
          ]
        ]
      ]

  -- What `addRule` does where the walk ends.
  unfoldable pub at_end :
      Target Message → Binding → Bytes → Scanned Field → Tree Field → Tree Field × Added
  unfolding register
  at_end t r verb s cursor = elim s.ending [
    | complete ↦ register t r verb s.vars cursor
    | field_not_found keys ↦ (cursor, no_field)
    | invalid ↦ (cursor, invalid_token)
  ]

  unfoldable pub add_scanned :
      Target Message → Binding → Bytes → Scanned Field → Tree Field → Tree Field × Added
  unfolding walk at_end
  add_scanned t r verb s tree = walk s.edges (at_end t r verb s) tree

  module _ (u : Tables) where
    -- `addRule` but for the additional bindings.
    unfoldable pub add_binding : Target Message → Binding → Tree Field → Tree Field × Added
    unfolding add_scanned scan
    add_binding t r tree = elim (verb_of r.pattern) [
      | none ↦ (tree, unsupported_pattern)
      | some vt ↦ elim (lex_template u vt.1) [
        | err e l ↦ (tree, bad_template e)
        | ok l ↦ add_scanned t r vt.0 (scan d t.input at_segment l.toks) tree
      ]
    ]

    unfoldable pub add_bindings : Target Message → List Binding → Tree Field → Tree Field × Added
    add_bindings t [] tree = (tree, registered)
    add_bindings t (r ∷ rs) tree =
        let (tree', a) = add_binding t r tree in
        let later = add_bindings t rs tree' in
        if r.nested then (tree, nested_rules) else if is_nil a then later else (tree', a)

    abbrev pub then_bindings :
        Target Message → List Binding → Tree Field × Added → Tree Field × Added
    then_bindings t rs (tree, registered) = add_bindings t rs tree
    then_bindings t rs (tree, other) = (tree, other)

    unfoldable pub add_rule : Target Message → HttpRule → Tree Field → Tree Field × Added
    unfolding add_binding add_bindings
    add_rule t rule tree = then_bindings t rule.additional (add_binding t rule.binding tree)
