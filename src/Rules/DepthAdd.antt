-- ===== src/Rules/DepthAdd.antt =====
-- `addRule` of larking/rules.go keeps the captures of each method in step with the variables on
-- its path.
use larking.Base.{
  ℕ, Bool, true, false, List, [], ◌∷◌, ◌++◌, ◌≡◌, refl, arith, Bytes, length, Bool-cases,
  Option-cases, inl, inr, beq, if◌then◌else◌, codes,
}
use larking.Lexer.Rune.{Tables}
use larking.Lexer.State.{Lexed, ok, err}
use larking.Lexer.Template.{lex_template}
use larking.Lexer.State.{Token}
use larking.Rules.Fields.{Descriptors, Method, Binding, HttpRule}
use larking.Rules.Tree.{Tree, node, lookup, insert}
use larking.Rules.Scan.{
  Ending, complete, field_not_found, invalid, Scanned, Mode, at_segment, at_value, at_field,
  after_field, in_pattern, at_verb, scan,
}
use larking.Rules.Add.{
  Added, registered, then_bindings, is_nil, bad_template, no_field, invalid_token, Target, register,
  at_end, add_scanned, add_binding, add_bindings, add_rule, verb_of, body_of, resp_of, store_method,
}
use larking.Rules.Depth.{MethodsHaveDepth, HasDepth}
use larking.Rules.DepthWalk.{count_captures, walk-HasDepth}

insert-HasDepth :
    {F : Type 0} (n : ℕ) (verb : Bytes) (m : Method F) (ms : List (Bytes × Method F))
    → length m.vars ≡ n
    → MethodsHaveDepth n ms
    → MethodsHaveDepth n (insert verb m ms)
unfolding insert
insert-HasDepth n verb m [] h k = (h, tt)
insert-HasDepth n verb m ((j, w) ∷ ms) h k = elim (Bool-cases (beq j verb)) [
  | inl same ↦ rw same (h, k.1)
  | inr other ↦ rw other (k.0, insert-HasDepth n verb m ms h k.1)
]

branch :
    {F A : Type 0} (n : ℕ) (b : Bool) (x y : Tree F × A)
    → HasDepth n x.0
    → HasDepth n y.0
    → HasDepth n (if b then x else y).0
branch n true x y h k = h
branch n false x y h k = k

module _ (d : Descriptors) where
  open d use {Field, Message}

  -- Each capture edge of a scan has its fields.
  scan-captures :
      (m : Message) (mode : Mode) (toks : List Token)
      → length (scan d m mode toks).vars ≡ count_captures (scan d m mode toks).edges
  unfolding scan
  scan-captures m mode [] = refl
  scan-captures m at_segment (tok ∷ toks) =
      ground (arith, scan-captures m (at_value tok) toks, scan-captures m (at_verb tok) toks)
  scan-captures m (at_value tok) (val ∷ toks) =
      ground (arith, scan-captures m at_segment toks, scan-captures m (at_field []) toks)
  scan-captures m (at_field keys) (tok ∷ toks) =
      scan-captures m (after_field (keys ++ tok.val ∷ [])) toks
  scan-captures m (after_field keys) (tok ∷ toks) = ground (
    arith,
    scan-captures m (at_field keys) toks,
    scan-captures m (in_pattern keys []) toks,
    scan-captures m at_segment toks,
  )
  scan-captures m (in_pattern keys vars) (tok ∷ toks) = ground (
    arith,
    scan-captures m at_segment toks,
    scan-captures m (in_pattern keys (vars ++ tok ∷ [])) toks,
  )
  scan-captures m (at_verb tok) (val ∷ toks) = refl

  module _ (t : Target Message) (r : Binding) (verb : Bytes) where
    store_method-HasDepth :
        (n : ℕ) (m : Method Field) (cursor : Tree Field)
        → length m.vars ≡ n
        → HasDepth n cursor
        → HasDepth n (store_method d verb m cursor)
    unfolding store_method HasDepth
    store_method-HasDepth n m (node segs methods all vs) h k =
        elim (Bool-cases (beq verb (codes "*"))) [
          | inl any ↦ rw (any, store_method) (k.0, k.1, h, k.3)
          | inr one ↦ rw (one, store_method) (k.0, insert-HasDepth n verb m methods h k.1, k.2, k.3)
        ]

    register-HasDepth :
        (n : ℕ) (vars : List (List Field)) (cursor : Tree Field)
        → length vars ≡ n
        → HasDepth n cursor
        → HasDepth n (register d t r verb vars cursor).0
    unfolding register
    register-HasDepth n vars (node segs methods all vs) h k =
        elim (Option-cases (lookup verb methods)) [
          | inr (y, e) ↦ rw (e, register) k
          | inl e ↦
              rw (e, register)
                (elim (Option-cases all) [
                  | inr (other, e) ↦ rw e k
                  | inl e ↦ rw e (elim (Option-cases (body_of d t.input r.body)) [
                    | inl e ↦ rw e k
                    | inr (body, e) ↦ rw e (elim (Option-cases (resp_of d t.input r)) [
                      | inl e ↦ rw e k
                      | inr (resp, e) ↦ rw e (store_method-HasDepth n _ _ h k)
                    ])
                  ])
                ])
        ]

    at_end-HasDepth :
        (s : Scanned Field) (cursor : Tree Field)
        → length s.vars ≡ count_captures s.edges
        → HasDepth (count_captures s.edges) cursor
        → HasDepth (count_captures s.edges) (at_end d t r verb s cursor).0
    unfolding at_end
    at_end-HasDepth s cursor h k = go s.ending
      where
        go :
            (e : Ending)
            → HasDepth
                (count_captures s.edges)
                (elim e as (λ x. Tree Field × Added) [
                  | complete ↦ register d t r verb s.vars cursor
                  | field_not_found keys ↦ (cursor, no_field)
                  | invalid ↦ (cursor, invalid_token)
                ]).0
        go complete = register-HasDepth (count_captures s.edges) s.vars cursor h k
        go (field_not_found keys) = k
        go invalid = k

  module _ (u : Tables) (t : Target Message) where
    add_binding-HasDepth :
        (r : Binding) (tree : Tree Field)
        → HasDepth 0 tree
        → HasDepth 0 (add_binding d u t r tree).0
    unfolding add_binding add_scanned
    add_binding-HasDepth r tree h = elim (Option-cases (verb_of r.pattern)) [
      | inl e ↦ rw (e, add_binding) h
      | inr (vt, e) ↦ rw (e, add_binding) (go vt (lex_template u vt.1))
    ]
      where
        go :
            (vt : Bytes × Bytes) (l : Lexed)
            → HasDepth 0
                (elim l as (λ x. Tree Field × Added) [
                  | err e l ↦ (tree, bad_template e)
                  | ok l ↦ add_scanned d t r vt.0 (scan d t.input at_segment l.toks) tree
                ]).0
        go vt (err e l) = h
        go vt (ok l) =
            let s = scan d t.input at_segment l.toks in
            walk-HasDepth s.edges 0 (count_captures s.edges) (at_end d t r vt.0 s) tree
              (omega arith)
              (λ cursor.
                at_end-HasDepth t r vt.0 s cursor (scan-captures t.input at_segment l.toks))
              h

    add_bindings-HasDepth :
        (rs : List Binding) (tree : Tree Field)
        → HasDepth 0 tree
        → HasDepth 0 (add_bindings d u t rs tree).0
    unfolding add_bindings
    add_bindings-HasDepth [] tree h = h
    add_bindings-HasDepth (r ∷ rs) tree h =
        let k = add_binding-HasDepth r tree h in
        let later = add_bindings-HasDepth rs (add_binding d u t r tree).0 k in
        branch 0 r.nested _ _ h (branch 0 (is_nil (add_binding d u t r tree).1) _ _ later k)

-- `addRule` keeps the captures of every method in step with the variables on its path, on all its
-- branches: after a registration, and after an error that leaves part of a path behind.
pub add_rule-HasDepth :
    (d : Descriptors) (u : Tables) (t : Target d.Message) (rule : HttpRule) (tree : Tree d.Field)
    → HasDepth 0 tree
    → HasDepth 0 (add_rule d u t rule tree).0
unfolding add_rule
add_rule-HasDepth d u t rule tree h =
    go (add_binding d u t rule.binding tree) (add_binding-HasDepth d u t rule.binding tree h)
  where
    go :
        (r : Tree d.Field × Added)
        → HasDepth 0 r.0
        → HasDepth 0 (then_bindings d u t rule.additional r).0
    go (tree', registered) k = add_bindings-HasDepth d u t rule.additional tree' k
    go (tree', _) k = k
