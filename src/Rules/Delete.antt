-- ===== src/Rules/Delete.antt =====
-- `delRule` of larking/rules.go. The source visits the maps in no fixed order; the order here is
-- that of the lists, which may be any.
use larking.Base.{Option, none, some, List, [], ◌∷◌, if◌then◌else◌, Bytes, beq}
use larking.Rules.Fields.{Method}
use larking.Rules.Tree.{
  Tree, node, Segments, no_segments, segment, Variables, no_variables, variable, alive,
}

module _ {Field : Type 0} where
  -- The loop over `methods`; `none` is a loop that finds no method of this name.
  unfoldable pub delete_method :
      Bytes → List (Bytes × Method Field) → Option (List (Bytes × Method Field))
  delete_method name [] = none
  delete_method name ((k, m) ∷ ms) =
      if beq m.name name
      then some ms
      else elim (delete_method name ms) [ none ↦ none | some ms' ↦ some ((k, m) ∷ ms') ]

-- The tree after the deletion, and `none` where nothing is deleted.
unfoldable mutual
  pub del_rule : {Field : Type 0} → Bytes → Tree Field → Option (Tree Field)
  del_rule name (node segments methods all vs) = elim (del_segments name segments) [
    | some segments' ↦ some (node segments' methods all vs)
    | none ↦ elim (del_variables name vs) [
      | some vs' ↦ some (node segments methods all vs')
      | none ↦ elim (delete_method name methods) [
        | some methods' ↦ some (node segments methods' all vs)
        | none ↦ none
      ]
    ]
  ]

  pub del_segments : {Field : Type 0} → Bytes → Segments Field → Option (Segments Field)
  del_segments name no_segments = none
  del_segments name (segment key tree more) = elim (del_rule name tree) [
    | some tree' ↦ some (if alive tree' then segment key tree' more else more)
    | none ↦ elim (del_segments name more) [
      | some more' ↦ some (segment key tree more')
      | none ↦ none
    ]
  ]

  pub del_variables : {Field : Type 0} → Bytes → Variables Field → Option (Variables Field)
  del_variables name no_variables = none
  del_variables name (variable toks next vs) = elim (del_rule name next) [
    | some next' ↦ some (if alive next' then variable toks next' vs else vs)
    | none ↦ elim (del_variables name vs) [ some vs' ↦ some (variable toks next vs') | none ↦ none ]
  ]
