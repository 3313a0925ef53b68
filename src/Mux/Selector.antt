-- ===== src/Mux/Selector.antt =====
-- `ruleSelector` of larking/mux.go. A selector is cut at its dots, one component a step.
use larking.Base.{
  Bool, true, false, Option, none, some, List, [], ◌∷◌, ◌++◌, if◌then◌else◌, Bytes, codes, beq,
}
use larking.Rules.Fields.{HttpRule, split}

mutual
  pub data Selector : Type 0 where
    selector : Children → List HttpRule → Selector

  pub data Children : Type 0 where
    no_children : Children
    child : Bytes → Selector → Children → Children

abbrev pub empty_selector : Selector
empty_selector = selector no_children []

-- What is left of a name is "".
abbrev pub is_empty : List Bytes → Bool
is_empty [] = true
is_empty (t ∷ []) = beq t []
is_empty (t ∷ t' ∷ ts) = false

-- The rules along a name, behind those of the root.
unfoldable mutual
  pub get_rules : Selector → List Bytes → List HttpRule
  get_rules (selector kids rules) [] = rules
  get_rules (selector kids rules) (tag ∷ []) =
      rules ++ (if beq tag [] then [] else get_child kids tag [])
  get_rules (selector kids rules) (tag ∷ t ∷ ts) = rules ++ get_child kids tag (t ∷ ts)

  pub get_child : Children → Bytes → List Bytes → List HttpRule
  get_child no_children tag names = []
  get_child (child key s more) tag names =
      let found = get_rules s names in
      let later = get_child more tag names in if beq key tag then found else later

-- A write to r.path[tag], which is made if it is missing.
unfoldable pub write_child : Bytes → (Selector → Selector) → Children → Children
write_child tag act no_children = child tag (act empty_selector) no_children
write_child tag act (child key s more) =
    if beq key tag then child key (act s) more else child key s (write_child tag act more)

abbrev pub add_here : HttpRule → Selector → Selector
add_here rule (selector kids rules) = selector kids (rules ++ rule ∷ [])

abbrev pub at_child : Bytes → (Selector → Selector) → Selector → Selector
at_child tag act (selector kids rules) = selector (write_child tag act kids) rules

-- `set`; `none` is the panic on a "*" that is not the last component.
unfoldable pub set_rule : HttpRule → List Bytes → Option (Selector → Selector)
set_rule rule [] = some (add_here rule)
set_rule rule (tag ∷ names) =
    let below = set_rule rule names in
    if beq tag (codes "*")
    then (if is_empty names then some (add_here rule) else none)
    else if beq tag []
    then some (add_here rule)
    else (elim below [ none ↦ none | some act ↦ some (at_child tag act) ])

-- `setRules` on the rules to come.
unfoldable pub set_rules : Selector → List HttpRule → Option Selector
unfolding set_rule write_child
set_rules s [] = some s
set_rules s (rule ∷ rules) = elim (set_rule rule (split b'.' rule.selector)) [
  | none ↦ none
  | some act ↦ set_rules (act s) rules
]
