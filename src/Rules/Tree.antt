-- ===== src/Rules/Tree.antt =====
-- The tree `path` of larking/rules.go. A map is an association list; a variable's name is the text
-- of its tokens. A function that returns a node to be written through takes the write as `act`.
use larking.Base.{
  Bool, true, false, ◌||◌, Option, none, some, List, [], ◌∷◌, ltb, ◌==◌, if◌then◌else◌, Bytes, beq,
}
use larking.Lexer.State.{Token, text}
use larking.Rules.Fields.{Method}

mutual
  pub data Tree (F : Type 0) : Type 0 where
    node : Segments F → List (Bytes × Method F) → Option (Method F) → Variables F → Tree F

  pub data Segments (F : Type 0) : Type 0 where
    no_segments : Segments F
    segment : Bytes → Tree F → Segments F → Segments F

  pub data Variables (F : Type 0) : Type 0 where
    no_variables : Variables F
    variable : List Token → Tree F → Variables F → Variables F

-- A string comparison: variables.Less
unfoldable pub less : Bytes → Bytes → Bool
less [] [] = false
less [] (y ∷ ys) = true
less (x ∷ xs) [] = false
less (x ∷ xs) (y ∷ ys) = if ltb x y then true else if x == y then less xs ys else false

-- A map's lookup and write.
unfoldable pub lookup {ℓ} : {V : Type ℓ} → Bytes → List (Bytes × V) → Option V
lookup k [] = none
lookup k ((j, v) ∷ m) = if beq j k then some v else lookup k m

unfoldable pub insert {ℓ} : {V : Type ℓ} → Bytes → V → List (Bytes × V) → List (Bytes × V)
insert k v [] = (k, v) ∷ []
insert k v ((j, w) ∷ m) = if beq j k then (j, v) ∷ m else (j, w) ∷ insert k v m

module _ {F : Type 0} where
  abbrev pub new_path : Tree F
  new_path = node no_segments [] none no_variables

  unfoldable pub find_variable : Bytes → Variables F → Option (List Token × Tree F)
  find_variable name no_variables = none
  find_variable name (variable toks next vs) =
      if beq (text toks) name then some (toks, next) else find_variable name vs

  unfoldable pub insert_variable : List Token → Tree F → Variables F → Variables F
  insert_variable toks next no_variables = variable toks next no_variables
  insert_variable toks next (variable toks' next' vs) =
      if less (text toks') (text toks)
      then variable toks' next' (insert_variable toks next vs)
      else variable toks next (variable toks' next' vs)

  -- sort.Sort by name; the names are distinct
  unfoldable pub sort_variables : Variables F → Variables F
  unfolding insert_variable
  sort_variables no_variables = no_variables
  sort_variables (variable toks next vs) = insert_variable toks next (sort_variables vs)

  unfoldable pub append_variable : Variables F → List Token → Tree F → Variables F
  append_variable no_variables toks next = variable toks next no_variables
  append_variable (variable toks' next' vs) toks next =
      variable toks' next' (append_variable vs toks next)

  -- A write through the variable of this name.
  unfoldable pub write_variable : Bytes → (Tree F → Tree F) → Variables F → Variables F
  write_variable name act no_variables = no_variables
  write_variable name act (variable toks next vs) =
      if beq (text toks) name
      then variable toks (act next) vs
      else variable toks next (write_variable name act vs)

  -- len(p.methods) != 0 || len(p.variables) != 0 || len(p.segments) != 0
  abbrev pub has_methods : List (Bytes × Method F) → Bool
  has_methods [] = false
  has_methods (_ ∷ _) = true

  abbrev pub has_variables : Variables F → Bool
  has_variables no_variables = false
  has_variables (variable _ _ _) = true

  abbrev pub has_segments : Segments F → Bool
  has_segments no_segments = false
  has_segments (segment _ _ _) = true

  unfoldable pub alive : Tree F → Bool
  alive (node segments methods method_all variables) =
      has_methods methods || has_variables variables || has_segments segments

module _ {F : Type 0} {A : Type 0} where
  -- `addPath`, and `act` on the node that it returns.
  unfoldable pub add_path : Bytes → (Tree F → Tree F × A) → Segments F → Segments F × A
  add_path val act no_segments = let (next, a) = act new_path in (segment val next no_segments, a)
  add_path val act (segment key tree more) = elim (beq key val) [
    | true ↦ (segment key (act tree).0 more, (act tree).1)
    | false ↦ (segment key tree (add_path val act more).0, (add_path val act more).1)
  ]

  -- `addVariable`, and `act` on the next node of the variable that it returns.
  unfoldable pub add_variable : List Token → (Tree F → Tree F × A) → Variables F → Variables F × A
  unfolding find_variable sort_variables append_variable write_variable
  add_variable toks act vs = elim (find_variable (text toks) vs) [
    | some found ↦ (write_variable (text toks) (λ t. (act t).0) vs, (act found.1).1)
    | none ↦ (sort_variables (append_variable vs toks (act new_path).0), (act new_path).1)
  ]

-- `clone`: the tokens, names and methods are shared, read only.
unfoldable mutual
  pub clone : {F : Type 0} → Tree F → Tree F
  clone (node segments methods method_all variables) =
      node (clone_segments segments) methods method_all (clone_variables variables)

  pub clone_segments : {F : Type 0} → Segments F → Segments F
  clone_segments no_segments = no_segments
  clone_segments (segment key tree more) = segment key (clone tree) (clone_segments more)

  pub clone_variables : {F : Type 0} → Variables F → Variables F
  clone_variables no_variables = no_variables
  clone_variables (variable toks next vs) = variable toks (clone next) (clone_variables vs)
