-- ===== src/Rules/Reach.antt =====
-- The trees that registrations, removals and copies of larking/rules.go build, and the captures of
-- their methods.
use larking.Base.{
  ℕ, suc, Bool, true, false, Option, none, some, List, [], ◌∷◌, ◌≡◌, Bytes, beq, Bool-cases, inl,
  inr, if◌then◌else◌,
}
use mathlib.Core.Path.{subst}
use larking.Lexer.Rune.{Tables}
use larking.Lexer.State.{Token}
use larking.Rules.Fields.{Descriptors, Method, HttpRule}
use larking.Rules.Tree.{
  Tree, node, Segments, no_segments, segment, Variables, no_variables, variable, new_path, alive,
  clone, clone_segments, clone_variables,
}
use larking.Rules.Add.{Target, add_rule}
use larking.Rules.Delete.{delete_method, del_rule, del_segments, del_variables}
use larking.Rules.Search.{search}
use larking.Rules.Depth.{
  MethodsHaveDepth, HasDepth, SegmentsHaveDepth, VariablesHaveDepth, Sized, search-Sized,
}
use larking.Rules.DepthAdd.{add_rule-HasDepth}

-- What a deletion yields, if it finds what it deletes, has the property.
data Kept {A : Type 0} (P : A → Type 0) : Option A → Type 0 where
  not_there : Kept P none
  there : {a : A} → P a → Kept P (some a)

bind-Kept :
    {A B : Type 0} {P : A → Type 0} {Q : B → Type 0} (f : A → Option B) (other : Option B)
    {o : Option A}
    → Kept P o
    → ((a : A) → P a → Kept Q (f a))
    → Kept Q other
    → Kept Q (elim o [ some a ↦ f a | none ↦ other ])
bind-Kept f other not_there h k = k
bind-Kept f other (there p) h k = h _ p

if-Kept :
    {A : Type 0} {P : A → Type 0} (b : Bool) (x y : A)
    → P x
    → P y
    → Kept P (some (if b then x else y))
if-Kept true x y h k = there h
if-Kept false x y h k = there k

module _ {F : Type 0} (name : Bytes) where
  delete_method-Kept :
      (n : ℕ) (ms : List (Bytes × Method F))
      → MethodsHaveDepth n ms
      → Kept (MethodsHaveDepth n) (delete_method name ms)
  unfolding delete_method
  delete_method-Kept n [] h = not_there
  delete_method-Kept n ((k, m) ∷ ms) h = elim (Bool-cases (beq m.name name)) [
    | inl e ↦ rw e (there h.1)
    | inr e ↦ rw e (bind-Kept _ _ (delete_method-Kept n ms h.1) (λ ms' p. there (h.0, p)) not_there)
  ]

  mutual
    unfolding del_rule HasDepth

    del_rule-Kept : (n : ℕ) (t : Tree F) → HasDepth n t → Kept (HasDepth n) (del_rule name t)
    del_rule-Kept n (node segs methods all vs) h =
        bind-Kept _ _ (del_segments-Kept n segs h.0) (λ s p. there (p, h.1, h.2, h.3))
          (bind-Kept _ _ (del_variables-Kept n vs h.3) (λ s p. there (h.0, h.1, h.2, p))
            (bind-Kept _ _ (delete_method-Kept n methods h.1) (λ s p. there (h.0, p, h.2, h.3))
              not_there))

    del_segments-Kept :
        (n : ℕ) (segs : Segments F)
        → SegmentsHaveDepth n segs
        → Kept (SegmentsHaveDepth n) (del_segments name segs)
    del_segments-Kept n no_segments h = not_there
    del_segments-Kept n (segment key tree more) h =
        bind-Kept _ _ (del_rule-Kept n tree h.0)
          (λ t p. if-Kept (alive t) (segment key t more) more (p, h.1) h.1)
          (bind-Kept _ _ (del_segments-Kept n more h.1) (λ s p. there (h.0, p)) not_there)

    del_variables-Kept :
        (n : ℕ) (vs : Variables F)
        → VariablesHaveDepth n vs
        → Kept (VariablesHaveDepth n) (del_variables name vs)
    del_variables-Kept n no_variables h = not_there
    del_variables-Kept n (variable toks next vs) h =
        bind-Kept _ _ (del_rule-Kept (suc n) next h.0)
          (λ t p. if-Kept (alive t) (variable toks t vs) vs (p, h.1) h.1)
          (bind-Kept _ _ (del_variables-Kept n vs h.1) (λ s p. there (h.0, p)) not_there)

module _ {F : Type 0} where
  mutual
    unfolding clone HasDepth

    clone-HasDepth : (n : ℕ) (t : Tree F) → HasDepth n t → HasDepth n (clone t)
    clone-HasDepth n (node segs methods all vs) h =
        (clone_segments-HasDepth n segs h.0, h.1, h.2, clone_variables-HasDepth n vs h.3)

    clone_segments-HasDepth :
        (n : ℕ) (segs : Segments F)
        → SegmentsHaveDepth n segs
        → SegmentsHaveDepth n (clone_segments segs)
    clone_segments-HasDepth n no_segments h = tt
    clone_segments-HasDepth n (segment key tree more) h =
        (clone-HasDepth n tree h.0, clone_segments-HasDepth n more h.1)

    clone_variables-HasDepth :
        (n : ℕ) (vs : Variables F)
        → VariablesHaveDepth n vs
        → VariablesHaveDepth n (clone_variables vs)
    clone_variables-HasDepth n no_variables h = tt
    clone_variables-HasDepth n (variable toks next vs) h =
        (clone-HasDepth (suc n) next h.0, clone_variables-HasDepth n vs h.1)

-- The trees that a mux comes to, from the empty one.
pub data IsReachable (d : Descriptors) (u : Tables) : Tree d.Field → Type 0 where
  at_first : IsReachable d u new_path
  by_add :
      {tree : Tree d.Field} (t : Target d.Message) (rule : HttpRule)
      → IsReachable d u tree
      → IsReachable d u (add_rule d u t rule tree).0
  by_clone : {tree : Tree d.Field} → IsReachable d u tree → IsReachable d u (clone tree)
  by_delete :
      {tree tree' : Tree d.Field} (name : Bytes)
      → IsReachable d u tree
      → del_rule name tree ≡ some tree'
      → IsReachable d u tree'

module _ (d : Descriptors) (u : Tables) where
  abbrev SomeHasDepth : Option (Tree d.Field) → Type 0
  SomeHasDepth none = Unit
  SomeHasDepth (some t) = HasDepth 0 t

  Kept-SomeHasDepth : {o : Option (Tree d.Field)} → Kept (HasDepth 0) o → SomeHasDepth o
  Kept-SomeHasDepth not_there = tt
  Kept-SomeHasDepth (there p) = p

  reachable-HasDepth : {tree : Tree d.Field} → IsReachable d u tree → HasDepth 0 tree
  unfolding HasDepth
  reachable-HasDepth at_first = (tt, tt, tt, tt)
  reachable-HasDepth (by_add t rule r) = add_rule-HasDepth d u t rule _ (reachable-HasDepth r)
  reachable-HasDepth (by_clone r) = clone-HasDepth 0 _ (reachable-HasDepth r)
  reachable-HasDepth (by_delete name r e) =
      subst SomeHasDepth e (Kept-SomeHasDepth (del_rule-Kept name 0 _ (reachable-HasDepth r)))

-- However rules were added, removed and the tree copied, in whatever order, a search of the tree does
-- not run out of captures, and if it finds a method, it yields a param for each of its captures. A
-- panic of another kind is not excluded.
pub search-IsReachable :
    (d : Descriptors) (u : Tables) (V : Type 0) (parse : List d.Field → Bytes → Option V)
    (v : Bytes) (tree : Tree d.Field) (toks : List Token)
    → IsReachable d u tree
    → Sized 0 (search parse v tree toks)
search-IsReachable d u V parse v tree toks r =
    search-Sized parse v 0 tree toks (reachable-HasDepth d u r)
