-- ===== src/Rules/DepthWalk.antt =====
-- A walk through the tree of larking/rules.go keeps the captures of each method in step with the
-- variables on its path.
use larking.Base.{
  ℕ, suc, ◌+◌, List, [], ◌∷◌, ◌≡◌, arith, Bytes, Bool-cases, Option-cases, inl, inr, beq,
}
use mathlib.Core.Path.{subst}
use larking.Lexer.State.{Token, text}
use larking.Rules.Tree.{
  Tree, node, Segments, no_segments, segment, Variables, no_variables, variable, new_path, less,
  find_variable, insert_variable, sort_variables, append_variable, write_variable, add_path,
  add_variable,
}
use larking.Rules.Scan.{Edge, constant, capture}
use larking.Rules.Add.{walk}
use larking.Rules.Depth.{HasDepth, SegmentsHaveDepth, VariablesHaveDepth}

-- The captures among the edges.
abbrev pub count_captures : List Edge → ℕ
count_captures [] = 0
count_captures (constant val ∷ es) = count_captures es
count_captures (capture toks ∷ es) = suc (count_captures es)

new_path-HasDepth : (F : Type 0) (n : ℕ) → HasDepth {F = F} n new_path
unfolding HasDepth
new_path-HasDepth F n = (tt, tt, tt, tt)

module _ {F : Type 0} (n : ℕ) where
  insert_variable-HasDepth :
      (toks : List Token) (next : Tree F) (vs : Variables F)
      → HasDepth (suc n) next
      → VariablesHaveDepth n vs
      → VariablesHaveDepth n (insert_variable toks next vs)
  unfolding insert_variable HasDepth
  insert_variable-HasDepth toks next no_variables h k = (h, tt)
  insert_variable-HasDepth toks next (variable toks' next' vs) h k =
      elim (Bool-cases (less (text toks') (text toks))) [
        | inl before ↦ rw before (k.0, insert_variable-HasDepth toks next vs h k.1)
        | inr after ↦ rw after (h, k)
      ]

  sort_variables-HasDepth :
      (vs : Variables F) → VariablesHaveDepth n vs → VariablesHaveDepth n (sort_variables vs)
  unfolding sort_variables HasDepth
  sort_variables-HasDepth no_variables h = tt
  sort_variables-HasDepth (variable toks next vs) h =
      insert_variable-HasDepth toks next (sort_variables vs) h.0 (sort_variables-HasDepth vs h.1)

  append_variable-HasDepth :
      (vs : Variables F) (toks : List Token) (next : Tree F)
      → HasDepth (suc n) next
      → VariablesHaveDepth n vs
      → VariablesHaveDepth n (append_variable vs toks next)
  unfolding append_variable HasDepth
  append_variable-HasDepth no_variables toks next h k = (h, tt)
  append_variable-HasDepth (variable toks' next' vs) toks next h k =
      (k.0, append_variable-HasDepth vs toks next h k.1)

  write_variable-HasDepth :
      (name : Bytes) (act : Tree F → Tree F) (vs : Variables F)
      → ((t : Tree F) → HasDepth (suc n) t → HasDepth (suc n) (act t))
      → VariablesHaveDepth n vs
      → VariablesHaveDepth n (write_variable name act vs)
  unfolding write_variable HasDepth
  write_variable-HasDepth name act no_variables h k = tt
  write_variable-HasDepth name act (variable toks next vs) h k =
      elim (Bool-cases (beq (text toks) name)) [
        | inl same ↦ rw same (h next k.0, k.1)
        | inr other ↦ rw other (k.0, write_variable-HasDepth name act vs h k.1)
      ]

module _ {F A : Type 0} (n : ℕ) (act : Tree F → Tree F × A) where
  add_path-HasDepth :
      (val : Bytes) (segs : Segments F)
      → ((t : Tree F) → HasDepth n t → HasDepth n (act t).0)
      → SegmentsHaveDepth n segs
      → SegmentsHaveDepth n (add_path val act segs).0
  unfolding add_path HasDepth
  add_path-HasDepth val no_segments h k = (h new_path (new_path-HasDepth F n), tt)
  add_path-HasDepth val (segment key tree more) h k = elim (Bool-cases (beq key val)) [
    | inl same ↦ rw (same, add_path) (h tree k.0, k.1)
    | inr other ↦ rw (other, add_path) (k.0, add_path-HasDepth val more h k.1)
  ]

  add_variable-HasDepth :
      (toks : List Token) (vs : Variables F)
      → ((t : Tree F) → HasDepth (suc n) t → HasDepth (suc n) (act t).0)
      → VariablesHaveDepth n vs
      → VariablesHaveDepth n (add_variable toks act vs).0
  unfolding add_variable
  add_variable-HasDepth toks vs h k = elim (Option-cases (find_variable (text toks) vs)) [
    | inl new ↦
        rw (new, add_variable)
          (sort_variables-HasDepth n _
            (append_variable-HasDepth n vs toks _ (h new_path (new_path-HasDepth F (suc n))) k))
    | inr (found, e) ↦ rw (e, add_variable) (write_variable-HasDepth n (text toks) _ vs h k)
  ]

-- A walk keeps the depths if the write at its end does.
pub walk-HasDepth :
    {F A : Type 0} (es : List Edge) (n k : ℕ) (act : Tree F → Tree F × A) (t : Tree F)
    → n + count_captures es ≡ k
    → ((s : Tree F) → HasDepth k s → HasDepth k (act s).0)
    → HasDepth n t
    → HasDepth n (walk es act t).0
unfolding walk HasDepth
walk-HasDepth [] n k act t e h d =
    let e' : k ≡ n = omega arith in subst (λ j. HasDepth j t → HasDepth j (act t).0) e' (h t) d
walk-HasDepth (constant val ∷ es) n k act (node segs methods all vs) e h d = (
  add_path-HasDepth n (walk es act) val segs (λ s. walk-HasDepth es n k act s e h) d.0,
  d.1,
  d.2,
  d.3,
)
walk-HasDepth (capture toks ∷ es) n k act (node segs methods all vs) e h d = (
  d.0,
  d.1,
  d.2,
  add_variable-HasDepth n (walk es act) toks vs
      (λ s. walk-HasDepth es (suc n) k act s (omega arith) h) d.3,
)
