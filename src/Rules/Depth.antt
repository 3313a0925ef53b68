-- ===== src/Rules/Depth.antt =====
-- The captures of a method match the variables on its path in the tree of larking/rules.go, so that
-- `search` finds the fields of each capture.
use larking.Base.{
  ℕ, zero, suc, ◌+◌, ◌-◌, ◌<◌, Option, none, some, List, [], ◌∷◌, ◌++◌, ◌≡◌, ◌≢◌, refl, ◌∙◌, arith,
  Bytes, length, length-append, get_elem?, ltb, lt→ltb, drop, Bool-cases, Option-cases, inl, inr,
  beq, if◌then◌else◌, take,
}
use larking.Lexer.State.{Token, text}
use larking.Rules.Fields.{Method}
use larking.Rules.Tree.{
  Tree, node, Segments, no_segments, segment, Variables, no_variables, variable, lookup,
}
use larking.Rules.Search.{
  Found, found, missed, panics, Fault, slice_range, index_range, bad_token, capture_range,
  SearchError, method_not_allowed, method_not_allowed, Captured, captures, miss, overrun, odd_token,
  method_for, fields_left, add_param, end_round, prefer, index, search, search_segments,
  search_variables,
}

module _ {F : Type 0} where
  abbrev pub MethodsHaveDepth : ℕ → List (Bytes × Method F) → Type 0
  MethodsHaveDepth n [] = Unit
  MethodsHaveDepth n ((k, m) ∷ ms) = (length m.vars ≡ n) × MethodsHaveDepth n ms

  abbrev pub AllHasDepth : ℕ → Option (Method F) → Type 0
  AllHasDepth n none = Unit
  AllHasDepth n (some m) = length m.vars ≡ n

-- Below `n` variables, a method has `n` captures more than there are variables on the way to it.
unfoldable mutual
  pub HasDepth : {F : Type 0} → ℕ → Tree F → Type 0
  HasDepth n (node segs methods all vs) =
      SegmentsHaveDepth n segs
      × MethodsHaveDepth n methods
      × AllHasDepth n all
      × VariablesHaveDepth n vs

  pub SegmentsHaveDepth : {F : Type 0} → ℕ → Segments F → Type 0
  SegmentsHaveDepth n no_segments = Unit
  SegmentsHaveDepth n (segment key tree more) = HasDepth n tree × SegmentsHaveDepth n more

  pub VariablesHaveDepth : {F : Type 0} → ℕ → Variables F → Type 0
  VariablesHaveDepth n no_variables = Unit
  VariablesHaveDepth n (variable toks next vs) = HasDepth (suc n) next × VariablesHaveDepth n vs

-- A result of a search below `n` variables: a found method has `n` captures more than there are
-- params, and no capture is looked for in vain.
pub data Sized {F V : Type 0} (n : ℕ) : Found F V → Type 0 where
  sized :
      {m : Method F} {ps : List (Option V × List F)}
      → length m.vars ≡ n + length ps
      → Sized n (found m ps)
  misses : {e : SearchError} → Sized n (missed e)
  faults : {f : Fault} → f ≢ capture_range → Sized n (panics f)

data SizedIf {F V : Type 0} (n : ℕ) : Option (Found F V) → Type 0 where
  nothing : SizedIf n none
  something : {r : Found F V} → Sized n r → SizedIf n (some r)

get-below : {A : Type 0} (xs : List A) (i : ℕ) → i < length xs → (a : A) × (get_elem? xs i ≡ some a)
get-below [] i h = elim h [ ]
get-below (x ∷ xs) zero h = (x, refl)
get-below (x ∷ xs) (suc i) h = get-below xs i (omega arith)

zero_right : (n : ℕ) → n ≡ n + 0
zero_right n = omega arith

module _ {F : Type 0} where
  lookup-HasDepth :
      (n : ℕ) (k : Bytes) (ms : List (Bytes × Method F))
      → MethodsHaveDepth n ms
      → AllHasDepth n (lookup k ms)
  unfolding lookup
  lookup-HasDepth n k [] h = tt
  lookup-HasDepth n k ((j, m) ∷ ms) h = ground (arith, lookup-HasDepth n k ms)

module _ {F V : Type 0} where
  method_for-Sized :
      (n : ℕ) (v : Bytes) (ms : List (Bytes × Method F)) (all : Option (Method F))
      → MethodsHaveDepth n ms
      → AllHasDepth n all
      → Sized n (method_for {V = V} v ms all)
  method_for-Sized n v ms all h k = elim (Option-cases (lookup v ms)) [
    | inr (m, e) ↦ rw (e, method_for) (sized (rw e at (lookup-HasDepth n v ms h) ∙ zero_right n))
    | inl e ↦ rw (e, method_for) (of_all all k)
  ]
    where
      of_all :
          (all : Option (Method F))
          → AllHasDepth n all
          → Sized {V = V} n (elim all [ some m ↦ found m [] | none ↦ missed method_not_allowed ])
      of_all none k = misses
      of_all (some m) k = sized (k ∙ zero_right n)

  fields_left-some :
      (n : ℕ) (m : Method F) (ps : List (Option V × List F))
      → length m.vars ≡ suc n + length ps
      → (fds : List F) × (fields_left m ps ≡ some fds)
  fields_left-some n m ps h =
      let (fds, e) = get-below m.vars (length m.vars - length ps - 1) (omega arith) in
      (fds, rw (lt→ltb (length ps) (length m.vars) (omega arith)) e)

module _ {F V : Type 0} (parse : List F → Bytes → Option V) (v : Bytes) where
  add_param-Sized :
      (n : ℕ) (s : Bytes) (m : Method F) (ps : List (Option V × List F)) (fds : List F)
      → length m.vars ≡ suc n + length ps
      → Sized n (add_param parse v s m ps fds)
  unfolding add_param
  add_param-Sized n s m ps [] h = sized (omega (arith, length-append {0} ps ((none, []) ∷ [])))
  add_param-Sized n s m ps (fd ∷ fds) h = elim (Option-cases (parse (fd ∷ fds) s)) [
    | inl bad ↦ rw (bad, add_param) misses
    | inr (val, good) ↦
        rw (good, add_param)
          (sized (omega (arith, length-append {0} ps ((some val, fd ∷ fds) ∷ []))))
  ]

  end_round-Sized :
      (n : ℕ) (s : Bytes) (below others : Found F V)
      → Sized (suc n) below
      → Sized n others
      → Sized n (end_round parse v s below others)
  unfolding end_round
  end_round-Sized n s _ others misses k = k
  end_round-Sized n s _ others (faults f) k = faults f
  end_round-Sized n s _ others (sized {m} {ps} h) k =
      let (fds, e) = fields_left-some {V = V} n m ps h in
      rw (e, end_round) (add_param-Sized n s m ps fds h)

  prefer-Sized :
      (n : ℕ) (first : Option (Found F V)) (others : Found F V)
      → SizedIf n first
      → Sized n others
      → Sized n (prefer parse v first others)
  prefer-Sized n _ others nothing k = k
  prefer-Sized n _ others (something misses) k = k
  prefer-Sized n _ others (something (faults f)) k = faults f
  prefer-Sized n _ others (something (sized h)) k = sized h

  round-Sized :
      (n : ℕ) (c : Captured) (toks : List Token) (below : ℕ → Found F V) (others : Found F V)
      → ((l : ℕ) → Sized (suc n) (below l))
      → Sized n others
      → Sized n (elim c [
        | miss ↦ others
        | overrun ↦ panics index_range
        | odd_token ↦ panics bad_token
        | captures l ↦
            if ltb (length toks) (l + 1)
            then panics slice_range
            else end_round parse v (text (take l (drop 1 toks))) (below l) others
      ])
  round-Sized n miss toks below others h k = k
  round-Sized n overrun toks below others h k = faults (λ e. cc)
  round-Sized n odd_token toks below others h k = faults (λ e. cc)
  round-Sized n (captures l) toks below others h k = elim (Bool-cases (ltb (length toks) (l + 1))) [
    | inl past ↦ rw past (faults (λ e. cc))
    | inr inside ↦ rw inside (end_round-Sized n _ (below l) others (h l) k)
  ]

  mutual
    unfolding search HasDepth

    pub search-Sized :
        (n : ℕ) (t : Tree F) (toks : List Token) → HasDepth n t → Sized n (search parse v t toks)
    search-Sized n (node segs methods all vs) [] h =
        method_for-Sized {V = V} n v methods all h.1 h.2
    search-Sized n (node segs methods all vs) (t ∷ []) h =
        method_for-Sized {V = V} n v methods all h.1 h.2
    search-Sized n (node segs methods all vs) (t ∷ t' ∷ toks) h =
        prefer-Sized n (search_segments parse v segs (t.val ++ t'.val) toks) _
          (search_segments-Sized n segs _ toks h.0)
          (search_variables-Sized n vs (t ∷ t' ∷ toks) h.3)

    search_segments-Sized :
        (n : ℕ) (segs : Segments F) (val : Bytes) (toks : List Token)
        → SegmentsHaveDepth n segs
        → SizedIf n (search_segments parse v segs val toks)
    search_segments-Sized n no_segments val toks h = nothing
    search_segments-Sized n (segment key tree more) val toks h = elim (Bool-cases (beq key val)) [
      | inl same ↦ rw same (something (search-Sized n tree toks h.0))
      | inr other ↦ rw other (search_segments-Sized n more val toks h.1)
    ]

    search_variables-Sized :
        (n : ℕ) (vs : Variables F) (toks : List Token)
        → VariablesHaveDepth n vs
        → Sized n (search_variables parse v vs toks)
    search_variables-Sized n no_variables toks h = misses
    search_variables-Sized n (variable pattern_ next vs) toks h =
        round-Sized n (index pattern_ (drop 1 toks)) toks
          (λ l. search parse v next (drop (l + 1) toks)) _
          (λ l. search-Sized (suc n) next (drop (l + 1) toks) h.0)
          (search_variables-Sized n vs toks h.1)
