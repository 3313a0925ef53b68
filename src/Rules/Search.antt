-- ===== src/Rules/Search.antt =====
-- `index`, `search` and `match` of larking/rules.go. The conversion of captured text, `parseParam`,
-- is a parameter here.
use larking.Base.{
  ℕ, ◌+◌, ◌-◌, not, ◌||◌, Option, none, some, List, [], ◌∷◌, ◌++◌, ltb, ◌==◌, if◌then◌else◌, Bytes,
  length, take, drop, get_elem?, beq,
}
use larking.Lexer.Rune.{Tables}
use larking.Lexer.State.{
  slash, star, star_star, literal, verb, path_text, same_type, bits, Token, text, index_of,
  index_any, ok, err,
}
use larking.Lexer.Route.{lex_path}
use larking.Rules.Fields.{Method}
use larking.Rules.Tree.{
  Tree, node, Segments, no_segments, segment, Variables, no_variables, variable, lookup,
}

-- The capture length; `miss` is -1. `overrun` is an index past the tokens, `odd_token` the panic.
pub data Captured : Type 0 where
  miss overrun odd_token : Captured
  captures : ℕ → Captured

-- i += j, or i = n where j is -1
abbrev pub advance : Option ℕ → ℕ → ℕ → ℕ
advance (some j) i n = i + j
advance none i n = n

-- The rounds of `index` over the tokens of the variable, from position `i` in `toks`.
unfoldable pub index_from : List Token → List Token → ℕ → Captured
unfolding index_of index_any
index_from toks [] i = captures i
index_from toks (tok ∷ more) i =
    let one = index_from toks more (i + 1) in
    let to_slash =
      index_from toks more (advance (index_any (bits slash + bits verb) toks) i (length toks)) in
    let to_verb = index_from toks more (advance (index_of verb toks) i (length toks)) in
    if i == length toks
    then miss
    else if same_type tok.typ slash
    then (elim (get_elem? toks i) [
      | none ↦ overrun
      | some t ↦ if same_type t.typ slash then one else miss
    ])
    else if same_type tok.typ star
    then to_slash
    else if same_type tok.typ star_star
    then to_verb
    else if same_type tok.typ literal
    then (elim (get_elem? toks i) [
      | none ↦ overrun
      | some t ↦ if not (same_type t.typ path_text) || not (beq tok.val t.val) then miss else one
    ])
    else odd_token

unfoldable pub index : List Token → List Token → Captured
unfolding index_from
index pattern_ toks = index_from toks pattern_ 0

pub data SearchError : Type 0 where
  not_found method_not_allowed bad_param : SearchError

-- The panics: a slice or an index out of range, a token that no pattern has, no capture left.
pub data Fault : Type 0 where
  slice_range index_range bad_token capture_range : Fault

-- The method with its params: the value of each, if it captures one, and the fields.
pub data Found (F V : Type 0) : Type 0 where
  found : Method F → List (Option V × List F) → Found F V
  missed : SearchError → Found F V
  panics : Fault → Found F V

module _ {Field V : Type 0} where
  abbrev pub method_for :
      Bytes → List (Bytes × Method Field) → Option (Method Field) → Found Field V
  method_for v methods all = elim (lookup v methods) [
    | some m ↦ found m []
    | none ↦ elim all [ some m ↦ found m [] | none ↦ missed method_not_allowed ]
  ]

  -- m.vars[len(m.vars)-len(ps)-1]
  abbrev pub fields_left : Method Field → List (Option V × List Field) → Option (List Field)
  fields_left m ps =
      if ltb (length ps) (length m.vars)
      then get_elem? m.vars (length m.vars - length ps - 1)
      else none

module _ {Field V : Type 0} (parse : List Field → Bytes → Option V) (v : Bytes) where
  -- The param of a variable that has captured the text `s`.
  unfoldable pub add_param :
      Bytes → Method Field → List (Option V × List Field) → List Field → Found Field V
  add_param s m ps [] = found m (ps ++ ((none, []) ∷ []))
  add_param s m ps (fd ∷ fds) = elim (parse (fd ∷ fds) s) [
    | none ↦ missed bad_param
    | some val ↦ found m (ps ++ ((some val, fd ∷ fds) ∷ []))
  ]

  -- The end of a round of the loop over the variables: `below` is the search behind the capture of
  -- `s`, and `others` are the variables to come.
  unfoldable pub end_round : Bytes → Found Field V → Found Field V → Found Field V
  unfolding add_param
  end_round s (missed e) others = others
  end_round s (panics f) others = panics f
  end_round s (found m ps) others = elim (fields_left m ps) [
    | none ↦ panics capture_range
    | some fds ↦ add_param s m ps fds
  ]

  abbrev pub prefer : Option (Found Field V) → Found Field V → Found Field V
  prefer (some (found m ps)) others = found m ps
  prefer (some (panics f)) others = panics f
  prefer (some (missed e)) others = others
  prefer none others = others

  unfoldable mutual
    pub search : Tree Field → List Token → Found Field V
    search (node segs methods all vs) [] = method_for v methods all
    search (node segs methods all vs) (t ∷ []) = method_for v methods all
    search (node segs methods all vs) (t ∷ t' ∷ toks) =
        prefer (search_segments segs (t.val ++ t'.val) toks) (search_variables vs (t ∷ t' ∷ toks))

    pub search_segments : Segments Field → Bytes → List Token → Option (Found Field V)
    search_segments no_segments val toks = none
    search_segments (segment key tree more) val toks =
        let below = search tree toks in
        let others = search_segments more val toks in if beq key val then some below else others

    pub search_variables : Variables Field → List Token → Found Field V
    search_variables no_variables toks = missed not_found
    search_variables (variable pattern_ next vs) toks =
        let others = search_variables vs toks in
        elim (index pattern_ (drop 1 toks)) [
          | miss ↦ others
          | overrun ↦ panics index_range
          | odd_token ↦ panics bad_token
          | captures l ↦
              if ltb (length toks) (l + 1)
              then panics slice_range
              else end_round (text (take l (drop 1 toks))) (search next (drop (l + 1) toks)) others
        ]

-- `match`: the error of the lexer is hidden behind NotFound.
unfoldable pub match :
    {Field V : Type 0}
    → Tables
    → (List Field → Bytes → Option V)
    → Tree Field
    → Bytes
    → Bytes
    → Found Field V
unfolding search
match u parse tree route v = elim (lex_path u route) [
  | err e l ↦ missed not_found
  | ok l ↦ search parse v tree l.toks
]
