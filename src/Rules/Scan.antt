-- ===== src/Rules/Scan.antt =====
-- The loop of `addRule` in larking/rules.go over the tokens of a template, as a machine that takes
-- one token a step. It yields the edges that the loop walks from the root, and how the loop ends.
use larking.Base.{none, some, List, [], ◌∷◌, ◌++◌, if◌then◌else◌, Bytes}
use larking.Lexer.State.{
  slash, star, star_star, variable_start, variable_end, equal, literal, dot, verb, end_of_file,
  same_type, Token,
}
use larking.Rules.Fields.{Descriptors, field_path}

-- An edge of the tree: a constant with its slash or colon, or a variable's tokens.
pub data Edge : Type 0 where
  constant : Bytes → Edge
  capture : List Token → Edge

-- How the loop ends; `invalid` is its panic.
pub data Ending : Type 0 where
  complete : Ending
  field_not_found : List Bytes → Ending
  invalid : Ending

pub record Scanned (Field : Type 0) : Type 0 where
  pub edges : List Edge
  pub vars : List (List Field)
  pub ending : Ending

-- Where the loop stands: at its test; behind a slash; at a name of a field path; behind such a
-- name; in the pattern of a variable; behind a colon.
pub data Mode : Type 0 where
  at_segment : Mode
  at_value : Token → Mode
  at_field : List Bytes → Mode
  after_field : List Bytes → Mode
  in_pattern : List Bytes → List Token → Mode
  at_verb : Token → Mode

-- The default pattern of a variable.
abbrev pub star_token : Token
star_token = record { val = b'*' ∷ []; typ = star }

abbrev pub stops : {Field : Type 0} → Ending → Scanned Field
stops e = record { edges = []; vars = []; ending = e }

module _ (d : Descriptors) where
  open d use {Field, Message}

  abbrev pub with_constant : Bytes → Scanned Field → Scanned Field
  with_constant val s = record s { edges = constant val ∷ s.edges }

  abbrev pub with_capture : List Token → List Field → Scanned Field → Scanned Field
  with_capture toks fds s = record s { edges = capture toks ∷ s.edges; vars = fds ∷ s.vars }

  -- `fieldPath` and `addVariable` at the end of a variable.
  unfoldable pub end_variable : Message → List Bytes → List Token → Scanned Field → Scanned Field
  end_variable m keys toks rest = elim (field_path d m keys) [
    | none ↦ stops (field_not_found keys)
    | some fds ↦ with_capture toks fds rest
  ]

  unfoldable pub scan : Message → Mode → List Token → Scanned Field
  unfolding end_variable
  scan m mode [] = stops invalid
  scan m at_segment (tok ∷ toks) =
      let value = scan m (at_value tok) toks in
      let suffix = scan m (at_verb tok) toks in
      if same_type tok.typ slash
      then value
      else if same_type tok.typ verb
      then suffix
      else if same_type tok.typ end_of_file
      then stops complete
      else stops invalid
  scan m (at_value tok) (val ∷ toks) =
      let rest = scan m at_segment toks in
      let field = scan m (at_field []) toks in
      if same_type val.typ star
      then with_capture (val ∷ []) [] rest
      else if same_type val.typ star_star
      then with_capture (val ∷ []) [] rest
      else if same_type val.typ literal
      then with_constant (tok.val ++ val.val) rest
      else if same_type val.typ variable_start
      then field
      else stops invalid
  scan m (at_field keys) (tok ∷ toks) = scan m (after_field (keys ++ tok.val ∷ [])) toks
  scan m (after_field keys) (tok ∷ toks) =
      let more = scan m (at_field keys) toks in
      let pattern_ = scan m (in_pattern keys []) toks in
      let rest = scan m at_segment toks in
      if same_type tok.typ dot
      then more
      else if same_type tok.typ equal
      then pattern_
      else if same_type tok.typ variable_end
      then end_variable m keys (star_token ∷ []) rest
      else stops invalid
  scan m (in_pattern keys vars) (tok ∷ toks) =
      let rest = scan m at_segment toks in
      let more = scan m (in_pattern keys (vars ++ tok ∷ [])) toks in
      if same_type tok.typ variable_end then end_variable m keys vars rest else more
  scan m (at_verb tok) (val ∷ toks) = with_constant (tok.val ++ val.val) (stops complete)
