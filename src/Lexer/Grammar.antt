-- ===== src/Lexer/Grammar.antt =====
-- The grammar of path templates that heads larking/lexer.go, over types of tokens, and the shape of
-- a lexed request path.
use larking.Base.{List, [], ◌∷◌, ◌++◌, ◌≡◌, ◌⊎◌}
use larking.Lexer.State.{
  TokenType, slash, star, star_star, variable_start, variable_end, equal, ident, literal, dot, verb,
  path_text, end_of_file, Token,
}

pub data IsOne (typ : TokenType) : List Token → Type 0 where
  one : (t : Token) → t.typ ≡ typ → IsOne typ (t ∷ [])

-- FieldPath = IDENT { "." IDENT }
pub data IsFieldPath : List Token → Type 0 where
  last_field : (t : Token) → t.typ ≡ ident → IsFieldPath (t ∷ [])
  more_fields :
      (t d : Token) {ts : List Token}
      → t.typ ≡ ident
      → d.typ ≡ dot
      → IsFieldPath ts
      → IsFieldPath (t ∷ d ∷ ts)

mutual
  -- Segments = Segment { "/" Segment }
  pub data IsSegments : List Token → Type 0 where
    last_segment : {ts : List Token} → IsSegment ts → IsSegments ts
    more_segments :
        {ts us : List Token} (s : Token)
        → IsSegment ts
        → s.typ ≡ slash
        → IsSegments us
        → IsSegments (ts ++ (s ∷ us))

  -- Segment = "*" | "**" | LITERAL | Variable
  pub data IsSegment : List Token → Type 0 where
    a_star : (t : Token) → t.typ ≡ star → IsSegment (t ∷ [])
    a_star_star : (t : Token) → t.typ ≡ star_star → IsSegment (t ∷ [])
    a_literal : (t : Token) → t.typ ≡ literal → IsSegment (t ∷ [])
    a_variable :
        {ts : List Token} (o c : Token)
        → o.typ ≡ variable_start
        → IsFieldPath ts
        → c.typ ≡ variable_end
        → IsSegment (o ∷ (ts ++ (c ∷ [])))
    a_pattern :
        {ts us : List Token} (o q c : Token)
        → o.typ ≡ variable_start
        → IsFieldPath ts
        → q.typ ≡ equal
        → IsSegments us
        → c.typ ≡ variable_end
        → IsSegment (o ∷ (ts ++ (q ∷ (us ++ (c ∷ [])))))

-- Template = "/" Segments [ ":" LITERAL ], and the end.
pub data IsTemplate : List Token → Type 0 where
  no_verb :
      {ts : List Token} (s e : Token)
      → s.typ ≡ slash
      → IsSegments ts
      → e.typ ≡ end_of_file
      → IsTemplate (s ∷ (ts ++ (e ∷ [])))
  a_verb :
      {ts : List Token} (s v t e : Token)
      → s.typ ≡ slash
      → IsSegments ts
      → v.typ ≡ verb
      → t.typ ≡ literal
      → e.typ ≡ end_of_file
      → IsTemplate (s ∷ (ts ++ (v ∷ t ∷ e ∷ [])))

-- { ( "/" | ":" ) PATH }, and the end.
pub data IsRoute : List Token → Type 0 where
  route_end : (e : Token) → e.typ ≡ end_of_file → IsRoute (e ∷ [])
  route_part :
      (s t : Token) {ts : List Token}
      → (s.typ ≡ slash) ⊎ (s.typ ≡ verb)
      → t.typ ≡ path_text
      → IsRoute ts
      → IsRoute (s ∷ t ∷ ts)
