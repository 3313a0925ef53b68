-- ===== src/Lexer/RouteShape.antt =====
-- The lexer of request paths of larking/lexer.go emits what its comment says.
use larking.Base.{ℕ, zero, suc, ◌⊎◌, Bool-cases, inl, inr, Bytes, ◌≡◌, List, ◌∷◌}
use larking.Lexer.Rune.{Tables, is_rune, is_eof, is_path}
use larking.Lexer.State.{slash, verb, path_text, end_of_file, Token, Lexer, ok, next, new_lexer}
use larking.Lexer.Grammar.{IsRoute, route_end, route_part}
use larking.Lexer.Route.{lex_path_segment, lex_path_at, lex_path}
use larking.Lexer.Makes.{
  Makes, breaks, bind_one-Makes, relax_one-Makes, err_unexpected-Makes, run-Makes, emit-next-Makes,
  made,
}

abbrev PathTail : List Token → Type 0
PathTail us = (s : Token) → (s.typ ≡ slash) ⊎ (s.typ ≡ verb) → IsRoute (s ∷ us)

module _ (u : Tables) where
  lex_path_at-Makes : (fuel : ℕ) (l : Lexer) → Makes IsRoute l.toks (lex_path_at u fuel l)
  unfolding lex_path_at lex_path_segment
  lex_path_at-Makes zero l = breaks
  lex_path_at-Makes (suc fuel) l = elim (Bool-cases (is_rune b'/' (next l).0)) [
    | inl found ↦ rw found (
        bind_one-Makes {Q = PathTail} _ (emit-next-Makes slash l)
          (λ l₂.
            bind_one-Makes _ (run-Makes (is_path u) path_text l₂) (lex_path_at-Makes fuel)
              (λ t us e k s h. route_part s t h e k))
          (λ s us e k. k s (inl e)))
    | inr other ↦ rw other (elim (Bool-cases (is_rune b':' (next l).0)) [
      | inl found ↦ rw found (
          bind_one-Makes {Q = PathTail} _ (emit-next-Makes verb l)
            (λ l₂.
              bind_one-Makes _ (run-Makes (is_path u) path_text l₂) (lex_path_at-Makes fuel)
                (λ t us e k s h. route_part s t h e k))
            (λ s us e k. k s (inr e)))
      | inr other ↦ rw other (elim (Bool-cases (is_eof (next l).0)) [
        | inl found ↦
            rw found (relax_one-Makes (emit-next-Makes end_of_file l) (λ t e. route_end t e))
        | inr other ↦ rw other (err_unexpected-Makes _ _ _)
      ])
    ])
  ]

-- The tokens of a request path that is lexed are slashes and colons, each with a path token behind
-- it, up to the end token.
pub lex_path-IsRoute :
    (u : Tables) (route : Bytes) (l : Lexer) → lex_path u route ≡ ok l → IsRoute l.toks
unfolding lex_path
lex_path-IsRoute u route l = made l (lex_path_at-Makes u 34 (new_lexer route))
