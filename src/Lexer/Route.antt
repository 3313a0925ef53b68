-- ===== src/Lexer/Route.antt =====
-- The lexer of request paths, `lexPath` of larking/lexer.go.
use larking.Base.{ℕ, zero, suc, ◌==◌, if◌then◌else◌, Bytes}
use larking.Lexer.Rune.{Tables, is_rune, is_eof, is_path}
use larking.Lexer.State.{
  slash, verb, path_text, end_of_file, Lexer, new_lexer, Lexed, err, out_of_fuel, ◌>>=◌, next, emit,
  err_unexpected, err_short, accept_run,
}

module _ (u : Tables) where
  unfoldable pub lex_path_segment : Lexer → Lexed
  lex_path_segment l =
      let (i, l') = accept_run (is_path u) l in if i == 0 then err_short l' else emit path_text l'

  -- The loop of `lexPath`; each round emits two tokens, of which there are 64 at most.
  unfoldable pub lex_path_at : ℕ → Lexer → Lexed
  lex_path_at zero l = err out_of_fuel l
  lex_path_at (suc fuel) l =
      let (r, l₁) = next l in
      if is_rune b'/' r
      then (do l₂ ← emit slash l₁; l₃ ← lex_path_segment l₂; lex_path_at fuel l₃)
      else if is_rune b':' r
      then (do l₂ ← emit verb l₁; l₃ ← lex_path_segment l₂; lex_path_at fuel l₃)
      else if is_eof r
      then emit end_of_file l₁
      else err_unexpected l₁

  unfoldable pub lex_path : Bytes → Lexed
  lex_path input = lex_path_at 34 (new_lexer input)
