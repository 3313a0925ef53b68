-- ===== src/Lexer/Template.antt =====
-- The lexer of path templates, `lexTemplate` of larking/lexer.go.
use larking.Base.{ℕ, zero, suc, ◌+◌, ◌==◌, if◌then◌else◌, Bytes}
use larking.Lexer.Rune.{Rune, Tables, is_rune, is_eof, is_letter, is_ident, is_literal}
use larking.Lexer.State.{
  slash, star, star_star, variable_start, variable_end, equal, ident, literal, dot, verb,
  end_of_file, Lexer, new_lexer, max_toks, Lexed, ok, err, out_of_fuel, ◌>>=◌, next, backup, emit,
  err_unexpected, err_short, accept_run,
}

abbrev pub template_fuel : ℕ
template_fuel = max_toks + 2

module _ (u : Tables) where
  unfoldable pub lex_ident : Lexer → Lexed
  lex_ident l =
      let (i, l') = accept_run (is_ident u) l in if i == 0 then err_short l' else emit ident l'

  unfoldable pub lex_literal : Lexer → Lexed
  lex_literal l =
      let (i, l') = accept_run (is_literal u) l in if i == 0 then err_short l' else emit literal l'

  -- The loop of `lexFieldPath`, behind its first identifier.
  unfoldable pub lex_fields : ℕ → Lexer → Lexed
  lex_fields zero l = err out_of_fuel l
  lex_fields (suc fuel) l =
      let (r, l') = next l in
      if is_rune b'.' r
      then (do l₁ ← emit dot l'; l₂ ← lex_ident l₁; lex_fields fuel l₂)
      else ok (backup l')

  unfoldable pub lex_field_path : ℕ → Lexer → Lexed
  lex_field_path fuel l = do l₁ ← lex_ident l; lex_fields fuel l₁

  unfoldable pub lex_verb : Lexer → Lexed
  lex_verb l = do
    l₁ ← lex_literal l
    let (r, l₂) = next l₁
    if is_eof r then emit end_of_file l₂ else err_unexpected l₂

  -- The end of `lexVariable`, at the rune behind the pattern.
  unfoldable pub close_variable : Rune × Lexer → Lexed
  close_variable (r, l) = if is_rune b'}' r then emit variable_end l else err_unexpected l

  -- `segments` is the call of `lexSegments`.
  unfoldable pub lex_variable : ℕ → (Lexer → Lexed) → Lexer → Lexed
  lex_variable fuel segments l =
      let (r, l₁) = next l in
      if is_rune b'{' r
      then (do
        l₂ ← emit variable_start l₁
        l₃ ← lex_field_path fuel l₂
        let (r₄, l₄) = next l₃
        if is_rune b'=' r₄
            then (do l₅ ← emit equal l₄; l₆ ← segments l₅; close_variable (next l₆))
            else close_variable (r₄, l₄))
      else err_unexpected l₁

  unfoldable pub lex_segment : ℕ → (Lexer → Lexed) → Lexer → Lexed
  lex_segment fuel segments l =
      let (r, l₁) = next l in
      if is_letter u r
      then lex_literal l₁
      else if is_rune b'*' r
      then (let (rn, l₂) = next l₁ in
          if is_rune b'*' rn then emit star_star l₂ else emit star (backup l₂))
      else if is_rune b'{' r
      then lex_variable fuel segments (backup l₁)
      else err_unexpected l₁

  -- The fuel bounds the nesting and the rounds: each emits a token, of which there are 64 at most.
  unfoldable pub lex_segments : ℕ → Lexer → Lexed
  lex_segments zero l = err out_of_fuel l
  lex_segments (suc fuel) l = do
    l₁ ← lex_segment fuel (lex_segments fuel) l
    let (r, l₂) = next l₁
    if is_rune b'/' r then (do l₃ ← emit slash l₂; lex_segments fuel l₃) else ok (backup l₂)

  -- The end of `lexTemplate`, behind the segments.
  unfoldable pub lex_template_end : Rune × Lexer → Lexed
  lex_template_end (r, l) =
      if is_rune b':' r
      then (do l₁ ← emit verb l; lex_verb l₁)
      else if is_eof r
      then emit end_of_file l
      else err_unexpected l

  unfoldable pub lex_template_at : ℕ → Lexer → Lexed
  unfolding lex_template_end
  lex_template_at fuel l =
      let (r, l₁) = next l in
      if is_rune b'/' r
      then (do l₂ ← emit slash l₁; l₃ ← lex_segments fuel l₂; lex_template_end (next l₃))
      else err_unexpected l₁

  unfoldable pub lex_template : Bytes → Lexed
  unfolding lex_template_at
  lex_template input = lex_template_at template_fuel (new_lexer input)
