-- ===== src/Lexer/TemplateShape.antt =====
-- The lexer of templates of larking/lexer.go emits what its grammar says.
use larking.Base.{
  ℕ, zero, suc, Bool-cases, inl, inr, if◌then◌else◌, Bytes, ◌≡◌, sym, ◌∙◌, List, [], ◌∷◌, ◌++◌,
  append-nil,
}
use mathlib.Core.Path.{subst}
use larking.Lexer.Rune.{Tables, is_rune, is_eof, is_letter, is_ident, is_literal}
use larking.Lexer.State.{
  slash, star, star_star, variable_start, variable_end, equal, ident, literal, dot, verb,
  end_of_file, Token, Lexer, Lexed, ok, ◌>>=◌, next, backup, emit, new_lexer, err_unexpected,
}
use larking.Lexer.Grammar.{
  IsOne, one, IsFieldPath, last_field, more_fields, IsSegments, last_segment, more_segments,
  IsSegment, a_star, a_star_star, a_literal, a_variable, a_pattern, IsTemplate, no_verb, a_verb,
}
use larking.Lexer.Template.{
  lex_ident, lex_literal, lex_fields, lex_field_path, lex_verb, close_variable, lex_variable,
  lex_segment, lex_segments, lex_template_end, lex_template_at, lex_template, template_fuel,
}
use larking.Lexer.Makes.{
  Makes, makes, breaks, bind-Makes, bind_one-Makes, relax_one-Makes, err_unexpected-Makes,
  emit-Makes, toks-next, toks-backup, run-Makes, emit-next-Makes, made,
}

abbrev FieldTail : List Token → Type 0
FieldTail us = (t : Token) → t.typ ≡ ident → IsFieldPath (t ∷ us)

-- What stands behind a field path within the braces.
abbrev VariableTail : List Token → Type 0
VariableTail us =
    (o : Token) (ts : List Token)
    → o.typ ≡ variable_start
    → IsFieldPath ts
    → IsSegment (o ∷ (ts ++ us))

abbrev SegmentsTail : List Token → Type 0
SegmentsTail us = (ts : List Token) → IsSegment ts → IsSegments (ts ++ us)

abbrev TemplateTail : List Token → Type 0
TemplateTail us =
    (s : Token) (ts : List Token) → s.typ ≡ slash → IsSegments ts → IsTemplate (s ∷ (ts ++ us))

pattern-IsSegment :
    (us cs : List Token)
    → IsSegments us
    → IsOne variable_end cs
    → (q : Token) → q.typ ≡ equal
    → VariableTail (q ∷ (us ++ cs))
pattern-IsSegment us cs k (one c e) q d o ts h f = a_pattern o q c h f d k e

segment_end-IsSegments :
    (ts us : List Token) → IsSegment ts → SegmentsTail us → IsSegments (ts ++ us)
segment_end-IsSegments ts us g k = k ts g

verb-IsTemplate :
    (t : Token) (us : List Token)
    → t.typ ≡ literal
    → IsOne end_of_file us
    → (v : Token) → v.typ ≡ verb
    → TemplateTail (v ∷ t ∷ us)
verb-IsTemplate t us e (one f k) v h s ts g q = a_verb s v t f g q h e k

module _ (u : Tables) where
  lex_fields-Makes : (fuel : ℕ) (l : Lexer) → Makes FieldTail l.toks (lex_fields u fuel l)
  unfolding lex_fields lex_ident
  lex_fields-Makes zero l = breaks
  lex_fields-Makes (suc fuel) l = elim (Bool-cases (is_rune b'.' (next l).0)) [
    | inl found ↦ rw found (
        bind_one-Makes
          {Q = λ us. (t d : Token) → t.typ ≡ ident → d.typ ≡ dot → IsFieldPath (t ∷ d ∷ us)} _
          (emit-next-Makes dot l)
          (λ l₁.
            bind_one-Makes _ (run-Makes (is_ident u) ident l₁) (lex_fields-Makes fuel)
              (λ i us e k t d h g. more_fields t d h g (k i e)))
          (λ d us e k t h. k t d h e))
    | inr other ↦ rw other (
        makes [] (λ t h. last_field t h)
          (toks-backup (next l).1 ∙ toks-next l ∙ sym (append-nil l.toks)))
  ]

  lex_field_path-Makes : (fuel : ℕ) (l : Lexer) → Makes IsFieldPath l.toks (lex_field_path u fuel l)
  unfolding lex_field_path lex_ident
  lex_field_path-Makes fuel l =
      bind_one-Makes _ (run-Makes (is_ident u) ident l) (lex_fields-Makes fuel) (λ t us e k. k t e)

  close_variable-Makes : (l : Lexer) → Makes (IsOne variable_end) l.toks (close_variable u (next l))
  unfolding close_variable
  close_variable-Makes l = elim (Bool-cases (is_rune b'}' (next l).0)) [
    | inl found ↦ rw found (emit-next-Makes variable_end l)
    | inr other ↦ rw other (err_unexpected-Makes _ _ _)
  ]

  module _ (fuel : ℕ) (segments : Lexer → Lexed)
      (nested : (l : Lexer) → Makes IsSegments l.toks (segments l)) where
    VariableTail-Makes :
        (l : Lexer)
        → Makes VariableTail l.toks (
            if is_rune b'=' (next l).0
            then (emit equal (next l).1 >>= λ l₅. segments l₅ >>= λ l₆. close_variable u (next l₆))
            else close_variable u (next l))
    VariableTail-Makes l = elim (Bool-cases (is_rune b'=' (next l).0)) [
      | inl found ↦ rw found (
          bind_one-Makes {Q = λ us. (q : Token) → q.typ ≡ equal → VariableTail (q ∷ us)} _
            (emit-next-Makes equal l)
            (λ l₅. bind-Makes _ (nested l₅) (λ l₆. close_variable-Makes l₆) pattern-IsSegment)
            (λ q us e k. k q e))
      | inr other ↦
          rw other (relax_one-Makes (close_variable-Makes l) (λ c e o ts h f. a_variable o c h f e))
    ]

    lex_variable-Makes : (l : Lexer) → Makes IsSegment l.toks (lex_variable u fuel segments l)
    unfolding lex_variable
    lex_variable-Makes l = elim (Bool-cases (is_rune b'{' (next l).0)) [
      | inl found ↦ rw found (
          bind_one-Makes {Q = λ us. (o : Token) → o.typ ≡ variable_start → IsSegment (o ∷ us)} _
            (emit-next-Makes variable_start l)
            (λ l₂.
              bind-Makes _ (lex_field_path-Makes fuel l₂) VariableTail-Makes
                (λ ts us f k o h. k o ts h f))
            (λ o us e k. k o e))
      | inr other ↦ rw other (err_unexpected-Makes _ _ _)
    ]

    -- The lexer of a variable starts over at the brace.
    lex_variable_again-Makes :
        (l : Lexer) → Makes IsSegment l.toks (lex_variable u fuel segments (backup (next l).1))
    lex_variable_again-Makes l =
        subst (λ ts. Makes IsSegment ts (lex_variable u fuel segments (backup (next l).1)))
          (toks-backup (next l).1 ∙ toks-next l) (lex_variable-Makes (backup (next l).1))

    lex_segment-Makes : (l : Lexer) → Makes IsSegment l.toks (lex_segment u fuel segments l)
    unfolding lex_segment lex_literal
    lex_segment-Makes l = elim (Bool-cases (is_letter u (next l).0)) [
      | inl letter ↦ rw letter (
          subst (λ ts. Makes IsSegment ts (lex_literal u (next l).1)) (toks-next l)
            (relax_one-Makes (run-Makes (is_literal u) literal (next l).1) (λ t e. a_literal t e)))
      | inr other ↦ rw other (elim (Bool-cases (is_rune b'*' (next l).0)) [
        | inl found ↦ rw found (elim (Bool-cases (is_rune b'*' (next (next l).1).0)) [
          | inl twice ↦ rw twice (
              relax_one-Makes (emit-Makes star_star l.toks _ (toks-next (next l).1 ∙ toks-next l))
                (λ t e. a_star_star t e))
          | inr once ↦ rw once (
              relax_one-Makes
                (emit-Makes star l.toks _ (toks-backup _ ∙ toks-next (next l).1 ∙ toks-next l))
                (λ t e. a_star t e))
        ])
        | inr other ↦ rw other (elim (Bool-cases (is_rune b'{' (next l).0)) [
          | inl found ↦ rw found (lex_variable_again-Makes l)
          | inr other ↦ rw other (err_unexpected-Makes _ _ _)
        ])
      ])
    ]

  lex_segments-Makes : (fuel : ℕ) (l : Lexer) → Makes IsSegments l.toks (lex_segments u fuel l)
  unfolding lex_segments
  lex_segments-Makes zero l = breaks
  lex_segments-Makes (suc fuel) l =
      bind-Makes {Q = SegmentsTail} _
        (lex_segment-Makes fuel (lex_segments u fuel) (lex_segments-Makes fuel) l)
        (λ l₁. elim (Bool-cases (is_rune b'/' (next l₁).0)) [
          | inl found ↦ rw found (
              bind_one-Makes _ (emit-next-Makes slash l₁) (lex_segments-Makes fuel)
                (λ s us e k ts g. more_segments s g e k))
          | inr other ↦ rw other (
              makes [] (λ ts g. rw append-nil (last_segment g))
                (toks-backup (next l₁).1 ∙ toks-next l₁ ∙ sym (append-nil l₁.toks)))
        ])
        segment_end-IsSegments

  verb_end-Makes :
      (l : Lexer)
      → Makes
          (IsOne end_of_file)
          l.toks
          (if is_eof (next l).0 then emit end_of_file (next l).1 else err_unexpected (next l).1)
  verb_end-Makes l = elim (Bool-cases (is_eof (next l).0)) [
    | inl found ↦ rw found (emit-next-Makes end_of_file l)
    | inr other ↦ rw other (err_unexpected-Makes _ _ _)
  ]

  lex_template_end-Makes : (l : Lexer) → Makes TemplateTail l.toks (lex_template_end u (next l))
  unfolding lex_template_end lex_verb lex_literal
  lex_template_end-Makes l = elim (Bool-cases (is_rune b':' (next l).0)) [
    | inl found ↦ rw found (
        bind_one-Makes {Q = λ us. (v : Token) → v.typ ≡ verb → TemplateTail (v ∷ us)} _
          (emit-next-Makes verb l)
          (λ l₁.
            bind_one-Makes _ (run-Makes (is_literal u) literal l₁) verb_end-Makes
              (λ t us e k v h s ts g q. verb-IsTemplate t us e k v h s ts g q))
          (λ v us e k. k v e))
    | inr other ↦ rw other (relax_one-Makes (verb_end-Makes l) (λ e h s ts g q. no_verb s e g q h))
  ]

  lex_template-Makes : (template : Bytes) → Makes IsTemplate [] (lex_template u template)
  unfolding lex_template lex_template_at
  lex_template-Makes template = elim (Bool-cases (is_rune b'/' (next (new_lexer template)).0)) [
    | inl found ↦ rw found (
        bind_one-Makes {Q = λ us. (s : Token) → s.typ ≡ slash → IsTemplate (s ∷ us)} _
          (emit-next-Makes slash (new_lexer template))
          (λ l₂.
            bind-Makes _ (lex_segments-Makes template_fuel l₂) lex_template_end-Makes
              (λ ts us g k s h. k s ts h g))
          (λ s us e k. k s e))
    | inr other ↦ rw other (err_unexpected-Makes _ _ _)
  ]

-- The tokens of a template that is lexed follow the grammar at the head of the source.
pub lex_template-IsTemplate :
    (u : Tables) (template : Bytes) (l : Lexer) → lex_template u template ≡ ok l → IsTemplate l.toks
lex_template-IsTemplate u template l = made l (lex_template-Makes u template)
