-- ===== src/Rules/Nesting.antt =====
-- When the loop of `addRule` in larking/rules.go panics over a template that the lexer accepts: a
-- variable within the pattern of a variable.
use larking.Base.{
  true, false, List, [], ◌∷◌, ◌++◌, ◌≡◌, ◌≢◌, ◌⊎◌, sym, ap, ◌∙◌, arith, append_assoc, Bytes, inl,
  inr,
}
use larking.Lexer.State.{slash, star, star_star, literal, verb, end_of_file, Token, Lexer, ok}
use mathlib.Core.Path.{subst}
use larking.Lexer.Rune.{Tables}
use larking.Lexer.Template.{lex_template}
use larking.Lexer.TemplateShape.{lex_template-IsTemplate}
use larking.Lexer.Grammar.{
  IsSegments, last_segment, more_segments, IsSegment, a_star, a_star_star, a_literal, a_variable,
  a_pattern, IsTemplate, no_verb, a_verb,
}
use larking.Rules.Fields.{Descriptors}
use larking.Rules.Scan.{invalid, Scanned, at_segment, at_value, end_variable, scan}
use larking.Rules.Flat.{is_flat, Closes, plain_variable, pattern_variable}

module _ (d : Descriptors) where
  open d use {Field, Message}

  abbrev NotInvalid : Scanned Field → Type 0
  NotInvalid s = s.ending ≢ invalid

  end_variable-NotInvalid :
      (m : Message) (keys : List Bytes) (toks : List Token) (s : Scanned Field)
      → NotInvalid s
      → NotInvalid (end_variable d m keys toks s)
  unfolding end_variable
  end_variable-NotInvalid m keys toks s h = ground arith

  -- Once the loop may go on behind `ts`, it does not panic from the slash before it.
  abbrev Passes : Message → Token → List Token → List Token → Type 0
  Passes m tok rest ts =
      is_flat false ts ≡ true
      → (is_flat false rest ≡ true → NotInvalid (scan d m at_segment rest))
      → NotInvalid (scan d m (at_value tok) ts)

  closed-NotInvalid :
      (m : Message) (tok : Token) (ts rest : List Token)
      → Closes d m tok ts rest
      → (is_flat false rest ≡ true → NotInvalid (scan d m at_segment rest))
      → NotInvalid (scan d m (at_value tok) ts)
  closed-NotInvalid m tok ts rest (keys, toks, p, flat) k =
      rw p (end_variable-NotInvalid m keys toks (scan d m at_segment rest) (k flat))

  one-Passes :
      (m : Message) (tok t : Token) (rest : List Token)
      → (t.typ ≡ star) ⊎ (t.typ ≡ star_star) ⊎ (t.typ ≡ literal)
      → Passes m tok rest (t ∷ rest)
  unfolding scan is_flat
  one-Passes m tok t rest (inl e) h k = rw e (k (rw e at h))
  one-Passes m tok t rest (inr (inl e)) h k = rw e (k (rw e at h))
  one-Passes m tok t rest (inr (inr e)) h k = rw e (k (rw e at h))

  segment-Passes :
      {ts : List Token} (m : Message) (tok : Token) (rest : List Token)
      → IsSegment ts
      → Passes m tok rest (ts ++ rest)
  segment-Passes m tok rest (a_star t e) = one-Passes m tok t rest (inl e)
  segment-Passes m tok rest (a_star_star t e) = one-Passes m tok t rest (inr (inl e))
  segment-Passes m tok rest (a_literal t e) = one-Passes m tok t rest (inr (inr e))
  segment-Passes m tok rest (a_variable {ts} o c e f g) =
      subst (Passes m tok rest) (ap (λ l. o ∷ l) (sym (append_assoc ts (c ∷ []) rest)))
        (λ h k. closed-NotInvalid m tok _ rest (plain_variable d m tok o c rest e f g h) k)
  segment-Passes m tok rest (a_pattern {ts} {us} o q c e f g i j) =
      subst (Passes m tok rest)
        (ap (λ l. o ∷ l)
          (ap (λ l. ts ++ (q ∷ l)) (sym (append_assoc us (c ∷ []) rest))
            ∙ sym (append_assoc ts (q ∷ (us ++ (c ∷ []))) rest)))
        (λ h k. closed-NotInvalid m tok _ rest (pattern_variable d m tok o q c rest e f g i j h) k)

  slash_next :
      (m : Message) (s : Token) (rest : List Token)
      → s.typ ≡ slash
      → scan d m at_segment (s ∷ rest) ≡ scan d m (at_value s) rest
  unfolding scan
  slash_next m s rest e = rw e

  flat_slash :
      (s : Token) (rest : List Token)
      → s.typ ≡ slash
      → is_flat false (s ∷ rest) ≡ true
      → is_flat false rest ≡ true
  unfolding is_flat
  flat_slash s rest e h = rw e at h

  segments-Passes :
      {ts : List Token} (m : Message) (tok : Token) (rest : List Token)
      → IsSegments ts
      → Passes m tok rest (ts ++ rest)
  segments-Passes m tok rest (last_segment g) = segment-Passes m tok rest g
  segments-Passes m tok rest (more_segments {ts} {us} s g e i) =
      subst (Passes m tok rest) (sym (append_assoc ts (s ∷ us) rest)) (λ h k.
        segment-Passes m tok (s ∷ (us ++ rest)) g h (λ h'.
          rw (slash_next m s (us ++ rest) e)
            (segments-Passes m s rest i (flat_slash s (us ++ rest) e h') k)))

  end-NotInvalid :
      (m : Message) (e : Token) → e.typ ≡ end_of_file → NotInvalid (scan d m at_segment (e ∷ []))
  unfolding scan
  end-NotInvalid m e h = rw h (λ p. cc)

  verb-NotInvalid :
      (m : Message) (v t e : Token)
      → v.typ ≡ verb
      → NotInvalid (scan d m at_segment (v ∷ t ∷ e ∷ []))
  unfolding scan
  verb-NotInvalid m v t e h = rw h (λ p. cc)

  template-NotInvalid :
      {ts : List Token} (m : Message)
      → IsTemplate ts
      → is_flat false ts ≡ true
      → NotInvalid (scan d m at_segment ts)
  template-NotInvalid m (no_verb {ts} s e p g q) h =
      rw (slash_next m s (ts ++ (e ∷ [])) p)
        (segments-Passes m s (e ∷ []) g (flat_slash s _ p h) (λ _. end-NotInvalid m e q))
  template-NotInvalid m (a_verb {ts} s v t e p g q r i) h =
      rw (slash_next m s (ts ++ (v ∷ t ∷ e ∷ [])) p) (
        segments-Passes m s (v ∷ t ∷ e ∷ []) g (flat_slash s _ p h)
          (λ _. verb-NotInvalid m v t e q))

-- The loop of `addRule` does not panic over the tokens of a template that the lexer accepts, if no
-- variable of the template stands within the pattern of a variable.
pub scan-lex_template :
    (d : Descriptors) (u : Tables) (m : d.Message) (template : Bytes) (l : Lexer)
    → lex_template u template ≡ ok l
    → is_flat false l.toks ≡ true
    → (scan d m at_segment l.toks).ending ≢ invalid
scan-lex_template d u m template l e h =
    template-NotInvalid d m (lex_template-IsTemplate u template l e) h
