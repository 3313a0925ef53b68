-- ===== src/Lexer/Covers.antt =====
-- Both lexers of larking/lexer.go account for every byte that they read, stay within the 64 tokens,
-- and end within the fuel of the model.
use larking.Base.{ℕ, zero, suc, ◌+◌, ◌*◌, ◌<◌, Bool-cases, inl, inr, arith, ◌==◌, Bytes, refl}
use larking.Lexer.Rune.{Tables, is_rune, is_eof, is_letter, is_ident, is_literal, is_path}
use larking.Lexer.State.{TokenType, Lexer, Lexed, next, accept_run, new_lexer, max_toks}
use larking.Lexer.Moves.{
  At, Gives, gives, At-le, Gives-le, bind-Gives, next-At, backup-next-At, accept_run-At, emit-Gives,
  err_unexpected-Gives, err_short-Gives,
}
use larking.Lexer.Route.{lex_path_segment, lex_path_at, lex_path}
use larking.Lexer.Template.{
  lex_ident, lex_literal, lex_fields, lex_field_path, lex_verb, close_variable, lex_variable,
  lex_segment, lex_segments, lex_template_end, lex_template_at, lex_template, template_fuel,
}

out-of-room : {inp : Bytes} {n : ℕ} {l : Lexer} → At inp n l → max_toks < n → ⊥
out-of-room a h = let f = a.few in let e = a.emitted in omega arith

new_lexer-At : (inp : Bytes) → At inp 0 (new_lexer inp)
new_lexer-At inp = record {
  same = refl;
  ordered = omega arith;
  inside = omega arith;
  covered = refl;
  few = omega arith;
  emitted = omega arith;
}

module _ (u : Tables) {inp : Bytes} {n : ℕ} where
  lex_path_segment-Gives : {l : Lexer} → At inp n l → Gives inp (suc n) (lex_path_segment u l)
  unfolding lex_path_segment
  lex_path_segment-Gives {l = l} a = elim (Bool-cases ((accept_run (is_path u) l).0 == 0)) [
    | inl short ↦ rw short (err_short-Gives (suc n) (accept_run-At (is_path u) a))
    | inr some ↦ rw some (emit-Gives TokenType.path_text (accept_run-At (is_path u) a))
  ]

  lex_ident-Gives : {l : Lexer} → At inp n l → Gives inp (suc n) (lex_ident u l)
  unfolding lex_ident
  lex_ident-Gives {l = l} a = elim (Bool-cases ((accept_run (is_ident u) l).0 == 0)) [
    | inl short ↦ rw short (err_short-Gives (suc n) (accept_run-At (is_ident u) a))
    | inr some ↦ rw some (emit-Gives TokenType.ident (accept_run-At (is_ident u) a))
  ]

  lex_literal-Gives : {l : Lexer} → At inp n l → Gives inp (suc n) (lex_literal u l)
  unfolding lex_literal
  lex_literal-Gives {l = l} a = elim (Bool-cases ((accept_run (is_literal u) l).0 == 0)) [
    | inl short ↦ rw short (err_short-Gives (suc n) (accept_run-At (is_literal u) a))
    | inr some ↦ rw some (emit-Gives TokenType.literal (accept_run-At (is_literal u) a))
  ]

  close_variable-Gives : {l : Lexer} → At inp n l → Gives inp (suc n) (close_variable u (next l))
  unfolding close_variable
  close_variable-Gives {l = l} a = elim (Bool-cases (is_rune b'}' (next l).0)) [
    | inl found ↦ rw found (emit-Gives TokenType.variable_end (next-At a))
    | inr other ↦ rw other (err_unexpected-Gives (suc n) (next-At a))
  ]

module _ (u : Tables) {inp : Bytes} where
  lex_path_at-Gives :
      (fuel n : ℕ) {l : Lexer}
      → At inp n l
      → max_toks < n + 2 * fuel
      → Gives inp n (lex_path_at u fuel l)
  unfolding lex_path_at
  lex_path_at-Gives zero n a h = absurd (out-of-room a (omega arith))
  lex_path_at-Gives (suc fuel) n {l = l} a h = elim (Bool-cases (is_rune b'/' (next l).0)) [
    | inl found ↦ rw found (
        bind-Gives _ (emit-Gives TokenType.slash (next-At a)) λ l₂ a₂.
          bind-Gives _ (lex_path_segment-Gives u a₂)
            λ l₃ a₃. Gives-le (omega arith) (lex_path_at-Gives fuel (suc (suc n)) a₃ (omega arith)))
    | inr other ↦ rw other (elim (Bool-cases (is_rune b':' (next l).0)) [
      | inl found ↦ rw found (
          bind-Gives _ (emit-Gives TokenType.verb (next-At a)) λ l₂ a₂.
            bind-Gives _ (lex_path_segment-Gives u a₂) λ l₃ a₃.
              Gives-le (omega arith) (lex_path_at-Gives fuel (suc (suc n)) a₃ (omega arith)))
      | inr other ↦ rw other (elim (Bool-cases (is_eof (next l).0)) [
        | inl found ↦
            rw found (Gives-le (omega arith) (emit-Gives TokenType.end_of_file (next-At a)))
        | inr other ↦ rw other (err_unexpected-Gives n (next-At a))
      ])
    ])
  ]

  lex_fields-Gives :
      (fuel n : ℕ) {l : Lexer}
      → At inp n l
      → max_toks < n + fuel
      → Gives inp n (lex_fields u fuel l)
  unfolding lex_fields
  lex_fields-Gives zero n a h = absurd (out-of-room a (omega arith))
  lex_fields-Gives (suc fuel) n {l = l} a h = elim (Bool-cases (is_rune b'.' (next l).0)) [
    | inl found ↦ rw found (
        bind-Gives _ (emit-Gives TokenType.dot (next-At a)) λ l₁ a₁.
          bind-Gives _ (lex_ident-Gives u a₁)
            λ l₂ a₂. Gives-le (omega arith) (lex_fields-Gives fuel (suc (suc n)) a₂ (omega arith)))
    | inr other ↦ rw other (gives (backup-next-At a))
  ]

  lex_verb-Gives : (n : ℕ) {l : Lexer} → At inp n l → Gives inp n (lex_verb u l)
  unfolding lex_verb
  lex_verb-Gives n a = bind-Gives _ (lex_literal-Gives u a) λ l₁ a₁.
      elim (Bool-cases (is_eof (next l₁).0)) [
        | inl found ↦
            rw found (Gives-le (omega arith) (emit-Gives TokenType.end_of_file (next-At a₁)))
        | inr other ↦ rw other (err_unexpected-Gives n (next-At a₁))
      ]

  module _ (fuel n : ℕ) (segments : Lexer → Lexed)
      (nested : (m : ℕ) (l : Lexer)
        → At inp m l
        → max_toks < m + fuel
        → Gives inp m (segments l)) where
    lex_variable-Gives :
        {l : Lexer}
        → At inp n l
        → max_toks < n + suc fuel
        → Gives inp (suc n) (lex_variable u fuel segments l)
    unfolding lex_variable lex_field_path
    lex_variable-Gives {l = l} a h = elim (Bool-cases (is_rune b'{' (next l).0)) [
      | inr other ↦ rw other (err_unexpected-Gives (suc n) (next-At a))
      | inl found ↦ rw found (
          bind-Gives _ (emit-Gives TokenType.variable_start (next-At a)) λ l₂ a₂.
            bind-Gives _
              (bind-Gives _ (lex_ident-Gives u a₂)
                λ l' a'. lex_fields-Gives fuel (suc (suc n)) a' (omega arith))
              λ l₃ a₃. elim (Bool-cases (is_rune b'=' (next l₃).0)) [
                | inl found ↦ rw found (
                    bind-Gives _ (emit-Gives TokenType.equal (next-At a₃)) λ l₅ a₅.
                      bind-Gives _ (nested (suc (suc (suc n))) l₅ a₅ (omega arith))
                        λ l₆ a₆. Gives-le (omega arith) (close_variable-Gives u a₆))
                | inr other ↦ rw other (Gives-le (omega arith) (close_variable-Gives u a₃))
              ])
    ]

    lex_segment-Gives :
        {l : Lexer}
        → At inp n l
        → max_toks < n + suc fuel
        → Gives inp (suc n) (lex_segment u fuel segments l)
    unfolding lex_segment
    lex_segment-Gives {l = l} a h = elim (Bool-cases (is_letter u (next l).0)) [
      | inl letter ↦ rw letter (lex_literal-Gives u (next-At a))
      | inr other ↦ rw other (elim (Bool-cases (is_rune b'*' (next l).0)) [
        | inl found ↦ rw found (elim (Bool-cases (is_rune b'*' (next (next l).1).0)) [
          | inl twice ↦ rw twice (emit-Gives TokenType.star_star (next-At (next-At a)))
          | inr once ↦ rw once (emit-Gives TokenType.star (backup-next-At (next-At a)))
        ])
        | inr other ↦ rw other (elim (Bool-cases (is_rune b'{' (next l).0)) [
          | inl found ↦ rw found (lex_variable-Gives (backup-next-At a) h)
          | inr other ↦ rw other (err_unexpected-Gives (suc n) (next-At a))
        ])
      ])
    ]

  lex_segments-Gives :
      (fuel n : ℕ) (l : Lexer)
      → At inp n l
      → max_toks < n + fuel
      → Gives inp n (lex_segments u fuel l)
  unfolding lex_segments
  lex_segments-Gives zero n l a h = absurd (out-of-room a (omega arith))
  lex_segments-Gives (suc fuel) n l a h =
      bind-Gives _ (lex_segment-Gives fuel n (lex_segments u fuel) (lex_segments-Gives fuel) a h)
        λ l₁ a₁. elim (Bool-cases (is_rune b'/' (next l₁).0)) [
          | inl found ↦ rw found (
              bind-Gives _ (emit-Gives TokenType.slash (next-At a₁)) λ l₃ a₃.
                Gives-le (omega arith) (lex_segments-Gives fuel (suc (suc n)) l₃ a₃ (omega arith)))
          | inr other ↦ rw other (gives (At-le (omega arith) (backup-next-At a₁)))
        ]

  lex_template_end-Gives :
      (n : ℕ) {l : Lexer} → At inp n l → Gives inp n (lex_template_end u (next l))
  unfolding lex_template_end
  lex_template_end-Gives n {l = l} a = elim (Bool-cases (is_rune b':' (next l).0)) [
    | inl found ↦ rw found (
        bind-Gives _ (emit-Gives TokenType.verb (next-At a))
          λ l₁ a₁. Gives-le (omega arith) (lex_verb-Gives (suc n) a₁))
    | inr other ↦ rw other (elim (Bool-cases (is_eof (next l).0)) [
      | inl found ↦ rw found (Gives-le (omega arith) (emit-Gives TokenType.end_of_file (next-At a)))
      | inr other ↦ rw other (err_unexpected-Gives n (next-At a))
    ])
  ]

pub lex_path-Gives : (u : Tables) (route : Bytes) → Gives route 0 (lex_path u route)
unfolding lex_path
lex_path-Gives u route = lex_path_at-Gives u 34 0 (new_lexer-At route) (omega arith)

pub lex_template-Gives :
    (u : Tables) (template : Bytes) → Gives template 0 (lex_template u template)
unfolding lex_template lex_template_at
lex_template-Gives u template = elim (Bool-cases (is_rune b'/' (next (new_lexer template)).0)) [
  | inl found ↦ rw found (
      bind-Gives _ (emit-Gives TokenType.slash (next-At (new_lexer-At template))) λ l₂ a₂.
        bind-Gives _ (lex_segments-Gives u template_fuel 1 l₂ a₂ (omega arith))
          λ l₃ a₃. Gives-le (omega arith) (lex_template_end-Gives u 1 a₃))
  | inr other ↦ rw other (err_unexpected-Gives 0 (next-At (new_lexer-At template)))
]
