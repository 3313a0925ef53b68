-- ===== src/Lexer/Accounts.antt =====
-- What a caller of the lexers of larking/lexer.go may rely on, by results.
use larking.Base.{
  ℕ, zero, suc, ◌+◌, ◌-◌, ◌*◌, ◌<◌, ◌≤◌, Bool-cases, inl, inr, arith, ◌==◌, Bytes, ◌≡◌, ◌≢◌, refl,
  sym, ◌∙◌, true, List, [], length, take, drop, leb, take_all, length-drop, ap,
}
use mathlib.Core.Path.{subst}
use larking.Lexer.Rune.{Tables, is_rune, is_eof}
use larking.Lexer.State.{
  TokenType, Lexer, Lexed, LexError, token_limit, ok, err, out_of_fuel, ◌>>=◌, next, emit,
  err_unexpected, new_lexer, text, max_toks,
}
use larking.Lexer.Moves.{At, Gives, gives, fails, rune_at-eof}
use larking.Lexer.Covers.{lex_path-Gives, lex_template-Gives}
use larking.Lexer.Route.{lex_path_segment, lex_path_at, lex_path}
use larking.Lexer.Template.{
  lex_verb, lex_template_end, lex_template_at, lex_template, lex_segments, lex_literal,
  template_fuel,
}

-- A success leaves no byte behind the last token.
data Ends : Lexed → Type 0 where
  ends : {l : Lexer} → length l.input ≤ l.start → Ends (ok l)
  breaks : {e : LexError} {l : Lexer} → Ends (err e l)

bind-Ends : (r : Lexed) (f : Lexer → Lexed) → ((l : Lexer) → Ends (f l)) → Ends (r >>= f)
bind-Ends (ok l) f k = k l
bind-Ends (err e l) f k = breaks

err_unexpected-Ends : (l : Lexer) → Ends (err_unexpected l)
unfolding err_unexpected
err_unexpected-Ends l = bind-Ends (emit TokenType.error l) _ (λ l'. breaks)

eof-inside : (l : Lexer) → is_eof (next l).0 ≡ true → length l.input ≤ (next l).1.pos
unfolding next
eof-inside l h =
    let e : drop l.pos l.input ≡ [] = rune_at-eof (drop l.pos l.input) (ground arith) in
    omega (arith, length-drop l.pos l.input, ap length e)

emit_at_end-Ends : (typ : TokenType) (l : Lexer) → length l.input ≤ l.pos → Ends (emit typ l)
unfolding emit
emit_at_end-Ends typ l h = elim (Bool-cases (leb max_toks (length l.toks))) [
  | inl full ↦ rw full breaks
  | inr room ↦ rw room (ends h)
]

input-next : (l : Lexer) → (next l).1.input ≡ l.input
unfolding next
input-next l = refl

emit-Ends : (typ : TokenType) (l : Lexer) → is_eof (next l).0 ≡ true → Ends (emit typ (next l).1)
emit-Ends typ l h = emit_at_end-Ends typ (next l).1 (rw (input-next l) (eof-inside l h))

-- The shape of both ends: the last token at the end of input, or an error.
eof_branch-Ends :
    (typ : TokenType) (l : Lexer)
    → Ends (
        larking.Base.if◌then◌else◌
          (is_eof (next l).0)
          (emit typ (next l).1)
          (err_unexpected (next l).1))
eof_branch-Ends typ l = elim (Bool-cases (is_eof (next l).0)) [
  | inl found ↦ rw found (emit-Ends typ l found)
  | inr other ↦ rw other (err_unexpected-Ends (next l).1)
]

module _ (u : Tables) where
  lex_path_at-Ends : (fuel : ℕ) (l : Lexer) → Ends (lex_path_at u fuel l)
  unfolding lex_path_at
  lex_path_at-Ends zero l = breaks
  lex_path_at-Ends (suc fuel) l = elim (Bool-cases (is_rune b'/' (next l).0)) [
    | inl found ↦ rw found (
        bind-Ends (emit TokenType.slash (next l).1) _
          λ l₂. bind-Ends (lex_path_segment u l₂) _ (lex_path_at-Ends fuel))
    | inr other ↦ rw other (elim (Bool-cases (is_rune b':' (next l).0)) [
      | inl found ↦ rw found (
          bind-Ends (emit TokenType.verb (next l).1) _
            λ l₂. bind-Ends (lex_path_segment u l₂) _ (lex_path_at-Ends fuel))
      | inr other ↦ rw other (eof_branch-Ends TokenType.end_of_file l)
    ])
  ]

  lex_template_end-Ends : (l : Lexer) → Ends (lex_template_end u (next l))
  unfolding lex_template_end lex_verb
  lex_template_end-Ends l = elim (Bool-cases (is_rune b':' (next l).0)) [
    | inl found ↦ rw found (
        bind-Ends (emit TokenType.verb (next l).1) _
          λ l₁. bind-Ends (lex_literal u l₁) _ λ l₂. eof_branch-Ends TokenType.end_of_file l₂)
    | inr other ↦ rw other (eof_branch-Ends TokenType.end_of_file l)
  ]

  lex_template-Ends : (template : Bytes) → Ends (lex_template u template)
  unfolding lex_template lex_template_at
  lex_template-Ends template = elim (Bool-cases (is_rune b'/' (next (new_lexer template)).0)) [
    | inl found ↦ rw found (
        bind-Ends (emit TokenType.slash (next (new_lexer template)).1) _
          λ l₂. bind-Ends (lex_segments u template_fuel l₂) _ lex_template_end-Ends)
    | inr other ↦ rw other (err_unexpected-Ends (next (new_lexer template)).1)
  ]

covers_all :
    {input : Bytes} (l : Lexer) → At input 0 l → length l.input ≤ l.start → text l.toks ≡ input
covers_all l a h = a.covered ∙ take_all l.start l.input h ∙ a.same

lexer_of : Lexed → Lexer
lexer_of (ok l) = l
lexer_of (err e l) = l

error_of : Lexed → LexError
error_of (ok l) = token_limit
error_of (err e l) = e

accounts_for :
    (input : Bytes) {r : Lexed} (l : Lexer)
    → Gives input 0 r
    → Ends r
    → r ≡ ok l
    → (text l.toks ≡ input) × (length l.toks ≤ max_toks)
unfolding lexer_of
accounts_for input l (gives a) (ends h) e =
    subst (λ k. (text k.toks ≡ input) × (length k.toks ≤ max_toks)) (ap lexer_of e)
      (covers_all _ a h, a.few)
accounts_for input l (fails h a) breaks e = cc

never_starves : (input : Bytes) {r : Lexed} (l : Lexer) → Gives input 0 r → r ≢ err out_of_fuel l
unfolding error_of
never_starves input l (gives a) e = cc
never_starves input l (fails h a) e = h (ap error_of e)

-- A request path that is lexed is the text of its tokens, no byte lost or repeated, and there are
-- 64 tokens at most.
pub lex_path_accounts :
    (u : Tables) (route : Bytes) (l : Lexer)
    → lex_path u route ≡ ok l
    → (text l.toks ≡ route) × (length l.toks ≤ 64)
lex_path_accounts u route l =
    accounts_for route l (lex_path-Gives u route)
      (unfold lex_path in lex_path_at-Ends u 34 (new_lexer route))

-- A template that is lexed is the text of its tokens, no byte lost or repeated, and there are 64
-- tokens at most.
pub lex_template_accounts :
    (u : Tables) (template : Bytes) (l : Lexer)
    → lex_template u template ≡ ok l
    → (text l.toks ≡ template) × (length l.toks ≤ 64)
lex_template_accounts u template l =
    accounts_for template l (lex_template-Gives u template) (lex_template-Ends u template)

-- The loops of both lexers end within the fuel of the model, whatever the input: neither returns
-- `out_of_fuel`.
pub lexers_end :
    (u : Tables) (input : Bytes) (l : Lexer)
    → (lex_path u input ≢ err out_of_fuel l) × (lex_template u input ≢ err out_of_fuel l)
lexers_end u input l = (
  never_starves input l (lex_path-Gives u input),
  never_starves input l (lex_template-Gives u input),
)
