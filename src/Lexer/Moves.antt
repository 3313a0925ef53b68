-- ===== src/Lexer/Moves.antt =====
-- What the primitive moves of the lexer of larking/lexer.go keep.
use larking.Base.{
  ℕ, zero, suc, ◌+◌, ◌-◌, ◌≤◌, ◌<◌, ◌≡◌, ◌≢◌, refl, sym, ◌∙◌, Bool, List, [], ◌∷◌, ◌++◌, append-nil,
  append_assoc, arith, leb, Bytes, length, take, drop, length-append, length-drop,
  take-append-slice, Bool-cases, inl, inr,
}
use larking.Lexer.Rune.{Rune, eof, decode_rune}
use larking.Lexer.State.{
  TokenType, Token, text, Lexer, max_toks, LexError, out_of_fuel, Lexed, ok, err, ◌>>=◌, rune_at,
  next, backup, emit, err_unexpected, err_short, accept_from, accept_run,
}

decode_rune-le : (s : Bytes) → (decode_rune s).1 ≤ length s
unfolding decode_rune
decode_rune-le [] = omega arith
decode_rune-le (a ∷ []) = ground arith
decode_rune-le (a ∷ b ∷ []) = ground arith
decode_rune-le (a ∷ b ∷ c ∷ []) = ground arith
decode_rune-le (a ∷ b ∷ c ∷ d ∷ s) = ground arith

decode_rune-pos : (a : ℕ) (s : Bytes) → 0 < (decode_rune (a ∷ s)).1
unfolding decode_rune
decode_rune-pos a [] = ground arith
decode_rune-pos a (b ∷ []) = ground arith
decode_rune-pos a (b ∷ c ∷ []) = ground arith
decode_rune-pos a (b ∷ c ∷ d ∷ s) = ground arith

pub rune_at-le : (s : Bytes) → (rune_at s).1 ≤ length s
rune_at-le [] = omega arith
rune_at-le (c ∷ s) = ground (arith, decode_rune-le (c ∷ s))

pub rune_at-pos : (s : Bytes) → (rune_at s).0 ≢ eof → 0 < (rune_at s).1
rune_at-pos [] h = absurd (h refl)
rune_at-pos (c ∷ s) h = ground (arith, decode_rune-pos c s)

pub rune_at-eof : (s : Bytes) → (rune_at s).0 ≡ eof → s ≡ []
rune_at-eof [] h = refl
rune_at-eof (c ∷ s) h = ground arith

-- The lexer has read a prefix of `inp`, its tokens hold that prefix up to `start`, and they are at
-- least `n` and at most 64.
pub record At (inp : Bytes) (n : ℕ) (l : Lexer) : Type 0 where
  pub same : l.input ≡ inp
  pub ordered : l.start ≤ l.pos
  pub inside : l.pos ≤ length l.input
  pub covered : text l.toks ≡ take l.start l.input
  pub few : length l.toks ≤ max_toks
  pub emitted : n ≤ length l.toks

-- A step that ends at such a state, with an error of the source if it fails.
pub data Gives (inp : Bytes) (n : ℕ) : Lexed → Type 0 where
  gives : {l : Lexer} → At inp n l → Gives inp n (ok l)
  fails : {e : LexError} {l : Lexer} → e ≢ out_of_fuel → At inp 0 l → Gives inp n (err e l)

next-pos :
    (l : Lexer) → l.pos ≤ length l.input → l.pos + (rune_at (drop l.pos l.input)).1 ≤ length l.input
next-pos l h = omega (arith, rune_at-le (drop l.pos l.input), length-drop l.pos l.input)

text-append : (ts us : List Token) → text (ts ++ us) ≡ text ts ++ text us
text-append [] us = refl
text-append (t ∷ ts) us = rw (text-append ts us) (sym (append_assoc t.val (text ts) (text us)))

module _ {inp : Bytes} {n : ℕ} where
  pub At-le : {l : Lexer} {m : ℕ} → m ≤ n → At inp n l → At inp m l
  At-le h a = record {
    same = a.same;
    ordered = a.ordered;
    inside = a.inside;
    covered = a.covered;
    few = a.few;
    emitted = omega arith;
  }

  pub Gives-le : {r : Lexed} {m : ℕ} → m ≤ n → Gives inp n r → Gives inp m r
  Gives-le h (gives a) = gives (At-le h a)
  Gives-le h (fails e a) = fails e a

  pub bind-Gives :
      {m : ℕ} {r : Lexed} (f : Lexer → Lexed)
      → Gives inp n r
      → ((l : Lexer) → At inp n l → Gives inp m (f l))
      → Gives inp m (r >>= f)
  bind-Gives f (gives {l} a) k = k l a
  bind-Gives f (fails e a) k = fails e a

  pub next-At : {l : Lexer} → At inp n l → At inp n (next l).1
  unfolding next
  next-At {l = l} a = record {
    same = a.same;
    ordered = omega arith;
    inside = next-pos l a.inside;
    covered = a.covered;
    few = a.few;
    emitted = a.emitted;
  }

  pub backup-next-At : {l : Lexer} → At inp n l → At inp n (backup (next l).1)
  unfolding next backup
  backup-next-At {l = l} a = record {
    same = a.same;
    ordered = omega arith;
    inside = omega arith;
    covered = a.covered;
    few = a.few;
    emitted = a.emitted;
  }

  accept_from-At :
      (fuel : ℕ) (valid : Rune → Bool) (i : ℕ) {l : Lexer}
      → At inp n l
      → At inp n (accept_from fuel valid i l).1
  unfolding accept_from
  accept_from-At zero valid i a = a
  accept_from-At (suc fuel) valid i {l = l} a = elim (Bool-cases (valid (next l).0)) [
    | inl good ↦ rw good (accept_from-At fuel valid (i + 1) (next-At a))
    | inr other ↦ rw other (backup-next-At a)
  ]

  pub accept_run-At :
      (valid : Rune → Bool) {l : Lexer} → At inp n l → At inp n (accept_run valid l).1
  unfolding accept_run
  accept_run-At valid {l = l} a = accept_from-At (suc (length l.input)) valid 0 a

  emit-covered :
      (l : Lexer) (typ : TokenType)
      → At inp n l
      → text
          (l.toks ++ record { val = take (l.pos - l.start) (drop l.start l.input); typ = typ } ∷ [])
        ≡ take l.pos l.input
  emit-covered l typ a =
      text-append l.toks _
      ∙ simp (a.covered, append-nil) (take-append-slice l.start l.pos l.input a.ordered)

  pub emit-Gives : (typ : TokenType) {l : Lexer} → At inp n l → Gives inp (suc n) (emit typ l)
  unfolding emit
  emit-Gives typ {l = l} a = elim (Bool-cases (leb max_toks (length l.toks))) [
    | inl full ↦ rw full (fails (λ e. cc) (At-le (omega arith) a))
    | inr room ↦ rw room (
        gives (record {
          same = a.same;
          ordered = omega arith;
          inside = a.inside;
          covered = emit-covered l typ a;
          few = ground (
            arith,
            length-append l.toks
                (record { val = take (l.pos - l.start) (drop l.start l.input); typ = typ } ∷ []),
          );
          emitted = ground (
            arith,
            length-append l.toks
                (record { val = take (l.pos - l.start) (drop l.start l.input); typ = typ } ∷ []),
          );
        }))
  ]

module _ {inp : Bytes} {n : ℕ} where
  pub err_unexpected-Gives : (m : ℕ) {l : Lexer} → At inp n l → Gives inp m (err_unexpected l)
  unfolding err_unexpected
  err_unexpected-Gives m {l = l} a =
      bind-Gives _ (emit-Gives TokenType.error a)
        (λ l' a'. fails (λ e. cc) (At-le (omega arith) a'))

  pub err_short-Gives : (m : ℕ) {l : Lexer} → At inp n l → Gives inp m (err_short l)
  unfolding err_short
  err_short-Gives m {l = l} a =
      bind-Gives _ (emit-Gives TokenType.error a)
        (λ l' a'. fails (λ e. cc) (At-le (omega arith) a'))
