-- ===== src/Lexer/Makes.antt =====
-- Steps of the lexer of larking/lexer.go that emit tokens of a given shape, and how they compose.
use larking.Base.{
  ℕ, zero, suc, ◌+◌, Bool, Bool-cases, inl, inr, ◌==◌, if◌then◌else◌, ◌≡◌, refl, sym, ◌∙◌, ap, List,
  [], ◌∷◌, ◌++◌, append_assoc, leb, length, take, drop, ◌-◌,
}
use mathlib.Core.Path.{subst}
use larking.Lexer.Rune.{Rune}
use larking.Lexer.State.{
  TokenType, Token, Lexer, Lexed, LexError, ok, err, ◌>>=◌, next, backup, emit, accept_run,
  accept_from, err_unexpected, err_short, max_toks,
}
use larking.Lexer.Grammar.{IsOne, one}

-- A success emits tokens of the shape `P` behind those of `before`.
pub data Makes (P : List Token → Type 0) (before : List Token) : Lexed → Type 0 where
  makes : {l : Lexer} (ts : List Token) → P ts → l.toks ≡ before ++ ts → Makes P before (ok l)
  breaks : {e : LexError} {l : Lexer} → Makes P before (err e l)

pub bind-Makes :
    {P Q R : List Token → Type 0} {before : List Token} {r : Lexed} (f : Lexer → Lexed)
    → Makes P before r
    → ((l : Lexer) → Makes Q l.toks (f l))
    → ((ts us : List Token) → P ts → Q us → R (ts ++ us))
    → Makes R before (r >>= f)
bind-Makes f breaks k join = breaks
bind-Makes {Q} {R} {before} f (makes {l} ts p e) k join = go (k l)
  where
    go : {r : Lexed} → Makes Q l.toks r → Makes R before r
    go breaks = breaks
    go (makes us q d) =
        makes (ts ++ us) (join ts us p q) (d ∙ ap (λ t. t ++ us) e ∙ append_assoc before ts us)

pub relax-Makes :
    {P Q : List Token → Type 0} {before : List Token} {r : Lexed}
    → Makes P before r
    → ((ts : List Token) → P ts → Q ts)
    → Makes Q before r
relax-Makes breaks k = breaks
relax-Makes (makes ts p e) k = makes ts (k ts p) e

-- The same where the first part is one token.
pub bind_one-Makes :
    {typ : TokenType} {Q R : List Token → Type 0} {before : List Token} {r : Lexed}
    (f : Lexer → Lexed)
    → Makes (IsOne typ) before r
    → ((l : Lexer) → Makes Q l.toks (f l))
    → ((t : Token) (us : List Token) → t.typ ≡ typ → Q us → R (t ∷ us))
    → Makes R before (r >>= f)
bind_one-Makes {typ} {Q} {R} f m k join = bind-Makes f m k go
  where
    go : (ts us : List Token) → IsOne typ ts → Q us → R (ts ++ us)
    go ts us (one t e) q = join t us e q

pub relax_one-Makes :
    {typ : TokenType} {Q : List Token → Type 0} {before : List Token} {r : Lexed}
    → Makes (IsOne typ) before r
    → ((t : Token) → t.typ ≡ typ → Q (t ∷ []))
    → Makes Q before r
relax_one-Makes {typ} {Q} m k = relax-Makes m go
  where
    go : (ts : List Token) → IsOne typ ts → Q ts
    go ts (one t e) = k t e

pub err_unexpected-Makes :
    (P : List Token → Type 0) (before : List Token) (l : Lexer) → Makes P before (err_unexpected l)
unfolding err_unexpected emit
err_unexpected-Makes P before l = elim (Bool-cases (leb max_toks (length l.toks))) [
  | inl full ↦ rw full breaks
  | inr room ↦ rw room breaks
]

pub err_short-Makes :
    (P : List Token → Type 0) (before : List Token) (l : Lexer) → Makes P before (err_short l)
unfolding err_short emit
err_short-Makes P before l = elim (Bool-cases (leb max_toks (length l.toks))) [
  | inl full ↦ rw full breaks
  | inr room ↦ rw room breaks
]

pub emit-Makes :
    (typ : TokenType) (before : List Token) (l : Lexer)
    → l.toks ≡ before
    → Makes (IsOne typ) before (emit typ l)
unfolding emit
emit-Makes typ before l h = elim (Bool-cases (leb max_toks (length l.toks))) [
  | inl full ↦ rw full breaks
  | inr room ↦ rw room (
      let t : Token = record { val = take (l.pos - l.start) (drop l.start l.input); typ = typ } in
      makes {l = record l { toks = l.toks ++ t ∷ []; start = l.pos }} (t ∷ []) (one t refl)
        (ap (λ ts. ts ++ t ∷ []) h))
]

pub toks-next : (l : Lexer) → (next l).1.toks ≡ l.toks
unfolding next
toks-next l = refl

pub toks-backup : (l : Lexer) → (backup l).toks ≡ l.toks
unfolding backup
toks-backup l = refl

pub toks-accept_from :
    (fuel : ℕ) (valid : Rune → Bool) (i : ℕ) (l : Lexer)
    → (accept_from fuel valid i l).1.toks ≡ l.toks
unfolding accept_from
toks-accept_from zero valid i l = refl
toks-accept_from (suc fuel) valid i l = elim (Bool-cases (valid (next l).0)) [
  | inl good ↦ rw good (toks-accept_from fuel valid (i + 1) (next l).1 ∙ toks-next l)
  | inr other ↦ rw other (toks-backup (next l).1 ∙ toks-next l)
]

pub toks-accept_run : (valid : Rune → Bool) (l : Lexer) → (accept_run valid l).1.toks ≡ l.toks
unfolding accept_run
toks-accept_run valid l = toks-accept_from (suc (length l.input)) valid 0 l

-- `acceptRun` and a token of what it took.
pub run-Makes :
    (valid : Rune → Bool) (typ : TokenType) (l : Lexer)
    → Makes (IsOne typ) l.toks (
        if (accept_run valid l).0 == 0
        then err_short (accept_run valid l).1
        else emit typ (accept_run valid l).1)
run-Makes valid typ l = elim (Bool-cases ((accept_run valid l).0 == 0)) [
  | inl short ↦ rw short (err_short-Makes _ _ _)
  | inr some ↦ rw some (emit-Makes typ l.toks _ (toks-accept_run valid l))
]

-- The token of a rune that was just read.
pub emit-next-Makes : (typ : TokenType) (l : Lexer) → Makes (IsOne typ) l.toks (emit typ (next l).1)
emit-next-Makes typ l = emit-Makes typ l.toks (next l).1 (toks-next l)

toks_of : Lexed → List Token
toks_of (ok l) = l.toks
toks_of (err e l) = l.toks

pub made : {P : List Token → Type 0} {r : Lexed} (l : Lexer) → Makes P [] r → r ≡ ok l → P l.toks
unfolding toks_of
made {P} l (makes ts p e) h = subst P (sym e ∙ ap toks_of h) p
made l breaks h = cc
