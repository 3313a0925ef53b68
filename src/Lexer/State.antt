-- ===== src/Lexer/State.antt =====
-- The tokens and the state of the lexer of larking/lexer.go, and its primitive moves. The array
-- `toks` with its count `len` is the list of the tokens emitted so far.
use Prim.Native.Nat.{bit_and}
use larking.Base.{
  ℕ, zero, suc, ◌+◌, ◌-◌, Bool, not, Option, none, some, List, [], ◌∷◌, ◌++◌, ltb, leb, ◌==◌,
  if◌then◌else◌, Bytes, length, take, drop,
}
use mathlib.Core.Option
use larking.Lexer.Rune.{Rune, eof, rune, decode_rune}

pub data TokenType : Type 0 where
  error slash star star_star variable_start variable_end equal ident literal : TokenType
  dot verb path_text end_of_file : TokenType

-- The constants `1 << iota`.
abbrev pub bits : TokenType → ℕ
bits error = 0
bits slash = 2
bits star = 4
bits star_star = 8
bits variable_start = 16
bits variable_end = 32
bits equal = 64
bits ident = 128
bits literal = 256
bits dot = 512
bits verb = 1024
bits path_text = 2048
bits end_of_file = 4096

abbrev pub same_type : TokenType → TokenType → Bool
same_type a b = bits a == bits b

pub record Token : Type 0 where
  pub val : Bytes
  pub typ : TokenType

-- tokens.String
abbrev pub text : List Token → Bytes
text [] = []
text (t ∷ ts) = t.val ++ text ts

-- The index of the first token of a type; `none` is -1.
unfoldable pub index_of : TokenType → List Token → Option ℕ
index_of typ [] = none
index_of typ (t ∷ ts) = if same_type t.typ typ then some 0 else Option.map suc (index_of typ ts)

-- tokens.indexAny, with a mask of types.
unfoldable pub index_any : ℕ → List Token → Option ℕ
index_any s [] = none
index_any s (t ∷ ts) =
    if not (bit_and s (bits t.typ) == 0) then some 0 else Option.map suc (index_any s ts)

pub record Lexer : Type 0 where
  pub input : Bytes
  pub toks : List Token
  pub start : ℕ
  pub pos : ℕ
  pub width : ℕ

-- &lexer{input: input}
abbrev pub new_lexer : Bytes → Lexer
new_lexer input = record { input = input; toks = []; start = 0; pos = 0; width = 0 }

abbrev pub max_toks : ℕ
max_toks = 64

-- Bytes from `from` up to `to`, and the rune there. `out_of_fuel` belongs to the model alone.
pub data LexError : Type 0 where
  token_limit out_of_fuel : LexError
  unexpected short : ℕ → ℕ → Rune → LexError

-- An error leaves the lexer that the functions have written.
pub data Lexed : Type 0 where
  ok : Lexer → Lexed
  err : LexError → Lexer → Lexed

infixl 5 ◌>>=◌
abbrev pub ◌>>=◌ : Lexed → (Lexer → Lexed) → Lexed
ok l >>= f = f l
err e l >>= f = err e l

-- The rune that stands at the position, and its width.
abbrev pub rune_at : Bytes → Rune × ℕ
rune_at [] = (eof, 0)
rune_at (c ∷ s) =
    if ltb c 0x80 then (rune c, 1) else (rune (decode_rune (c ∷ s)).0, (decode_rune (c ∷ s)).1)

unfoldable pub next : Lexer → Rune × Lexer
next l = let (r, w) = rune_at (drop l.pos l.input) in (r, record l { pos = l.pos + w; width = w })

unfoldable pub current : Lexer → Rune
current l =
    if l.width == 0
    then rune 0
    else if ltb l.width l.pos
    then rune (decode_rune (drop (l.pos - l.width) l.input)).0
    else rune (decode_rune l.input).0

unfoldable pub backup : Lexer → Lexer
backup l = record l { pos = l.pos - l.width }

unfoldable pub emit : TokenType → Lexer → Lexed
emit typ l =
    if leb max_toks (length l.toks)
    then err token_limit l
    else ok (record l {
      toks =
          l.toks
          ++ (record { val = take (l.pos - l.start) (drop l.start l.input); typ = typ } ∷ []);
      start = l.pos;
    })

unfoldable pub err_unexpected : Lexer → Lexed
err_unexpected l = do l' ← emit error l; err (unexpected (l'.pos - l'.width) l'.pos (current l')) l'

unfoldable pub err_short : Lexer → Lexed
err_short l = do l' ← emit error l; err (short (l'.pos - l'.width) l'.pos (current l')) l'

-- The loop of `acceptRun` with its count so far. A rune is at least a byte wide, so one more round
-- than there are bytes is enough.
unfoldable pub accept_from : ℕ → (Rune → Bool) → ℕ → Lexer → ℕ × Lexer
accept_from zero valid i l = (i, l)
accept_from (suc fuel) valid i l =
    let rest = accept_from fuel valid (i + 1) (next l).1 in
    if valid (next l).0 then rest else (i, backup (next l).1)

unfoldable pub accept_run : (Rune → Bool) → Lexer → ℕ × Lexer
unfolding accept_from
accept_run valid l = accept_from (suc (length l.input)) valid 0 l
