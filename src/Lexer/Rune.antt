-- ===== src/Lexer/Rune.antt =====
-- The runes that larking/lexer.go reads: decoding as in package unicode/utf8, and the classes of
-- runes. The tables of package unicode are exact up to U+00FF, and a parameter above it.
use larking.Base.{
  ℕ, ◌+◌, ◌-◌, ◌*◌, Bool, true, false, ◌&&◌, ◌||◌, [], ◌∷◌, ◌==◌, ltb, within, if◌then◌else◌, Bytes,
}

-- What `next` returns: the constant `eof`, or a code point.
pub data Rune : Type 0 where
  eof : Rune
  rune : ℕ → Rune

-- r == 'c'
abbrev pub is_rune : ℕ → Rune → Bool
is_rune c eof = false
is_rune c (rune r) = r == c

abbrev pub is_eof : Rune → Bool
is_eof eof = true
is_eof (rune r) = false

-- utf8.RuneError with width 1
abbrev bad : ℕ × ℕ
bad = (0xfffd, 1)

abbrev is_cont : ℕ → Bool
is_cont c = within 0x80 0xbf c

decode2 : ℕ → Bytes → ℕ × ℕ
decode2 a (b ∷ _) = if is_cont b then ((a - 0xc0) * 64 + (b - 0x80), 2) else bad
decode2 a [] = bad

-- `lo` and `hi` are the accepted range of the second byte.
decode3 : ℕ → ℕ → ℕ → Bytes → ℕ × ℕ
decode3 lo hi a (b ∷ c ∷ _) =
    if within lo hi b && is_cont c
    then ((a - 0xe0) * 4096 + (b - 0x80) * 64 + (c - 0x80), 3)
    else bad
decode3 lo hi a (b ∷ []) = bad
decode3 lo hi a [] = bad

decode4 : ℕ → ℕ → ℕ → Bytes → ℕ × ℕ
decode4 lo hi a (b ∷ c ∷ d ∷ _) =
    if within lo hi b && is_cont c && is_cont d
    then ((a - 0xf0) * 262144 + (b - 0x80) * 4096 + (c - 0x80) * 64 + (d - 0x80), 4)
    else bad
decode4 lo hi a (b ∷ c ∷ []) = bad
decode4 lo hi a (b ∷ []) = bad
decode4 lo hi a [] = bad

-- utf8.DecodeRuneInString: the rune and its width in bytes.
unfoldable pub decode_rune : Bytes → ℕ × ℕ
unfolding decode2 decode3 decode4
decode_rune [] = (0xfffd, 0)
decode_rune (a ∷ s) =
    if ltb a 0x80
    then (a, 1)
    else if within 0xc2 0xdf a
    then decode2 a s
    else if a == 0xe0
    then decode3 0xa0 0xbf a s
    else if a == 0xed
    then decode3 0x80 0x9f a s
    else if within 0xe1 0xef a
    then decode3 0x80 0xbf a s
    else if a == 0xf0
    then decode4 0x90 0xbf a s
    else if a == 0xf4
    then decode4 0x80 0x8f a s
    else if within 0xf1 0xf3 a
    then decode4 0x80 0xbf a s
    else bad

-- The tables of package unicode above U+00FF.
pub record Tables : Type 0 where
  pub letter : ℕ → Bool
  pub number : ℕ → Bool

latin_letter : ℕ → Bool
latin_letter r =
    within b'a' b'z' r
    || within b'A' b'Z' r
    || r == 0xaa
    || r == 0xb5
    || r == 0xba
    || within 0xc0 0xd6 r
    || within 0xd8 0xf6 r
    || within 0xf8 0xff r

latin_number : ℕ → Bool
latin_number r = within b'0' b'9' r || r == 0xb2 || r == 0xb3 || r == 0xb9 || within 0xbc 0xbe r

module _ (u : Tables) where
  -- unicode.IsLetter, false at -1
  unfoldable pub is_letter : Rune → Bool
  unfolding latin_letter
  is_letter eof = false
  is_letter (rune r) = if ltb r 0x100 then latin_letter r else u.letter r

  -- unicode.IsNumber
  unfoldable pub is_number : Rune → Bool
  unfolding latin_number
  is_number eof = false
  is_number (rune r) = if ltb r 0x100 then latin_number r else u.number r

  unfoldable pub is_ident : Rune → Bool
  unfolding is_letter is_number
  is_ident r = is_letter r || is_number r || is_rune b'_' r || is_rune b'-' r

  unfoldable pub is_literal : Rune → Bool
  unfolding is_ident
  is_literal r = is_ident r || is_rune b'.' r

  unfoldable pub is_path : Rune → Bool
  unfolding is_literal
  is_path r =
      is_literal r
      || is_rune b'~' r
      || is_rune b'!' r
      || is_rune b'$' r
      || is_rune b'&' r
      || is_rune b'\'' r
      || is_rune b'(' r
      || is_rune b')' r
      || is_rune b'*' r
      || is_rune b'+' r
      || is_rune b',' r
      || is_rune b';' r
      || is_rune b'=' r
      || is_rune b'@' r
