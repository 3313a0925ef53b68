-- ===== src/Io.antt =====
-- The reads of an io.Reader, which larking/codec.go and larking/mux.go loop over.
pub mod Fills
pub mod Fulfils
use larking.Base.{
  ℕ, Option, none, some, List, [], ◌∷◌, ◌++◌, Bytes, length, ltb, take, drop, zero, suc, ◌-◌,
  if◌then◌else◌,
}

-- io.EOF, io.ErrUnexpectedEOF, io.ErrShortWrite and the errors of other packages.
pub data IoError : Type 0 where
  eof unexpected_eof short_write : IoError
  other_error : ℕ → IoError

-- What a call of Read returns: the bytes that it has read, and its error.
abbrev pub Outcome : Type 0
Outcome = Bytes × Option IoError

-- The outcomes of the reads to come, in their order; where they end, the next read still waits. The
-- room in the buffer, which append picks, shows in the lengths of the outcomes alone.
abbrev pub Reader : Type 0
Reader = List Outcome

-- The bytes that the reads bring, whatever errors come with them.
abbrev pub received : Reader → Bytes
received [] = []
received ((chunk, e) ∷ r) = chunk ++ received r

-- No read fails.
abbrev pub AllRead : Reader → Type 0
AllRead [] = Unit
AllRead ((chunk, none) ∷ r) = AllRead r
AllRead ((chunk, some e) ∷ r) = ⊥

pub data Filled : Type 0 where
  filled : Bytes → Reader → Filled
  failed : Bytes → IoError → Reader → Filled
  waits : Bytes → Filled

-- The loop `for i >= len(b)` that reads on until `b[i]` is there.
unfoldable pub fill : ℕ → Bytes → Reader → Filled
fill i b [] = if ltb i (length b) then filled b [] else waits b
fill i b ((chunk, e) ∷ r) =
    let read_on : Filled = elim e [
      | none ↦ fill i (b ++ chunk) r
      | some x ↦ failed (b ++ chunk) x r
    ] in
    if ltb i (length b) then filled b ((chunk, e) ∷ r) else read_on

pub data Full : Type 0 where
  full : Bytes → Reader → Full
  fell_short : Bytes → IoError → Reader → Full
  full_waits : Bytes → Full

-- The error of a short read: the end of the stream is unexpected once a byte was read.
unfoldable pub short_error : Bytes → IoError → IoError
short_error (c ∷ got) eof = unexpected_eof
short_error got e = e

-- io.ReadFull for `need` more bytes; `got` is what was read before. A read takes no more than there is
-- room for, and leaves the rest of its outcome to the next.
unfoldable pub read_full : ℕ → Bytes → Reader → Full
unfolding short_error
read_full zero got r = full got r
read_full (suc n) got [] = full_waits got
read_full (suc n) got ((chunk, e) ∷ r) =
    let read_on : Full = elim e [
      | none ↦ read_full (suc n - length chunk) (got ++ chunk) r
      | some x ↦ fell_short (got ++ chunk) (short_error (got ++ chunk) x) r
    ] in
    if ltb (length chunk) (suc n)
    then read_on
    else full (got ++ take (suc n) chunk) ((drop (suc n) chunk, e) ∷ r)
