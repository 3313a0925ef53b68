-- ===== src/Compress.antt =====
-- `CompressorGzip` of larking/compress.go: its writers and readers, which two pools keep between calls.
-- A writer or reader is its number. Package compress/gzip is a parameter.
pub mod Runs
pub mod Exclusive
pub mod Holders
use larking.Base.{
  ℕ, zero, suc, ◌+◌, Bool, true, false, Option, none, some, List, [], ◌∷◌, ◌==◌, if◌then◌else◌,
  Bytes,
}
use larking.Base.Int.{ℤ, negsuc}
use larking.Io.{IoError, eof, Outcome}

-- Package compress/gzip: the levels that NewWriterLevel takes, and what NewReader and Reset read of the
-- header of a stream, which has a number.
pub record Gzip : Type 0 where
  pub level_error : ℤ → Option IoError
  pub header_error : ℕ → Option IoError

-- A sync.Pool, the number of the next object that is made, and the stream that each is set to.
pub record Pool : Type 0 where
  pub free : List ℕ
  pub next : ℕ
  pub stream_of : ℕ → Option ℕ

-- The object of the pool that `Get` picks; past the last it is nil.
unfoldable pub pick : ℕ → List ℕ → Option (ℕ × List ℕ)
pick n [] = none
pick zero (z ∷ zs) = some (z, zs)
pick (suc n) (z ∷ zs) = elim (pick n zs) [ none ↦ none | some (x, xs) ↦ some (x, z ∷ xs) ]

unfoldable pub put : ℕ → Pool → Pool
put z p = record p { free = z ∷ p.free }

-- `Reset`, once the object is no longer in the pool.
unfoldable pub reset : ℕ → ℕ → List ℕ → Pool → Pool
reset z w left p = record {
  free = left;
  next = p.next;
  stream_of = λ j. if j == z then some w else p.stream_of j;
}

-- A new object.
unfoldable pub make : ℕ → Pool → Pool
make w p = record {
  free = p.free;
  next = p.next + 1;
  stream_of = λ j. if j == p.next then some w else p.stream_of j;
}

-- What `Compress` and `Decompress` return.
pub data Opened : Type 0 where
  opened : ℕ → Pool → Opened
  failed : IoError → Pool → Opened

pub record CompressorGzip : Type 0 where
  pub level : Option ℤ
  pub pool_compressor : Pool
  pub pool_decompressor : Pool

abbrev pub level_or_default : Option ℤ → ℤ
level_or_default none = negsuc 0
level_or_default (some l) = l

module _ (g : Gzip) where
  abbrev pub make_unless : Option IoError → ℕ → Pool → Opened
  make_unless none w p = opened p.next (make w p)
  make_unless (some e) w p = failed e p

  -- A failing Reset sets the stream as well; the object goes back.
  abbrev pub reset_unless : Option IoError → ℕ → ℕ → List ℕ → Pool → Opened
  reset_unless none z w left p = opened z (reset z w left p)
  reset_unless (some e) z w left p = failed e (put z (reset z w left p))

  -- `Compress`, with the place that the pool picks.
  unfoldable pub compress : ℕ → ℕ → CompressorGzip → Opened
  unfolding pick reset make
  compress n w c = elim (pick n c.pool_compressor.free) [
    | none ↦ make_unless (g.level_error (level_or_default c.level)) w c.pool_compressor
    | some (z, left) ↦ opened z (reset z w left c.pool_compressor)
  ]

  unfoldable pub decompress : ℕ → ℕ → CompressorGzip → Opened
  unfolding pick reset make put
  decompress n r c = elim (pick n c.pool_decompressor.free) [
    | none ↦ make_unless (g.header_error r) r c.pool_decompressor
    | some (z, left) ↦ reset_unless (g.header_error r) z r left c.pool_decompressor
  ]

-- `gzipWriter.Close`
unfoldable pub close : ℕ → CompressorGzip → CompressorGzip
unfolding put
close z c = record c { pool_compressor = put z c.pool_compressor }

-- err == io.EOF
abbrev pub is_eof : Option IoError → Bool
is_eof (some eof) = true
is_eof _ = false

-- `gzipReader.Read`, with what the reader of package gzip returns.
unfoldable pub read : ℕ → Outcome → CompressorGzip → Outcome × CompressorGzip
unfolding put
read z (b, e) c =
    ((b, e), (if is_eof e then record c { pool_decompressor = put z c.pool_decompressor } else c))

abbrev pub name : Bytes
name = b'g' ∷ b'z' ∷ b'i' ∷ b'p' ∷ []
