-- ===== src/Compress/Holders.antt =====
-- Who holds the writers and readers of a `CompressorGzip` of larking/compress.go.
use mathlib.Core.Path.{subst}
use larking.Base.{ℕ, Option, none, some, List, [], ◌∷◌, ◌≡◌, refl, arith}
use larking.Base.Int.{ℤ}
use larking.Io.{IoError}
use larking.Compress.{
  Gzip, Pool, pick, reset, Opened, opened, failed, CompressorGzip, level_or_default, make_unless,
  reset_unless, compress, decompress, close, read,
}
use larking.Compress.Runs.{
  System, Step, compresses, compress_fails, closes, decompresses, decompress_fails, reads,
  reads_end, leaves, Reach, here, next,
}
use larking.Compress.Exclusive.{
  count, count_held, IsExclusive, Takes, pick-Takes, reset-IsExclusive, make-IsExclusive,
  put-IsExclusive, leave-IsExclusive,
}

-- What a caller has after it opens an object.
abbrev IsOpened : List (ℕ × ℕ) → List ℕ → ℕ → Opened → Type 0
IsOpened held lost w (opened z p) = IsExclusive p ((z, w) ∷ held) lost
IsOpened held lost w (failed e p) = IsExclusive p held lost

module _ (g : Gzip) (held : List (ℕ × ℕ)) (lost : List ℕ) (n w : ℕ) where
  compress-IsOpened :
      (c : CompressorGzip)
      → IsExclusive c.pool_compressor held lost
      → IsOpened held lost w (compress g n w c)
  unfolding compress
  compress-IsOpened c q =
      go (pick n c.pool_compressor.free) (g.level_error (level_or_default c.level))
        (λ x. pick-Takes x n c.pool_compressor.free)
    where
      go :
          (o : Option (ℕ × List ℕ)) (e : Option IoError)
          → ((x : ℕ) → Takes x c.pool_compressor.free o)
          → IsOpened held lost w (elim o [
            | none ↦ make_unless g e w c.pool_compressor
            | some (z, left) ↦ opened z (reset z w left c.pool_compressor)
          ])
      go none none k = make-IsExclusive q w
      go none (some e) k = q
      go (some (z, left)) e k = reset-IsExclusive q z w left k

  decompress-IsOpened :
      (c : CompressorGzip)
      → IsExclusive c.pool_decompressor held lost
      → IsOpened held lost w (decompress g n w c)
  unfolding decompress
  decompress-IsOpened c q =
      go (pick n c.pool_decompressor.free) (g.header_error w)
        (λ x. pick-Takes x n c.pool_decompressor.free)
    where
      go :
          (o : Option (ℕ × List ℕ)) (e : Option IoError)
          → ((x : ℕ) → Takes x c.pool_decompressor.free o)
          → IsOpened held lost w (elim o [
            | none ↦ make_unless g e w c.pool_decompressor
            | some (z, left) ↦ reset_unless g e z w left c.pool_decompressor
          ])
      go none none k = make-IsExclusive q w
      go none (some e) k = q
      go (some (z, left)) none k = reset-IsExclusive q z w left k
      go (some (z, left)) (some e) k = put-IsExclusive [] held z w (reset-IsExclusive q z w left k)

-- Both pools.
abbrev pub BothExclusive : System → Type 0
BothExclusive s =
    IsExclusive s.gzip.pool_compressor s.writers []
    × IsExclusive s.gzip.pool_decompressor s.readers s.lost

of_opened :
    (held : List (ℕ × ℕ)) (lost : List ℕ) (w : ℕ) (r r' : Opened)
    → r ≡ r'
    → IsOpened held lost w r
    → IsOpened held lost w r'
of_opened held lost w r r' e q = subst (IsOpened held lost w) e q

Step-BothExclusive : (g : Gzip) {s t : System} → Step g s t → BothExclusive s → BothExclusive t
unfolding close read
Step-BothExclusive g (compresses {c} {ws} {z = z} {p = p} n w e) (qw, qr) =
    (of_opened ws [] w (compress g n w c) (opened z p) e (compress-IsOpened g ws [] n w c qw), qr)
Step-BothExclusive g (compress_fails {c} {ws} {e = e'} {p = p} n w e) (qw, qr) =
    (of_opened ws [] w (compress g n w c) (failed e' p) e (compress-IsOpened g ws [] n w c qw), qr)
Step-BothExclusive g (closes ws ws' z w) (qw, qr) = (put-IsExclusive ws ws' z w qw, qr)
Step-BothExclusive g (decompresses {c} {rs = rs} {lost = l} {z = z} {p = p} n r e) (qw, qr) =
    (qw, of_opened rs l r (decompress g n r c) (opened z p) e (decompress-IsOpened g rs l n r c qr))
Step-BothExclusive g (decompress_fails {c} {rs = rs} {lost = l} {e = e'} {p = p} n r e) (qw, qr) = (
  qw,
  of_opened rs l r (decompress g n r c) (failed e' p) e (decompress-IsOpened g rs l n r c qr),
)
Step-BothExclusive g (reads rs rs' z r (b, x) e) (qw, qr) = rw e (qw, qr)
Step-BothExclusive g (reads_end rs rs' z r (b, x) e) (qw, qr) =
    rw e (qw, put-IsExclusive rs rs' z r qr)
Step-BothExclusive g (leaves rs rs' z r) (qw, qr) = (qw, leave-IsExclusive rs rs' z r qr)

abbrev pub empty_pool : Pool
empty_pool = record { free = []; next = 0; stream_of = λ j. none }

-- A compressor of a level, before the first call.
abbrev pub new_system : Option ℤ → System
new_system level = record {
  gzip = record { level = level; pool_compressor = empty_pool; pool_decompressor = empty_pool };
  writers = [];
  readers = [];
  lost = [];
}

empty-IsExclusive : IsExclusive empty_pool [] []
unfolding count count_held
empty-IsExclusive = record {
  once = λ z lt. absurd (omega arith);
  made = λ z le. refl;
  own = λ z w i. elim i [ ];
}

-- Whatever calls of `Compress`, `Close`, `Decompress` and `Read` came before, by callers that close a
-- writer once and do not read past the end, and whatever the pools pick: every gzip writer that was
-- made is in its pool or with one caller, and exactly once; every reader is too, but for those that a
-- caller left before their end; and those that a caller holds are set to the stream of that caller.
pub Reach-BothExclusive :
    (g : Gzip) (level : Option ℤ) (s : System) → Reach g (new_system level) s → BothExclusive s
Reach-BothExclusive g level s here = (empty-IsExclusive, empty-IsExclusive)
Reach-BothExclusive g level s (next {t} r step) =
    Step-BothExclusive g step (Reach-BothExclusive g level t r)
