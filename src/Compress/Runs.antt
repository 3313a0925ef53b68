-- ===== src/Compress/Runs.antt =====
-- The calls on a `CompressorGzip` of larking/compress.go, by callers that close a writer once and that do
-- not read after the end of the stream.
use larking.Base.{ℕ, true, false, List, ◌∷◌, ◌++◌, ◌≡◌}
use larking.Io.{IoError, Outcome}
use larking.Compress.{
  Gzip, Pool, opened, failed, CompressorGzip, compress, decompress, close, read, is_eof,
}

-- The compressor, the writers and readers that callers hold, each with its stream, and the readers
-- that callers left.
pub record System : Type 0 where
  pub gzip : CompressorGzip
  pub writers : List (ℕ × ℕ)
  pub readers : List (ℕ × ℕ)
  pub lost : List ℕ

abbrev pub with_writers : CompressorGzip → Pool → CompressorGzip
with_writers c p = record c { pool_compressor = p }

abbrev pub with_readers : CompressorGzip → Pool → CompressorGzip
with_readers c p = record c { pool_decompressor = p }

pub data Step (g : Gzip) : System → System → Type 0 where
  compresses :
      {c : CompressorGzip} {ws rs : List (ℕ × ℕ)} {lost : List ℕ} {z : ℕ} {p : Pool} (n w : ℕ)
      → compress g n w c ≡ opened z p
      → Step g
          (record { gzip = c; writers = ws; readers = rs; lost = lost })
          (record { gzip = with_writers c p; writers = (z, w) ∷ ws; readers = rs; lost = lost })
  compress_fails :
      {c : CompressorGzip} {ws rs : List (ℕ × ℕ)} {lost : List ℕ} {e : IoError} {p : Pool} (n w : ℕ)
      → compress g n w c ≡ failed e p
      → Step g
          (record { gzip = c; writers = ws; readers = rs; lost = lost })
          (record { gzip = with_writers c p; writers = ws; readers = rs; lost = lost })
  closes :
      {c : CompressorGzip} {rs : List (ℕ × ℕ)} {lost : List ℕ} (ws ws' : List (ℕ × ℕ)) (z w : ℕ)
      → Step g
          (record { gzip = c; writers = ws ++ (z, w) ∷ ws'; readers = rs; lost = lost })
          (record { gzip = close z c; writers = ws ++ ws'; readers = rs; lost = lost })
  decompresses :
      {c : CompressorGzip} {ws rs : List (ℕ × ℕ)} {lost : List ℕ} {z : ℕ} {p : Pool} (n r : ℕ)
      → decompress g n r c ≡ opened z p
      → Step g
          (record { gzip = c; writers = ws; readers = rs; lost = lost })
          (record { gzip = with_readers c p; writers = ws; readers = (z, r) ∷ rs; lost = lost })
  decompress_fails :
      {c : CompressorGzip} {ws rs : List (ℕ × ℕ)} {lost : List ℕ} {e : IoError} {p : Pool} (n r : ℕ)
      → decompress g n r c ≡ failed e p
      → Step g
          (record { gzip = c; writers = ws; readers = rs; lost = lost })
          (record { gzip = with_readers c p; writers = ws; readers = rs; lost = lost })
  reads :
      {c : CompressorGzip} {ws : List (ℕ × ℕ)} {lost : List ℕ} (rs rs' : List (ℕ × ℕ)) (z r : ℕ)
      (o : Outcome)
      → is_eof o.1 ≡ false
      → Step g
          (record { gzip = c; writers = ws; readers = rs ++ (z, r) ∷ rs'; lost = lost })
          (record {
            gzip = (read z o c).1;
            writers = ws;
            readers = rs ++ (z, r) ∷ rs';
            lost = lost;
          })
  reads_end :
      {c : CompressorGzip} {ws : List (ℕ × ℕ)} {lost : List ℕ} (rs rs' : List (ℕ × ℕ)) (z r : ℕ)
      (o : Outcome)
      → is_eof o.1 ≡ true
      → Step g
          (record { gzip = c; writers = ws; readers = rs ++ (z, r) ∷ rs'; lost = lost })
          (record { gzip = (read z o c).1; writers = ws; readers = rs ++ rs'; lost = lost })
  leaves :
      {c : CompressorGzip} {ws : List (ℕ × ℕ)} {lost : List ℕ} (rs rs' : List (ℕ × ℕ)) (z r : ℕ)
      → Step g
          (record { gzip = c; writers = ws; readers = rs ++ (z, r) ∷ rs'; lost = lost })
          (record { gzip = c; writers = ws; readers = rs ++ rs'; lost = z ∷ lost })

-- What a `CompressorGzip` that no call was made on comes to.
pub data Reach (g : Gzip) (s : System) : System → Type 0 where
  here : Reach g s s
  next : {t t' : System} → Reach g s t → Step g t t' → Reach g s t'
