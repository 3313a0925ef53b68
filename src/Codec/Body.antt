-- ===== src/Codec/Body.antt =====
-- `codecHTTPBody` of larking/codec.go, and `readAll` and `writeAll` of larking/mux.go: bytes that are no
-- messages, up to a limit.
use larking.Base.{
  ℕ, ◌+◌, Option, none, some, [], ◌∷◌, ◌++◌, Bytes, length, ltb, ◌==◌, if◌then◌else◌,
}
use larking.Codec.Json.{NextRead, message, last_message, waiting}
use larking.Io.{IoError, short_write, Reader}

-- The buffer, the length of the part that counts, and the error of the last read.
pub data Body : Type 0 where
  body : Bytes → ℕ → Option IoError → Reader → Body
  body_waits : Bytes → Body

-- total, cut at the limit
abbrev pub cut : ℕ → ℕ → ℕ
cut limit total = if ltb limit total then limit else total

-- The loop of `ReadNext`: it ends with an error, or at the limit.
unfoldable pub body_rounds : ℕ → ℕ → Bytes → Reader → Body
body_rounds limit total b [] = body_waits b
body_rounds limit total b ((chunk, e) ∷ r) =
    let total' = cut limit (total + length chunk) in
    let more : Body = body_rounds limit total' (b ++ chunk) r in
    elim e [
      | some x ↦ body (b ++ chunk) total' (some x) r
      | none ↦ if total' == limit then body (b ++ chunk) total' none r else more
    ]

unfoldable pub body_read_next : ℕ → Bytes → Reader → Body
unfolding body_rounds
body_read_next limit b r = body_rounds limit 0 b r

-- What `ReadNext` returns of it.
unfoldable pub as_next : Body → NextRead
as_next (body b n none r) = message b n r
as_next (body b n (some e) r) = last_message b n e r
as_next (body_waits b) = waiting b

pub data AllData : Type 0 where
  all_data : Bytes → IoError → Reader → AllData
  over_limit : Reader → AllData
  all_waits : Bytes → AllData

-- `readAll`; every error of a read is returned with the data, the end of the stream too.
unfoldable pub read_all_from : ℕ → ℕ → Bytes → Reader → AllData
read_all_from max total b [] = all_waits b
read_all_from max total b ((chunk, e) ∷ r) =
    let more : AllData = read_all_from max (total + length chunk) (b ++ chunk) r in
    if ltb max (total + length chunk)
    then over_limit r
    else elim e [ some x ↦ all_data (b ++ chunk) x r | none ↦ more ]

unfoldable pub read_all : ℕ → Bytes → Reader → AllData
unfolding read_all_from
read_all max b r = read_all_from max 0 b r

pub data WriteError : Type 0 where
  send_limit : WriteError
  write_io : IoError → WriteError

-- `writeAll`, for a write that writes `n` bytes.
unfoldable pub write_all : ℕ → Bytes → (Bytes → ℕ × Option IoError) → Option WriteError
write_all max b write =
    let checked : Option WriteError = elim (write b).1 [
      | some e ↦ some (write_io e)
      | none ↦ if (write b).0 == length b then none else some (write_io short_write)
    ] in
    if ltb max (length b) then some send_limit else checked
