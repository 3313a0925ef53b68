-- ===== src/Codec/BodyLimits.antt =====
-- The limits of larking/codec.go and larking/mux.go on bytes that are no messages.
use larking.Base.{
  ℕ, ◌+◌, ◌≤◌, ◌<◌, ◌≡◌, sym, ◌∙◌, Option, none, some, [], ◌∷◌, ◌++◌, Bytes, length, length-append,
  ltb, ◌==◌, ltb→lt, false, append_assoc, append-nil, Bool-cases, inl, inr, arith,
}
use larking.Io.{IoError, Reader, received}
use larking.Codec.Body.{
  Body, body, body_waits, cut, body_rounds, body_read_next, AllData, all_data, over_limit,
  all_waits, read_all_from, read_all,
}

-- What `readAll` of at most `max` bytes returns: all that came, or an error once more came. `t` counts
-- what came before.
pub data ReadsAll (max t : ℕ) (b : Bytes) (r : Reader) : AllData → Type 0 where
  reads_all :
      {x : Bytes} {e : IoError} {r' : Reader}
      → x ++ received r' ≡ b ++ received r
      → t + length x ≤ max + length b
      → ReadsAll max t b r (all_data x e r')
  reads_over : {r' : Reader} → max < t + length (received r) → ReadsAll max t b r (over_limit r')
  reads_waiting : {x : Bytes} → x ≡ b ++ received r → ReadsAll max t b r (all_waits x)

read_all_from-ReadsAll :
    (max t : ℕ) (b : Bytes) (r : Reader) → ReadsAll max t b r (read_all_from max t b r)
unfolding read_all_from
read_all_from-ReadsAll max t b [] = reads_waiting (sym (append-nil b))
read_all_from-ReadsAll max t b ((chunk, e) ∷ r) = elim (Bool-cases (ltb max (t + length chunk))) [
  | inl over ↦
      rw over (reads_over (omega (arith, length-append chunk (received r), ltb→lt _ _ over)))
  | inr within ↦ rw within (
      by_error e (read_all_from-ReadsAll max (t + length chunk) (b ++ chunk) r)
        (not_below _ _ within))
]
  where
    not_below : (i n : ℕ) → ltb i n ≡ false → n ≤ i
    not_below i n h = ground arith

    by_error :
        (e : Option IoError) {x : AllData}
        → ReadsAll max (t + length chunk) (b ++ chunk) r x
        → t + length chunk ≤ max
        → ReadsAll max t b
            ((chunk, e) ∷ r)
            (elim e [ some x' ↦ all_data (b ++ chunk) x' r | none ↦ x ])
    by_error (some e') a l =
        reads_all (append_assoc b chunk (received r)) (omega (arith, length-append b chunk))
    by_error none (reads_all h k) l =
        reads_all (h ∙ append_assoc b chunk (received r)) (omega (arith, k, length-append b chunk))
    by_error none (reads_over h) l = reads_over (omega (arith, h, length-append chunk (received r)))
    by_error none (reads_waiting h) l = reads_waiting (h ∙ append_assoc b chunk (received r))

-- `readAll` returns all the bytes that came before the first error of a read, at most as many as the
-- limit, with that error; if more come, it returns the error of the limit. No byte is lost.
pub read_all-ReadsAll : (max : ℕ) (b : Bytes) (r : Reader) → ReadsAll max 0 b r (read_all max b r)
unfolding read_all
read_all-ReadsAll max b r = read_all_from-ReadsAll max 0 b r

-- The part of a body that counts is at most the limit, and lies in the buffer.
pub data InLimit (limit : ℕ) : Body → Type 0 where
  in_limit :
      {b : Bytes} {n : ℕ} {e : Option IoError} {r : Reader}
      → n ≤ limit
      → n ≤ length b
      → InLimit limit (body b n e r)
  not_yet : {b : Bytes} → InLimit limit (body_waits b)

body_rounds-InLimit :
    (limit t : ℕ) (b : Bytes) (r : Reader)
    → t ≤ limit
    → t ≤ length b
    → InLimit limit (body_rounds limit t b r)
unfolding body_rounds
body_rounds-InLimit limit t b [] h k = not_yet
body_rounds-InLimit limit t b ((chunk, some e) ∷ r) h k =
    in_limit (ground arith) (ground (arith, length-append b chunk))
body_rounds-InLimit limit t b ((chunk, none) ∷ r) h k =
    elim (Bool-cases (cut limit (t + length chunk) == limit)) [
      | inl full ↦ rw full (in_limit (ground arith) (ground (arith, length-append b chunk)))
      | inr less ↦ rw less (
          body_rounds-InLimit limit (cut limit (t + length chunk)) (b ++ chunk) r (ground arith)
            (ground (arith, length-append b chunk)))
    ]

-- The length that `ReadNext` of a body returns is at most the limit and at most the bytes it has read,
-- on every read: `b[:n]` and `b[n:]` are in range.
pub body_read_next-InLimit :
    (limit : ℕ) (b : Bytes) (r : Reader) → InLimit limit (body_read_next limit b r)
unfolding body_read_next
body_read_next-InLimit limit b r = body_rounds-InLimit limit 0 b r (omega arith) (omega arith)
