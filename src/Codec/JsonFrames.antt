-- ===== src/Codec/JsonFrames.antt =====
-- The round trip of JSON objects in a stream, by `CodecJSON` of larking/codec.go.
use larking.Base.{
  ℕ, zero, suc, ◌≤◌, ◌≡◌, refl, ap, ◌∙◌, [], ◌∷◌, ◌++◌, Bytes, length, take, drop, arith,
}
use larking.Io.{Reader, received, AllRead}
use larking.Codec.Json.{
  Scan, Step, more, closes, unbalanced, step, NextRead, message, start, json_read_next,
  json_write_next,
}
use larking.Codec.JsonText.{IsObject, IsObject-json_scan}
use larking.Codec.JsonScan.{
  Verdict, ends, breaks, exceeds, runs_out, later, json_scan, Reads, whole, broken, exceeded,
  unfinished, json_read_next-Reads,
}

later-ends : (v : Verdict) (k : ℕ) → later v ≡ ends k → (j : ℕ) × (v ≡ ends j) × (suc j ≡ k)
later-ends (ends j) k e = (j, refl, cc)
later-ends breaks k e = cc
later-ends exceeds k e = cc
later-ends runs_out k e = cc

-- A scan that ends looks at no byte behind the end.
json_scan-append :
    (n m : ℕ) (s : Scan) (d t : Bytes) (k : ℕ)
    → n ≤ m
    → json_scan n s d ≡ ends k
    → json_scan m s (d ++ t) ≡ ends k
unfolding json_scan
json_scan-append zero m s d t k h e = cc
json_scan-append (suc n) m s [] t k h e = cc
json_scan-append (suc n) zero s (c ∷ d) t k h e = absurd (omega arith)
json_scan-append (suc n) (suc m) s (c ∷ d) t k h e =
    by_step (step s c) refl (λ s'. json_scan-append n m s' d t)
  where
    by_step :
        (x : Step)
        → step s c ≡ x
        → ((s' : Scan) (j : ℕ)
            → n ≤ m
            → json_scan n s' d ≡ ends j
            → json_scan m s' (d ++ t) ≡ ends j)
        → json_scan (suc m) s (c ∷ (d ++ t)) ≡ ends k
    by_step closes u go = rw (u, json_scan) (rw (u, json_scan) at e)
    by_step unbalanced u go = rw (u, json_scan) (rw (u, json_scan) at e)
    by_step (more s') u go =
        let (j, f, g) = later-ends (json_scan n s' d) k (rw (u, json_scan) at e) in
        rw (u, json_scan) (ap later (go s' j (omega arith) f) ∙ ap ends g)

-- The message is read, and the rest of the stream is still to come.
pub data Delivers (m rest : Bytes) : NextRead → Type 0 where
  delivers :
      {b : Bytes} {n : ℕ} {r : Reader}
      → take n b ≡ m
      → drop n b ++ received r ≡ rest
      → AllRead r
      → Delivers m rest (message b n r)

pub split_at :
    (m b t rest : Bytes)
    → length m ≤ length b
    → b ++ t ≡ m ++ rest
    → (take (length m) b ≡ m) × (drop (length m) b ++ t ≡ rest)
split_at [] b t rest l h = (refl, h)
split_at (c ∷ m) [] t rest l h = absurd (omega arith)
split_at (c ∷ m) (x ∷ b) t rest l h =
    let tails : b ++ t ≡ m ++ rest = cc in
    let same : x ≡ c = cc in
    let (p, q) = split_at m b t rest (omega arith) tails in (rw (same, p) refl, q)

-- A JSON object, by the grammar of its braces, strings and escapes, that is written to a stream is read
-- back whole, whatever follows it and however the reads divide the stream, if none of them fails and
-- the object is within the limit.
pub json_read_next-write :
    (limit : ℕ) (m b rest : Bytes) (r : Reader)
    → IsObject m
    → length m ≤ limit
    → AllRead r
    → b ++ received r ≡ json_write_next m ++ rest
    → Delivers m rest (json_read_next limit b r)
unfolding json_write_next
json_read_next-write limit m b rest r w l a e =
    deliver (json_read_next-Reads limit b r a)
      (rw e (json_scan-append (length m) limit start m rest (length m) l (IsObject-json_scan w)))
  where
    deliver :
        {v : Verdict} {x : NextRead}
        → Reads (b ++ received r) 0 v x
        → v ≡ ends (length m)
        → Delivers m rest x
    deliver (whole {k} {n} {b = b'} {r = r'} p q a' h) f =
        let same : k ≡ length m = cc in
        let count : n ≡ length m = omega arith in
        let (u, v) = split_at m b' (received r') rest (omega arith) (h ∙ e) in
        delivers (rw count u) (rw count v) a'
    deliver (broken h) f = cc
    deliver (exceeded h) f = cc
    deliver (unfinished h) f = cc
