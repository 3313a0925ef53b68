-- ===== src/Codec/JsonScan.antt =====
-- How `CodecJSON.ReadNext` of larking/codec.go answers depends on the bytes alone, not on the reads
-- that bring them.
use larking.Base.{
  ℕ, zero, suc, ◌+◌, ◌<◌, ◌≤◌, ◌≡◌, refl, ap, some, [], ◌∷◌, ◌++◌, Bytes, length, drop, get_elem?,
  arith,
}
use mathlib.Core.Path.{subst}
use larking.Io.{Reader, received, AllRead, Filled, filled, fill}
use larking.Io.Fills.{Fills, enough, short, fill-Fills, drop-get}
use larking.Codec.Json.{
  Scan, Step, more, closes, unbalanced, step, unbalanced_braces, too_large, NextRead, message,
  no_message, waiting, json_rounds, start, json_read_next,
}

pub data Verdict : Type 0 where
  ends : ℕ → Verdict
  breaks exceeds runs_out : Verdict

abbrev pub later : Verdict → Verdict
later (ends k) = ends (suc k)
later breaks = breaks
later exceeds = exceeds
later runs_out = runs_out

-- The scan over all bytes at once: where the object ends, if at most `n` bytes are looked at.
unfoldable pub json_scan : ℕ → Scan → Bytes → Verdict
json_scan zero s d = exceeds
json_scan (suc n) s [] = runs_out
json_scan (suc n) s (c ∷ d) = elim (step s c) [
  | closes ↦ ends 1
  | unbalanced ↦ breaks
  | more s' ↦ later (json_scan n s' d)
]

-- What a read of the bytes `d` from `i` on answers for a verdict on them; no byte is lost.
pub data Reads (d : Bytes) (i : ℕ) : Verdict → NextRead → Type 0 where
  whole :
      {k n : ℕ} {b : Bytes} {r : Reader}
      → n ≡ i + k
      → n ≤ length b
      → AllRead r
      → b ++ received r ≡ d
      → Reads d i (ends k) (message b n r)
  broken :
      {b : Bytes} {r : Reader}
      → b ++ received r ≡ d
      → Reads d i breaks (no_message b unbalanced_braces r)
  exceeded :
      {b : Bytes} {r : Reader} → b ++ received r ≡ d → Reads d i exceeds (no_message b too_large r)
  unfinished : {b : Bytes} → b ≡ d → Reads d i runs_out (waiting b)

later-Reads :
    {d : Bytes} (i : ℕ) {v : Verdict} {x : NextRead} → Reads d (i + 1) v x → Reads d i (later v) x
later-Reads i (whole e l a h) = whole (omega arith) l a h
later-Reads i (broken h) = broken h
later-Reads i (exceeded h) = exceeded h
later-Reads i (unfinished h) = unfinished h

pub drop_end : (i : ℕ) (d : Bytes) → length d ≤ i → drop i d ≡ []
drop_end zero [] h = refl
drop_end zero (c ∷ d) h = absurd (omega arith)
drop_end (suc i) [] h = refl
drop_end (suc i) (c ∷ d) h = drop_end i d (omega arith)

json_rounds-Reads :
    (n i : ℕ) (s : Scan) (b : Bytes) (r : Reader) (d : Bytes)
    → AllRead r
    → b ++ received r ≡ d
    → Reads d i (json_scan n s (drop i d)) (json_rounds n i s b r)
unfolding json_scan json_rounds
json_rounds-Reads zero i s b r d a e = exceeded e
json_rounds-Reads (suc n) i s b r d a e =
    by_fill (fill i b r) refl (fill-Fills i b r d a e) (json_rounds-Reads n (i + 1))
  where
    by_step :
        (c : ℕ) (b' : Bytes) (r' : Reader)
        → fill i b r ≡ filled b' r'
        → get_elem? b' i ≡ some c
        → drop i d ≡ c ∷ drop (suc i) d
        → i < length b'
        → AllRead r'
        → b' ++ received r' ≡ d
        → ((s' : Scan)
            → Reads d (i + 1) (json_scan n s' (drop (i + 1) d)) (json_rounds n (i + 1) s' b' r'))
        → (x : Step) → step s c ≡ x
        → Reads d i (json_scan (suc n) s (drop i d)) (json_rounds (suc n) i s b r)
    by_step c b' r' f g q l a' h go closes t =
        rw (q, f, g, t, json_rounds, json_scan) (whole (omega arith) (omega arith) a' h)
    by_step c b' r' f g q l a' h go unbalanced t =
        rw (q, f, g, t, json_rounds, json_scan) (broken h)
    by_step c b' r' f g q l a' h go (more s') t =
        let next : i + 1 ≡ suc i = omega arith in
        rw (q, f, g, t, json_rounds, json_scan)
          (later-Reads i (
            subst
              (λ k. Reads d (i + 1) (json_scan n s' (drop k d)) (json_rounds n (i + 1) s' b' r'))
              next (go s')))

    by_fill :
        (x : Filled)
        → fill i b r ≡ x
        → Fills i d x
        → ((s' : Scan) (b' : Bytes) (r' : Reader) (d : Bytes)
            → AllRead r'
            → b' ++ received r' ≡ d
            → Reads d (i + 1) (json_scan n s' (drop (i + 1) d)) (json_rounds n (i + 1) s' b' r'))
        → Reads d i (json_scan (suc n) s (drop i d)) (json_rounds (suc n) i s b r)
    by_fill x f (short {b = b'} h l) go =
        let past : drop i d ≡ [] = drop_end i d (omega (arith, ap length h)) in
        rw (past, f, json_rounds) (unfinished h)
    by_fill x f (enough {b = b'} {r = r'} h l a') go =
        let (c, g, q) = drop-get i b' (received r') l in
        by_step c b' r' f g (subst (λ t. drop i t ≡ c ∷ drop (suc i) t) h q) l a' h
          (λ s'. go s' b' r' d a' h) (step s c) refl

-- What `ReadNext` answers on a stream of JSON depends on the bytes in the buffer and on those to come
-- alone, not on how the reads divide them, if no read fails: it is what a scan of all these bytes at
-- once says, and no byte is lost, repeated or indexed out of range.
pub json_read_next-Reads :
    (limit : ℕ) (b : Bytes) (r : Reader)
    → AllRead r
    → Reads (b ++ received r) 0 (json_scan limit start (b ++ received r)) (json_read_next limit b r)
unfolding json_read_next
json_read_next-Reads limit b r a = json_rounds-Reads limit 0 start b r (b ++ received r) a refl
