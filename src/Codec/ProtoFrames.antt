-- ===== src/Codec/ProtoFrames.antt =====
-- The round trip of messages in a stream, by `CodecProto` of larking/codec.go.
use mathlib.Core.Path.{subst}
use larking.Base.{
  ℕ, zero, suc, ◌+◌, ◌-◌, ◌^◌, ◌≤◌, ◌<◌, ◌≡◌, ◌⊎◌, refl, sym, ap, ◌∙◌, some, [], ◌∷◌, ◌++◌,
  append_assoc, ◌&&◌, true, false, Bytes, length, length-append, drop, ltb, ltb→lt, Bool-cases, inl,
  inr, arith,
}
use larking.Io.{
  Reader, received, AllRead, Filled, fill, Full, full, fell_short, full_waits, read_full,
}
use larking.Io.Fills.{Fills, enough, short, fill-Fills, drop-get}
use larking.Io.Fulfils.{Fulfils, fulfils, read_full-Fulfils, take-drop}
use larking.Codec.Json.{message, no_message, io, waiting, negative_length}
use larking.Codec.JsonScan.{drop_end}
use larking.Codec.JsonFrames.{Delivers, delivers, split_at}
use larking.Codec.Proto.{
  Varints, Header, header, returns, header_rounds, sized, proto_body, proto_read_next,
  proto_write_next, cut_off,
}

-- The bytes of a varint but the last have their top bit set.
pub data IsVarint : Bytes → Type 0 where
  last_byte : (c : ℕ) → ltb c 0x80 ≡ true → IsVarint (c ∷ [])
  more_bytes : (c : ℕ) {p : Bytes} → ltb c 0x80 ≡ false → IsVarint p → IsVarint (c ∷ p)

-- What the package documents of its varints of a uint64: their shape, and that they are read back.
pub record IsCodec (v : Varints) : Type 0 where
  pub shaped : (n : ℕ) → n < 2 ^ 64 → IsVarint (v.append n) × (length (v.append n) ≤ 10)
  pub read_back :
      (n : ℕ) (t : Bytes) → n < 2 ^ 64 → v.consume (v.append n ++ t) ≡ some (n, length (v.append n))

-- The first `k` bytes of `d` are there, and no byte is lost.
data Heads (k : ℕ) (d : Bytes) : Header → Type 0 where
  heads :
      {b : Bytes} {r : Reader}
      → b ++ received r ≡ d
      → k ≤ length b
      → AllRead r
      → Heads k d (header b r)

header-Heads :
    {p : Bytes} (n i : ℕ) (b : Bytes) (r : Reader) (d t : Bytes)
    → IsVarint p
    → length p ≤ n
    → AllRead r
    → b ++ received r ≡ d
    → drop i d ≡ p ++ t
    → Heads (i + length p) d (header_rounds n i b r)
unfolding header_rounds
header-Heads zero i b r d t (last_byte c h) l a e f = absurd (omega arith)
header-Heads zero i b r d t (more_bytes c h w) l a e f = absurd (omega arith)
header-Heads (suc n) i b r d t (last_byte c h) l a e f =
    by_fill (fill i b r) refl (fill-Fills i b r d a e)
  where
    by_fill :
        (x : Filled) → fill i b r ≡ x → Fills i d x → Heads (i + 1) d (header_rounds (suc n) i b r)
    by_fill x q (short s k) =
        let none_left : drop i d ≡ [] = drop_end i d (omega (arith, ap length s)) in cc
    by_fill x q (enough {b = b'} {r = r'} s k a') =
        let (c', g, u) = drop-get i b' (received r') k in
        let u' : drop i d ≡ c' ∷ drop (suc i) d = subst (λ t. drop i t ≡ c' ∷ drop (suc i) t) s u in
        let same : c' ≡ c = cc in rw (q, g, same, h, header_rounds) (heads s (omega arith) a')
header-Heads (suc n) i b r d t (more_bytes c {p} h w) l a e f =
    by_fill (fill i b r) refl (fill-Fills i b r d a e)
      (λ b' r'. header-Heads n (i + 1) b' r' d t w (omega arith))
  where
    by_fill :
        (x : Filled)
        → fill i b r ≡ x
        → Fills i d x
        → ((b' : Bytes) (r' : Reader)
            → AllRead r'
            → b' ++ received r' ≡ d
            → drop (i + 1) d ≡ p ++ t
            → Heads (i + 1 + length p) d (header_rounds n (i + 1) b' r'))
        → Heads (i + suc (length p)) d (header_rounds (suc n) i b r)
    by_fill x q (short s k) go =
        let none_left : drop i d ≡ [] = drop_end i d (omega (arith, ap length s)) in cc
    by_fill x q (enough {b = b'} {r = r'} s k a') go =
        let (c', g, u) = drop-get i b' (received r') k in
        let u' : drop i d ≡ c' ∷ drop (suc i) d = subst (λ t. drop i t ≡ c' ∷ drop (suc i) t) s u in
        let same : c' ≡ c = cc in
        let tails : drop (suc i) d ≡ p ++ t = cc in
        let next : suc i ≡ i + 1 = omega arith in
        let count : i + 1 + length p ≡ i + suc (length p) = omega arith in
        rw (q, g, same, h, header_rounds)
          (subst (λ k. Heads k d (header_rounds n (i + 1) b' r')) count
            (go b' r' a' s (subst (λ k. drop k d ≡ p ++ t) next tails)))

-- The message is at the head of what is still to come.
sized-Delivers :
    (m b rest : Bytes) (r : Reader)
    → AllRead r
    → b ++ received r ≡ m ++ rest
    → Delivers m rest (sized (length m) b r)
unfolding sized
sized-Delivers m b rest r a e = elim (Bool-cases (ltb (length b) (length m))) [
  | inr whole ↦
      let l : length m ≤ length b = ground arith in
      let (p, q) = split_at m b (received r) rest l e in rw whole (delivers p q a)
  | inl part ↦
      let l : length b < length m = ltb→lt _ _ part in
      let total = ap length e in
      rw part (
        of_full (read_full (length m - length b) [] r)
          (read_full-Fulfils (length m - length b) [] r a
            (omega (arith, total, length-append b (received r), length-append m rest)))
          l)
]
  where
    of_full :
        (x : Full)
        → Fulfils [] (received r) (length m - length b) x
        → length b < length m
        → Delivers m rest (elim x [
          | full got r' ↦ message (b ++ got) (length m) r'
          | fell_short got e r' ↦ no_message b (io (cut_off e)) r'
          | full_waits got ↦ waiting b
        ])
    of_full x (fulfils {x = got} {r = r'} h k a') l =
        let (p, q) =
          split_at m (b ++ got) (received r') rest (omega (arith, length-append b got, k))
            (append_assoc b got (received r') ∙ ap (λ t. b ++ t) h ∙ e) in
        delivers p q a'

proto_body-Delivers :
    (v : Varints) (limit : ℕ) (m b rest : Bytes) (r : Reader)
    → IsCodec v
    → length m < 2 ^ 63
    → (limit ≡ 0) ⊎ (length m ≤ limit)
    → AllRead r
    → b ++ received r ≡ proto_write_next v m ++ rest
    → length (v.append (length m)) ≤ length b
    → Delivers m rest (proto_body v limit b r)
unfolding proto_body proto_write_next
proto_body-Delivers v limit m b rest r c l k a e h =
    let head = v.append (length m) in
    let (p, q) = split_at head b (received r) (m ++ rest) h (e ∙ append_assoc head m rest) in
    let found : v.consume b ≡ some (length m, length head) =
      subst (λ t. v.consume t ≡ some (length m, length head))
        (ap (λ t. t ++ drop (length head) b) (sym p) ∙ take-drop (length head) b)
        (c.read_back (length m) (drop (length head) b) (omega arith)) in
    let fits : ltb (length m) (2 ^ 63) ≡ true = ground arith in
    let within : (ltb 0 limit && ltb limit (length m)) ≡ false = ground arith in
    rw (found, proto_body, fits, within) (sized-Delivers m (drop (length head) b) rest r a q)

-- A message that is written to a stream is read back whole, whatever follows it and however the reads
-- divide the stream, if none of them fails and the message is within the limit; a limit of 0 is none.
-- Varints are as package protowire documents them.
pub proto_read_next-write :
    (v : Varints) (limit : ℕ) (m b rest : Bytes) (r : Reader)
    → IsCodec v
    → length m < 2 ^ 63
    → (limit ≡ 0) ⊎ (length m ≤ limit)
    → AllRead r
    → b ++ received r ≡ proto_write_next v m ++ rest
    → Delivers m rest (proto_read_next v limit b r)
unfolding proto_read_next proto_write_next
proto_read_next-write v limit m b rest r c l k a e =
    let (w, few) = c.shaped (length m) (omega arith) in
    go (
      header-Heads 10 0 b r (b ++ received r) (m ++ rest) w few a refl
        (e ∙ append_assoc (v.append (length m)) m rest))
  where
    go :
        {x : Header}
        → Heads (0 + length (v.append (length m))) (b ++ received r) x
        → Delivers m rest (elim x [ returns y ↦ y | header b' r' ↦ proto_body v limit b' r' ])
    go (heads {b = b'} {r = r'} h n a') =
        proto_body-Delivers v limit m b' rest r' c l k a' (h ∙ e) (omega arith)

-- A size from 2 ^ 63 on passes every limit, and `ReadNext` returns a negative length as no error.
pub proto_body-negative_length :
    (v : Varints) (limit size n : ℕ) (b : Bytes) (r : Reader)
    → v.consume b ≡ some (size, n)
    → 2 ^ 63 ≤ size
    → proto_body v limit b r ≡ negative_length (drop n b) size r
unfolding proto_body
proto_body-negative_length v limit size n b r e h =
    let past : ltb size (2 ^ 63) ≡ false = ground arith in rw (e, proto_body, past) refl
