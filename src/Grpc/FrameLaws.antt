-- ===== src/Grpc/FrameLaws.antt =====
-- A gRPC message that `SendMsg` of larking/grpc.go frames is received by `RecvMsg`.
use larking.Base.{
  ℕ, ◌+◌, ◌%◌, ◌^◌, ◌≤◌, ◌<◌, ◌≡◌, inl, inr, ◌&&◌, Bool, true, false, some, [], ◌∷◌, ◌++◌, Bytes,
  length, length-append, ltb, refl, sym, ap, ◌∙◌, if◌then◌else◌, Option-cases, Bool-cases,
  append_assoc, arith,
}
use mathlib.Core.Path.{subst}
use larking.Io.{Reader, received, AllRead, Full, full, fell_short, full_waits, read_full}
use larking.Io.Fulfils.{Fulfils, fulfils, read_full-Fulfils}
use larking.Grpc.Frame.{
  Compression, Wire, put_uint32, uint32, frame, header_of, compressed_frame, make_frame, Received,
  received_msg, recv_error, recv_waits, slice_panics, decode, decode_payload, recv_payload,
  recv_frame, is_one, tail, is_stream_error, canceled, io_failed,
}

uint32-put_uint32 : (n : ℕ) → n < 2 ^ 32 → uint32 (put_uint32 n) ≡ n
unfolding uint32 put_uint32
uint32-put_uint32 n h = omega arith

-- A full read of the head of what is to come.
data Took (p t : Bytes) : Full → Type 0 where
  took : {x : Bytes} {r : Reader} → x ≡ p → received r ≡ t → AllRead r → Took p t (full x r)

same_split : (p x t u : Bytes) → x ++ u ≡ p ++ t → length x ≡ length p → (x ≡ p) × (u ≡ t)
same_split [] [] t u h l = (refl, h)
same_split [] (c ∷ x) t u h l = absurd (omega arith)
same_split (c ∷ p) [] t u h l = absurd (omega arith)
same_split (c ∷ p) (e ∷ x) t u h l =
    let tails : x ++ u ≡ p ++ t = cc in
    let same : e ≡ c = cc in
    let (q, s) = same_split p x t u tails (omega arith) in (rw (same, q) refl, s)

read_full-Took :
    (p t : Bytes) (r : Reader)
    → AllRead r
    → received r ≡ p ++ t
    → Took p t (read_full (length p) [] r)
read_full-Took p t r a e =
    go (read_full-Fulfils (length p) [] r a (omega (arith, ap length e, length-append p t)))
  where
    go : {x : Full} → Fulfils [] (received r) (length p) x → Took p t x
    go (fulfils {x = b} {r = r'} h k a') =
        let (q, s) = same_split p b t (received r') (h ∙ e) (omega arith) in took q s a'

module _ {Msg : Type 0} (w : Wire Msg) where
  -- The payload is decoded, and the rest is still to come.
  data Opens (f : Bool) (z rest : Bytes) (x : Received w) : Type 0 where
    opens :
        (r : Reader) → received r ≡ rest → AllRead r → x ≡ decode_payload w f z r → Opens f z rest x

  header_flag : (f : Bool) (n : ℕ) → is_one w (header_of f n) ≡ f
  header_flag true n = refl
  header_flag false n = refl

  header_size : (f : Bool) (n : ℕ) → n < 2 ^ 32 → uint32 (tail w (header_of f n)) ≡ n
  header_size f n h = uint32-put_uint32 (n % 2 ^ 32) (omega arith) ∙ omega arith

  recv_payload-Opens :
      (f : Bool) (z rest : Bytes) (r : Reader)
      → length z ≤ w.max_receive
      → AllRead r
      → received r ≡ z ++ rest
      → Opens f z rest (recv_payload w f (length z) r)
  unfolding recv_payload
  recv_payload-Opens f z rest r k a e =
      let fits : ltb w.max_receive (length z) ≡ false = ground arith in
      rw fits (go (read_full-Took z rest r a e))
    where
      go :
          {x : Full}
          → Took z rest x
          → Opens f z rest (elim x [
            | full b r' ↦ decode_payload w f b r'
            | fell_short b e r' ↦ recv_error (io_failed e) r'
            | full_waits b ↦ recv_waits
          ])
      go (took {r = r'} p t a') = opens r' t a' (ap (λ b. decode_payload w f b r') p)

  -- A frame within the limit is read to its payload.
  recv_frame-Opens :
      (f : Bool) (z rest : Bytes) (r : Reader)
      → length z < 2 ^ 32
      → length z ≤ w.max_receive
      → AllRead r
      → received r ≡ (header_of f (length z) ++ z) ++ rest
      → Opens f z rest (recv_frame w r)
  unfolding recv_frame put_uint32
  recv_frame-Opens f z rest r l k a e = go (
      read_full-Took (header_of f (length z)) (z ++ rest) r a
        (e ∙ append_assoc (header_of f (length z)) z rest))
    where
      go :
          {x : Full}
          → Took (header_of f (length z)) (z ++ rest) x
          → Opens f z rest (elim x [
            | full h r' ↦ recv_payload w (is_one w h) (uint32 (tail w h)) r'
            | fell_short h e r' ↦
                recv_error (if is_stream_error e then canceled else io_failed e) r'
            | full_waits h ↦ recv_waits
          ])
      go (took {x = h} {r = r₁} p t a') =
          let compressed : is_one w h ≡ f = ap (is_one w) p ∙ header_flag f (length z) in
          let size : uint32 (tail w h) ≡ length z =
            ap (λ h. uint32 (tail w h)) p ∙ header_size f (length z) l in
          subst (λ n. Opens f z rest (recv_payload w (is_one w h) n r₁)) (sym size)
            (subst (λ c. Opens f z rest (recv_payload w c (length z) r₁)) (sym compressed)
              (recv_payload-Opens f z rest r₁ k a' t))

  -- Decoding gives back what was coded.
  pub record IsFaithful : Type 0 where
    pub decodes : (m : Msg) (b : Bytes) → w.marshal m ≡ some b → w.unmarshal b ≡ some m
    pub decompresses :
        (c : Compression) (b z : Bytes)
        → w.comp ≡ some c
        → c.compress b ≡ some z
        → c.decompress z ≡ some b

  -- The message is received and the rest is still to come; or the slice for the statistics panics.
  pub data Arrives (m : Msg) (rest : Bytes) : Received w → Type 0 where
    arrives :
        {b : Bytes} {r : Reader}
        → w.marshal m ≡ some b
        → (w.has_stats && ltb (length b) 5) ≡ false
        → received r ≡ rest
        → AllRead r
        → Arrives m rest (received_msg m r)
    panics :
        {b : Bytes}
        → w.marshal m ≡ some b
        → w.has_stats ≡ true
        → length b < 5
        → Arrives m rest slice_panics

  decode-Arrives :
      (m : Msg) (b rest : Bytes) (r : Reader)
      → IsFaithful
      → w.marshal m ≡ some b
      → received r ≡ rest
      → AllRead r
      → Arrives m rest (decode w b r)
  unfolding decode
  decode-Arrives m b rest r f e t a = elim (Bool-cases (w.has_stats && ltb (length b) 5)) [
    | inl short_one ↦
        rw (f.decodes m b e, decode, short_one) (panics e (ground arith) (ground arith))
    | inr fine ↦ rw (f.decodes m b e, decode, fine) (arrives e fine t a)
  ]

  compressed_frame-Arrives :
      (m : Msg) (b x rest : Bytes) (r : Reader)
      → IsFaithful
      → w.marshal m ≡ some b
      → compressed_frame w b ≡ frame x
      → length x < 2 ^ 32
      → length x ≤ w.max_receive + 5
      → AllRead r
      → received r ≡ x ++ rest
      → Arrives m rest (recv_frame w r)
  unfolding compressed_frame decode_payload
  compressed_frame-Arrives m b x rest r f e q l k a t = elim (Option-cases w.comp) [
    | inl plain ↦
        let same : header_of false (length b) ++ b ≡ x =
          frame_inj (rw (plain, compressed_frame) at q) in
        let n = ap length same in
        opened (
          recv_frame-Opens false b rest r (omega arith) (omega arith) a
            (t ∙ ap (λ y. y ++ rest) (sym same)))
    | inr (c, coded) ↦ elim (Option-cases (c.compress b)) [
      | inl failed ↦ cc (rw (coded, compressed_frame, failed) at q)
      | inr (z, zipped) ↦
          let same : header_of true (length z) ++ z ≡ x =
            frame_inj (rw (coded, compressed_frame, zipped) at q) in
          let n = ap length same in
          unzipped c z coded zipped (
            recv_frame-Opens true z rest r (omega arith) (omega arith) a
              (t ∙ ap (λ y. y ++ rest) (sym same)))
    ]
  ]
    where
      frame_inj : {y z : Bytes} → frame y ≡ frame z → y ≡ z
      frame_inj e = cc

      opened : {y : Received w} → Opens false b rest y → Arrives m rest y
      opened (opens r' t' a' s) =
          subst (Arrives m rest) (sym s) (decode-Arrives m b rest r' f e t' a')

      unzipped :
          (c : Compression) (z : Bytes)
          → w.comp ≡ some c
          → c.compress b ≡ some z
          → {y : Received w} → Opens true z rest y
          → Arrives m rest y
      unzipped c z coded zipped (opens r' t' a' s) = subst (Arrives m rest) (sym s) (
          rw (coded, decode_payload, f.decompresses c b z coded zipped)
            (decode-Arrives m b rest r' f e t' a'))

-- What `SendMsg` frames, `RecvMsg` receives, compressed or not, whatever follows it and however the
-- reads divide the stream, if none fails, the payload is within the limit, and codec and compressor
-- give back what they took. But with a handler of statistics and a message of less than five bytes,
-- `RecvMsg` panics.
pub recv_frame-make_frame :
    {Msg : Type 0} (w : Wire Msg) (m : Msg) (x rest : Bytes) (r : Reader)
    → IsFaithful w
    → make_frame w m ≡ frame x
    → length x < 2 ^ 32
    → length x ≤ w.max_receive + 5
    → AllRead r
    → received r ≡ x ++ rest
    → Arrives w m rest (recv_frame w r)
unfolding make_frame
recv_frame-make_frame w m x rest r f q l k a t = elim (Option-cases (w.marshal m)) [
  | inl failed ↦ cc (rw (failed, make_frame) at q)
  | inr (b, e) ↦ elim (Bool-cases (ltb w.max_receive (length b % 2 ^ 32))) [
    | inl over ↦ cc (rw (e, make_frame, over) at q)
    | inr within ↦
        compressed_frame-Arrives w m b x rest r f e (rw (e, make_frame, within) at q) l k a t
  ]
]
