-- ===== src/Io/Fills.antt =====
-- What the loop that fills a buffer leaves, where no read fails.
use larking.Base.{
  ℕ, zero, suc, ◌<◌, ◌≤◌, ◌≡◌, refl, sym, ◌∙◌, none, some, [], ◌∷◌, ◌++◌, append-nil, append_assoc,
  List, Bytes, length, drop, get_elem?, ltb, ltb→lt, Bool-cases, inl, inr, false, arith,
}
use larking.Io.{Reader, received, AllRead, Filled, filled, waits, fill}

-- Nothing is lost of the bytes `d`, and `b[i]` is there, or all that came is too short.
pub data Fills (i : ℕ) (d : Bytes) : Filled → Type 0 where
  enough :
      {b : Bytes} {r : Reader}
      → b ++ received r ≡ d
      → i < length b
      → AllRead r
      → Fills i d (filled b r)
  short : {b : Bytes} → b ≡ d → length b ≤ i → Fills i d (waits b)

not_below : (i n : ℕ) → ltb i n ≡ false → n ≤ i
not_below i n h = ground arith

pub fill-Fills :
    (i : ℕ) (b : Bytes) (r : Reader) (d : Bytes)
    → AllRead r
    → b ++ received r ≡ d
    → Fills i d (fill i b r)
unfolding fill
fill-Fills i b [] d a e = elim (Bool-cases (ltb i (length b))) [
  | inl t ↦ rw t (enough e (ltb→lt _ _ t) tt)
  | inr t ↦ rw t (short (sym (append-nil b) ∙ e) (not_below _ _ t))
]
fill-Fills i b ((chunk, some x) ∷ r) d a e = elim a [ ]
fill-Fills i b ((chunk, none) ∷ r) d a e = elim (Bool-cases (ltb i (length b))) [
  | inl t ↦ rw t (enough e (ltb→lt _ _ t) a)
  | inr t ↦ rw t (fill-Fills i (b ++ chunk) r d a (append_assoc b chunk (received r) ∙ e))
]

-- The byte at a position in the first part of a text.
pub drop-get :
    {A : Type 0} (i : ℕ) (b t : List A)
    → i < length b
    → (c : A) × (get_elem? b i ≡ some c) × (drop i (b ++ t) ≡ c ∷ drop (suc i) (b ++ t))
drop-get i [] t h = absurd (omega arith)
drop-get zero (c ∷ b) t h = (c, refl, refl)
drop-get (suc i) (c ∷ b) t h = drop-get i b t (omega arith)
