-- ===== src/Compress/Exclusive.antt =====
-- The objects of a pool of larking/compress.go and their holders.
use mathlib.Core.List.{Memᴰ}
use mathlib.Core.Path.{subst}
use larking.Base.{
  ℕ, zero, suc, ◌+◌, ◌≤◌, ◌<◌, true, false, Option, none, some, List, [], ◌∷◌, ◌++◌, ◌≡◌, refl, sym,
  ap, ◌==◌, if◌then◌else◌, Bool-cases, inl, inr, eq_self, ltb, ltb→lt, arith,
}
use larking.Compress.{Pool, pick, put, reset, make}

unfoldable pub at : ℕ → ℕ → ℕ
at y z = if y == z then 1 else 0

-- How often an object is in the pool, and with a caller.
unfoldable pub count : ℕ → List ℕ → ℕ
unfolding at
count z [] = 0
count z (y ∷ ys) = at y z + count z ys

unfoldable pub count_held : ℕ → List (ℕ × ℕ) → ℕ
unfolding at
count_held z [] = 0
count_held z ((y, w) ∷ ys) = at y z + count_held z ys

-- Each object that was made is in the pool, with a caller, or lost by a caller, and that once; none
-- that is still to be made is anywhere; and what a caller holds is set to the caller's stream.
pub record IsExclusive (p : Pool) (held : List (ℕ × ℕ)) (lost : List ℕ) : Type 0 where
  pub once : (z : ℕ) → z < p.next → count z p.free + count_held z held + count z lost ≡ 1
  pub made : (z : ℕ) → p.next ≤ z → count z p.free + count_held z held + count z lost ≡ 0
  pub own : (z w : ℕ) → Memᴰ (z, w) held → p.stream_of z ≡ some w

at_self : (a : ℕ) → at a a ≡ 1
unfolding at
at_self a = ground arith

at_below : (a b n : ℕ) → a < n → n ≤ b → at a b ≡ 0
unfolding at
at_below a b n lt le = ground arith

at_true : (a b : ℕ) → (a == b) ≡ true → at b a ≡ 1
unfolding at
at_true a b h = ground arith

at_equal : (a b : ℕ) → a ≤ b → b < a + 1 → at a b ≡ 1
unfolding at
at_equal a b le lt = ground arith

at_above : (a b : ℕ) → b < a → at a b ≡ 0
unfolding at
at_above a b lt = ground arith

below : (a b : ℕ) → (a == b) ≡ true → b ≤ a
below a b h = ground arith

not_below : (a b : ℕ) → ltb a b ≡ false → b ≤ a
not_below a b h = ground arith

-- The object that is picked leaves the pool, the others stay.
abbrev pub Takes : ℕ → List ℕ → Option (ℕ × List ℕ) → Type 0
Takes x zs none = Unit
Takes x zs (some (z, left)) = count x zs ≡ at z x + count x left

pub pick-Takes : (x n : ℕ) (zs : List ℕ) → Takes x zs (pick n zs)
unfolding pick count
pick-Takes x n [] = tt
pick-Takes x zero (y ∷ zs) = refl
pick-Takes x (suc n) (y ∷ zs) = go (pick n zs) (pick-Takes x n zs)
  where
    go :
        (o : Option (ℕ × List ℕ))
        → Takes x zs o
        → Takes x (y ∷ zs) (elim o [ none ↦ none | some (z, left) ↦ some (z, y ∷ left) ])
    go none e = tt
    go (some (z, left)) e = omega arith

count_held-middle :
    (x : ℕ) (xs ys : List (ℕ × ℕ)) (z w : ℕ)
    → count_held x (xs ++ (z, w) ∷ ys) ≡ at z x + count_held x (xs ++ ys)
unfolding count_held
count_held-middle x [] ys z w = refl
count_held-middle x ((y, v) ∷ xs) ys z w = let e = count_held-middle x xs ys z w in omega arith

mem-middle : (a x : ℕ × ℕ) (xs ys : List (ℕ × ℕ)) → Memᴰ x (xs ++ ys) → Memᴰ x (xs ++ a ∷ ys)
mem-middle a x [] ys i = Memᴰ.tail i
mem-middle a x (y ∷ xs) ys (Memᴰ.head e) = Memᴰ.head e
mem-middle a x (y ∷ xs) ys (Memᴰ.tail i) = Memᴰ.tail (mem-middle a x xs ys i)

mem-count : (z w : ℕ) (held : List (ℕ × ℕ)) → Memᴰ (z, w) held → 1 ≤ count_held z held
unfolding count_held
mem-count z w [] i = elim i [ ]
mem-count z w ((y, v) ∷ held) (Memᴰ.head e) =
    subst (λ u. 1 ≤ at u z + count_held z held) (ap (λ t. t.0) e)
      (let one = at_self z in omega arith)
mem-count z w ((y, v) ∷ held) (Memᴰ.tail i) = let le = mem-count z w held i in omega arith

most :
    {p : Pool} {held : List (ℕ × ℕ)} {lost : List ℕ}
    → IsExclusive p held lost
    → (x : ℕ) → count x p.free + count_held x held + count x lost ≤ 1
most {p} q x = elim (Bool-cases (ltb x p.next)) [
  | inl t ↦ let e = q.once x (ltb→lt x p.next t) in omega arith
  | inr t ↦ let e = q.made x (not_below x p.next t) in omega arith
]

module _ {p : Pool} {held : List (ℕ × ℕ)} {lost : List ℕ} (q : IsExclusive p held lost) where
  -- A pooled object is not held, and may be set and given to a caller.
  pub reset-IsExclusive :
      (z w : ℕ) (left : List ℕ)
      → ((x : ℕ) → count x p.free ≡ at z x + count x left)
      → IsExclusive (reset z w left p) ((z, w) ∷ held) lost
  unfolding reset count_held
  reset-IsExclusive z w left e = record {
    once = λ x lt. let le = q.once x lt in let k = e x in omega arith;
    made = λ x lt. let le = q.made x lt in let k = e x in omega arith;
    own = owned;
  }
    where
      owned :
          (x v : ℕ)
          → Memᴰ (x, v) ((z, w) ∷ held)
          → (if x == z then some w else p.stream_of x) ≡ some v
      owned x v (Memᴰ.head i) =
          let k : x ≡ z = ap (λ t. t.0) i in
          let l : w ≡ v = sym (ap (λ t. t.1) i) in rw (k, eq_self z) (ap (λ t. some t) l)
      owned x v (Memᴰ.tail i) = elim (Bool-cases (x == z)) [
        | inl k ↦ absurd (
            let one = most q x in
            let there = e x in
            let mine = at_true x z k in let holds = mem-count x v held i in omega arith)
        | inr k ↦ rw k (q.own x v i)
      ]

  pub make-IsExclusive : (w : ℕ) → IsExclusive (make w p) ((p.next, w) ∷ held) lost
  unfolding make count_held
  make-IsExclusive w = record {
    once = λ x within. elim (Bool-cases (ltb x p.next)) [
      | inl t ↦
          let lt = ltb→lt x p.next t in
          let e = q.once x lt in let z = at_above p.next x lt in omega arith
      | inr t ↦
          let le = not_below x p.next t in
          let e = q.made x le in let one = at_equal p.next x le within in omega arith
    ];
    made = λ x le.
        let e = q.made x (omega arith) in
        let z = at_below p.next x (p.next + 1) (omega arith) le in omega arith;
    own = owned;
  }
    where
      owned :
          (x v : ℕ)
          → Memᴰ (x, v) ((p.next, w) ∷ held)
          → (if x == p.next then some w else p.stream_of x) ≡ some v
      owned x v (Memᴰ.head i) =
          let k : x ≡ p.next = ap (λ t. t.0) i in
          let l : w ≡ v = sym (ap (λ t. t.1) i) in rw (k, eq_self p.next) (ap (λ t. some t) l)
      owned x v (Memᴰ.tail i) = elim (Bool-cases (x == p.next)) [
        | inl k ↦ absurd (
            let none_yet = q.made x (below x p.next k) in
            let holds = mem-count x v held i in omega arith)
        | inr k ↦ rw k (q.own x v i)
      ]

module _ {p : Pool} {lost : List ℕ} (xs ys : List (ℕ × ℕ)) (z w : ℕ)
    (q : IsExclusive p (xs ++ (z, w) ∷ ys) lost) where
  -- A caller gives the object back.
  pub put-IsExclusive : IsExclusive (put z p) (xs ++ ys) lost
  unfolding put count
  put-IsExclusive = record {
    once = λ x lt. let e = q.once x lt in let m = count_held-middle x xs ys z w in omega arith;
    made = λ x le. let e = q.made x le in let m = count_held-middle x xs ys z w in omega arith;
    own = λ x v i. q.own x v (mem-middle (z, w) (x, v) xs ys i);
  }

  -- A caller leaves it.
  pub leave-IsExclusive : IsExclusive p (xs ++ ys) (z ∷ lost)
  unfolding count
  leave-IsExclusive = record {
    once = λ x lt. let e = q.once x lt in let m = count_held-middle x xs ys z w in omega arith;
    made = λ x le. let e = q.made x le in let m = count_held-middle x xs ys z w in omega arith;
    own = λ x v i. q.own x v (mem-middle (z, w) (x, v) xs ys i);
  }
