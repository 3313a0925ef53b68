-- ===== src/Mux/Owned.antt =====
-- The handlers that a connection owns among those of a method, for `removeHandler` and
-- `addConnHandler` of larking/mux.go.
use larking.Base.{
  ℕ, ◌+◌, ◌≤◌, ◌<◌, Bool, true, false, ◌&&◌, ◌||◌, List, [], ◌∷◌, ◌++◌, ◌≡◌, refl, ap, ◌∙◌, ◌==◌,
  eq_self, append-nil, if◌then◌else◌, Bytes, beq, Bool-cases, inl, inr, arith,
}
use larking.Mux.Handlers.{Handler}
use larking.Mux.Removal.{is_among, kept}

differ : (a b : ℕ) → a < b → (a == b) ≡ false
differ a b lt = ground arith

no_and : (b c : Bool) → c ≡ false → (b && c) ≡ false
no_and true c e = e
no_and false c e = refl

or_right : (b c : Bool) → c ≡ true → (b || c) ≡ true
or_right true c e = refl
or_right false c e = e

module _ {Message : Type 0} where
  -- Those of a connection's handlers that are for the method.
  unfoldable pub own : Bytes → List (Handler Message) → List (Handler Message)
  own name [] = []
  own name (h ∷ hs) = if beq h.method name then h ∷ own name hs else own name hs

  -- The numbers of the handlers are all below one, or none is.
  unfoldable pub AllBelow : ℕ → List (Handler Message) → Type 0
  AllBelow n [] = Unit
  AllBelow n (h ∷ hs) = (h.id < n) × AllBelow n hs

  unfoldable pub AllFrom : ℕ → List (Handler Message) → Type 0
  AllFrom n [] = Unit
  AllFrom n (h ∷ hs) = (n ≤ h.id) × AllFrom n hs

  pub own-append :
      (name : Bytes) (hs : List (Handler Message)) (h : Handler Message)
      → own name (hs ++ h ∷ []) ≡ own name hs ++ (if beq h.method name then h ∷ [] else [])
  unfolding own
  own-append name [] h = refl
  own-append name (x ∷ hs) h = elim (Bool-cases (beq x.method name)) [
    | inl same ↦ rw same (ap (λ t. x ∷ t) (own-append name hs h))
    | inr other ↦ rw other (own-append name hs h)
  ]

  pub AllFrom-append :
      (n : ℕ) (hs : List (Handler Message)) (h : Handler Message)
      → AllFrom n hs
      → n ≤ h.id
      → AllFrom n (hs ++ h ∷ [])
  unfolding AllFrom
  AllFrom-append n [] h q le = (le, tt)
  AllFrom-append n (x ∷ hs) h (from, q) le = (from, AllFrom-append n hs h q le)

  pub AllBelow-append :
      (n : ℕ) (xs ys : List (Handler Message))
      → AllBelow n xs
      → AllBelow n ys
      → AllBelow n (xs ++ ys)
  unfolding AllBelow
  AllBelow-append n [] ys p q = q
  AllBelow-append n (x ∷ xs) ys (lt, p) q = (lt, AllBelow-append n xs ys p q)

  pub AllBelow-grow :
      (m n : ℕ) (xs : List (Handler Message)) → m ≤ n → AllBelow m xs → AllBelow n xs
  unfolding AllBelow
  AllBelow-grow m n [] le p = tt
  AllBelow-grow m n (x ∷ xs) le (lt, p) = (omega arith, AllBelow-grow m n xs le p)

  -- One handler that is added under the next number.
  pub AllBelow-added :
      (n : ℕ) (b : Bool) (h : Handler Message) (xs : List (Handler Message))
      → h.id ≡ n
      → AllBelow n xs
      → AllBelow (n + 1) (xs ++ (if b then h ∷ [] else []))
  unfolding AllBelow
  AllBelow-added n true h xs e p =
      AllBelow-append (n + 1) xs (h ∷ []) (AllBelow-grow n (n + 1) xs (omega arith) p)
        (omega arith, tt)
  AllBelow-added n false h xs e p =
      AllBelow-append (n + 1) xs [] (AllBelow-grow n (n + 1) xs (omega arith) p) tt

  is_among-AllFrom :
      (name : Bytes) (n i : ℕ) (hs : List (Handler Message))
      → AllFrom n hs
      → i < n
      → is_among name i hs ≡ false
  unfolding is_among AllFrom
  is_among-AllFrom name n i [] q lt = refl
  is_among-AllFrom name n i (h ∷ hs) (from, q) lt =
      rw (no_and (beq h.method name) (i == h.id) (differ i h.id (omega arith)))
        (is_among-AllFrom name n i hs q lt)

  kept-AllBelow :
      (name : Bytes) (n : ℕ) (hs xs : List (Handler Message))
      → AllFrom n hs
      → AllBelow n xs
      → kept name hs xs ≡ xs
  unfolding kept AllBelow
  kept-AllBelow name n hs [] from below = refl
  kept-AllBelow name n hs (x ∷ xs) from (lt, below) =
      rw (is_among-AllFrom name n x.id hs from lt)
        (ap (λ t. x ∷ t) (kept-AllBelow name n hs xs from below))

  kept-append :
      (name : Bytes) (hs xs ys : List (Handler Message))
      → kept name hs (xs ++ ys) ≡ kept name hs xs ++ kept name hs ys
  unfolding kept
  kept-append name hs [] ys = refl
  kept-append name hs (x ∷ xs) ys = elim (Bool-cases (is_among name x.id hs)) [
    | inl among ↦ rw among (kept-append name hs xs ys)
    | inr safe ↦ rw safe (ap (λ t. x ∷ t) (kept-append name hs xs ys))
  ]

  -- A connection's own handlers are among them.
  kept-own :
      (name : Bytes) (hs xs : List (Handler Message))
      → ((i : ℕ) → is_among name i xs ≡ true → is_among name i hs ≡ true)
      → kept name hs (own name xs) ≡ []
  unfolding kept own is_among
  kept-own name hs [] sub = refl
  kept-own name hs (x ∷ xs) sub = elim (Bool-cases (beq x.method name)) [
    | inl same ↦
        rw (same, sub x.id (rw (same, eq_self x.id) refl))
          (kept-own name hs xs
            (λ i q. sub i (or_right (beq x.method name && i == x.id) (is_among name i xs) q)))
    | inr other ↦ rw other (
        kept-own name hs xs
          (λ i q. sub i (or_right (beq x.method name && i == x.id) (is_among name i xs) q)))
  ]

  pub AllBelow-kept :
      (name : Bytes) (n : ℕ) (hs xs : List (Handler Message))
      → AllBelow n xs
      → AllBelow n (kept name hs xs)
  unfolding kept AllBelow
  AllBelow-kept name n hs [] below = tt
  AllBelow-kept name n hs (x ∷ xs) (lt, below) = elim (Bool-cases (is_among name x.id hs)) [
    | inl among ↦ rw among (AllBelow-kept name n hs xs below)
    | inr safe ↦ rw safe (lt, AllBelow-kept name n hs xs below)
  ]

  -- What is left of older handlers and a connection's own, without the connection.
  pub kept-own_added :
      (name : Bytes) (n : ℕ) (hs xs : List (Handler Message))
      → AllFrom n hs
      → AllBelow n xs
      → kept name hs (xs ++ own name hs) ≡ xs
  kept-own_added name n hs xs from below =
      kept-append name hs xs (own name hs)
      ∙ rw (kept-AllBelow name n hs xs from below, kept-own name hs hs (λ i q. q)) (append-nil xs)
