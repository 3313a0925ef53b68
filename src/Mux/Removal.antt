-- ===== src/Mux/Removal.antt =====
-- What `removeHandler` of larking/mux.go leaves of the handlers of each method.
use larking.Base.{
  ℕ, Bool, true, false, ◌&&◌, ◌||◌, ◌⊎◌, Option, none, some, List, [], ◌∷◌, ◌≡◌, refl, sym, ap, ◌∙◌,
  ◌==◌, if◌then◌else◌, Bytes, beq, beq_iff, Bool-cases, Option-cases, inl, inr,
}
use larking.Rules.Tree.{lookup, insert}
use larking.Mux.Handlers.{
  Handler, State, remove_key, or_nil, handlers_of, without, find_conn, drop_handler, drop_handlers,
  remove_handler,
}

differs : (i j k : Bytes) → i ≡ k → beq i j ≡ false → beq j k ≡ false
differs i j k e other = elim (Bool-cases (beq j k)) [
  | inl same ↦ let both : beq i j ≡ true = (beq_iff i j).1 (e ∙ sym ((beq_iff j k).0 same)) in cc
  | inr h ↦ h
]

module _ {ℓ} {V : Type ℓ} where
  pub lookup-insert :
      (k j : Bytes) (v : V) (m : List (Bytes × V))
      → lookup k (insert j v m) ≡ (if beq j k then some v else lookup k m)
  unfolding lookup insert
  lookup-insert k j v [] = refl
  lookup-insert k j v ((i, w) ∷ m) = elim (Bool-cases (beq i j)) [
    | inl same ↦ rw same (elim (Bool-cases (beq j k)) [
      | inl e ↦ rw ((beq_iff i j).0 same, e) refl
      | inr e ↦ rw ((beq_iff i j).0 same, e) refl
    ])
    | inr other ↦ rw other (elim (Bool-cases (beq i k)) [
      | inl e ↦ rw e (by_key ((beq_iff i k).0 e) other)
      | inr e ↦ rw e (lookup-insert k j v m)
    ])
  ]
    where
      by_key : i ≡ k → beq i j ≡ false → some w ≡ (if beq j k then some v else some w)
      by_key e other = rw (differs i j k e other) refl

  lookup-remove_key :
      (k j : Bytes) (m : List (Bytes × V))
      → lookup k (remove_key j m) ≡ (if beq j k then none else lookup k m)
  unfolding lookup remove_key
  lookup-remove_key k j [] = elim (Bool-cases (beq j k)) [ inl e ↦ rw e refl | inr e ↦ rw e refl ]
  lookup-remove_key k j ((i, w) ∷ m) = elim (Bool-cases (beq i j)) [
    | inl same ↦ rw same (lookup-remove_key k j m ∙ rw ((beq_iff i j).0 same) (skipped (beq j k)))
    | inr other ↦ rw other (elim (Bool-cases (beq i k)) [
      | inl e ↦ rw (e, differs i j k ((beq_iff i k).0 e) other) refl
      | inr e ↦ rw e (lookup-remove_key k j m)
    ])
  ]
    where
      skipped :
          (b : Bool)
          → (if b then none else lookup k m)
            ≡ (if b then none else if b then some w else lookup k m)
      skipped true = refl
      skipped false = refl

module _ {Message : Type 0} where
  -- Is the number among those of the handlers of the method?
  unfoldable pub is_among : Bytes → ℕ → List (Handler Message) → Bool
  is_among name i [] = false
  is_among name i (hd ∷ hds) = (beq hd.method name && i == hd.id) || is_among name i hds

  -- The handlers of a method but for those that are dropped.
  unfoldable pub kept :
      Bytes → List (Handler Message) → List (Handler Message) → List (Handler Message)
  unfolding is_among
  kept name hds [] = []
  kept name hds (h ∷ hs) = if is_among name h.id hds then kept name hds hs else h ∷ kept name hds hs

  kept-nil : (name : Bytes) (hs : List (Handler Message)) → kept name [] hs ≡ hs
  unfolding kept
  kept-nil name [] = refl
  kept-nil name (h ∷ hs) = ap (λ t. h ∷ t) (kept-nil name hs)

  kept-without :
      (name : Bytes) (hd : Handler Message) (hds hs : List (Handler Message))
      → kept name (hd ∷ hds) hs
        ≡ kept name hds (if beq hd.method name then without hd.id hs else hs)
  unfolding kept without
  kept-without name hd hds hs = elim (Bool-cases (beq hd.method name)) [
    | inl e ↦ rw e (taken e hs)
    | inr e ↦ rw e (untaken e hs)
  ]
    where
      taken :
          beq hd.method name ≡ true
          → (hs : List (Handler Message))
          → kept name (hd ∷ hds) hs ≡ kept name hds (without hd.id hs)
      taken e [] = refl
      taken e (h ∷ hs) = elim (Bool-cases (h.id == hd.id)) [
        | inl same ↦ rw (e, same) (taken e hs)
        | inr other ↦ elim (Bool-cases (is_among name h.id hds)) [
          | inl among ↦ rw (e, other, kept, among) (taken e hs)
          | inr safe ↦ rw (e, other, kept, safe) (ap (λ t. h ∷ t) (taken e hs))
        ]
      ]

      untaken :
          beq hd.method name ≡ false
          → (hs : List (Handler Message)) → kept name (hd ∷ hds) hs ≡ kept name hds hs
      untaken e [] = refl
      untaken e (h ∷ hs) = elim (Bool-cases (is_among name h.id hds)) [
        | inl among ↦ rw (e, among) (untaken e hs)
        | inr safe ↦ rw (e, safe) (ap (λ t. h ∷ t) (untaken e hs))
      ]

module _ {Field Message : Type 0} where
  handlers_of-drop_handler :
      (name : Bytes) (s : State Field Message) (hd : Handler Message)
      → handlers_of name (drop_handler s hd).handlers ≡ (
          if beq hd.method name
          then without hd.id (handlers_of name s.handlers)
          else handlers_of name s.handlers)
  unfolding drop_handler handlers_of
  handlers_of-drop_handler name s hd =
      elim (emptied (without hd.id (handlers_of hd.method s.handlers))) [
        | inl none_left ↦
            rw (drop_handler, none_left)
              (ap or_nil (lookup-remove_key name hd.method s.handlers) ∙ chosen none none_left)
        | inr (h, hs, some_left) ↦
            rw (drop_handler, some_left)
              (ap or_nil (lookup-insert name hd.method (h ∷ hs) s.handlers)
                ∙ chosen (some (h ∷ hs)) some_left)
      ]
    where
      emptied :
          (hs : List (Handler Message))
          → (hs ≡ []) ⊎ ((h : Handler Message) × (rest : List (Handler Message)) × (hs ≡ h ∷ rest))
      emptied [] = inl refl
      emptied (h ∷ rest) = inr (h, rest, refl)

      chosen :
          (o : Option (List (Handler Message)))
          → without hd.id (handlers_of hd.method s.handlers) ≡ or_nil o
          → or_nil (if beq hd.method name then o else lookup name s.handlers) ≡ (
              if beq hd.method name
              then without hd.id (handlers_of name s.handlers)
              else handlers_of name s.handlers)
      chosen o left = elim (Bool-cases (beq hd.method name)) [
        | inl e ↦ rw e (
            sym left
            ∙ ap (λ n. without hd.id (handlers_of n s.handlers)) ((beq_iff hd.method name).0 e))
        | inr e ↦ rw e refl
      ]

  handlers_of-drop_handlers :
      (name : Bytes) (hds : List (Handler Message)) (s : State Field Message)
      → handlers_of name (drop_handlers s hds).handlers
        ≡ kept name hds (handlers_of name s.handlers)
  unfolding drop_handlers
  handlers_of-drop_handlers name [] s = sym (kept-nil name _)
  handlers_of-drop_handlers name (hd ∷ hds) s =
      handlers_of-drop_handlers name hds (drop_handler s hd)
      ∙ ap (kept name hds) (handlers_of-drop_handler name s hd)
      ∙ sym (kept-without name hd hds (handlers_of name s.handlers))

-- After a connection is removed, each method keeps its handlers in their order, but for those that
-- the connection had under that method; a connection that is not known changes no handler.
pub remove_handler_lem :
    {Field Message : Type 0} (conn : ℕ) (name : Bytes) (s : State Field Message)
    → handlers_of name (remove_handler conn s).0.handlers
      ≡ kept name (or_nil (find_conn conn s.conns)) (handlers_of name s.handlers)
unfolding remove_handler
remove_handler_lem conn name s = elim (Option-cases (find_conn conn s.conns)) [
  | inl e ↦ rw (remove_handler, e) (sym (kept-nil name _))
  | inr (hds, e) ↦ rw (remove_handler, e) (handlers_of-drop_handlers name hds s)
]
