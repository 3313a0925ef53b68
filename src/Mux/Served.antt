-- ===== src/Mux/Served.antt =====
-- The methods that have a handler to pick, in larking/mux.go and larking/handler.go.
use mathlib.Core.List.{Memᴰ}
use larking.Base.{
  ℕ, true, Option, none, some, List, [], ◌∷◌, ◌++◌, ◌≡◌, ◌≢◌, ◌⊎◌, refl, Bytes, beq, Bool-cases,
  inl, inr,
}
use larking.Rules.Tree.{insert}
use larking.Mux.Handlers.{
  Handler, State, Appended, appended, refused, bug, handlers_of, pick_method_handler,
}
use larking.Mux.Removal.{lookup-insert}
use larking.Mux.Picking.{Picks, no_handler, picks, pick_method_handler-Picks}
use larking.Mux.Register.{Registered, registered, no_service, no_method, rule_refused, rule_bug}

pub appended-nonempty : {A : Type 0} (xs : List A) (x : A) → (xs ++ x ∷ []) ≢ []
appended-nonempty [] x = λ e. cc
appended-nonempty (y ∷ ys) x = λ e. cc

-- A write of more handlers.
pub put-served :
    {M : Type 0} (h : Handler M) (m : List (Bytes × List (Handler M))) (n : Bytes)
    → (beq h.method n ≡ true) ⊎ (handlers_of n m ≢ [])
    → handlers_of n (insert h.method (handlers_of h.method m ++ h ∷ []) m) ≢ []
unfolding handlers_of
put-served h m n k =
    rw (lookup-insert n h.method (handlers_of h.method m ++ h ∷ []) m)
      (elim (Bool-cases (beq h.method n)) [
        | inl same ↦ rw same (appended-nonempty (handlers_of h.method m) h)
        | inr other ↦ rw other (elim k [ inl e ↦ cc | inr q ↦ q ])
      ])

pub mem-append : (x : Bytes) (xs ys : List Bytes) → Memᴰ x (xs ++ ys) → Memᴰ x xs ⊎ Memᴰ x ys
mem-append x [] ys i = inr i
mem-append x (y ∷ xs) ys (Memᴰ.head e) = inl (Memᴰ.head e)
mem-append x (y ∷ xs) ys (Memᴰ.tail i) = elim (mem-append x xs ys i) [
  | inl j ↦ inl (Memᴰ.tail j)
  | inr j ↦ inr j
]

module _ {F M : Type 0} where
  -- A method with a handler.
  abbrev pub IsServed : Bytes → State F M → Type 0
  IsServed name s = handlers_of name s.handlers ≢ []

  -- What is served stays so, and the method of the handler is served.
  abbrev pub Puts : Bytes → State F M → Appended F M → Type 0
  Puts m s (appended s') = ((n : Bytes) → IsServed n s → IsServed n s') × IsServed m s'
  Puts m s (refused a) = Unit
  Puts m s (bug a) = Unit

  -- What holds of the state, if the registration succeeds.
  abbrev pub Outcome : (State F M → Type 0) → Registered F M → Type 0
  Outcome P (registered s n) = P s
  Outcome P no_service = Unit
  Outcome P no_method = Unit
  Outcome P (rule_refused a) = Unit
  Outcome P (rule_bug a) = Unit

  pub map-Outcome :
      {P Q : State F M → Type 0}
      → ((s : State F M) → P s → Q s)
      → (r : Registered F M) → Outcome P r
      → Outcome Q r
  map-Outcome h (registered s n) p = h s p
  map-Outcome h no_service p = p
  map-Outcome h no_method p = p
  map-Outcome h (rule_refused a) p = p
  map-Outcome h (rule_bug a) p = p

  pub of-Outcome :
      (P : State F M → Type 0) (r : Registered F M) (s : State F M) (n : ℕ)
      → r ≡ registered s n
      → Outcome P r
      → P s
  of-Outcome P r s n e p = rw e at p

  pub IsServed-picked :
      (draw : ℕ) (n : Bytes) (s : State F M)
      → IsServed n s
      → pick_method_handler draw n (some s) ≢ none
  IsServed-picked draw n s q = go (pick_method_handler-Picks draw n s)
    where
      go : {o : Option (Handler M)} → Picks (handlers_of n s.handlers) o → o ≢ none
      go (no_handler e) = λ _. q e
      go (picks i) = λ e. cc

  pub picked-IsServed :
      (draw : ℕ) (n : Bytes) (s : State F M)
      → pick_method_handler draw n (some s) ≢ none
      → IsServed n s
  picked-IsServed draw n s q e =
      q (go (handlers_of n s.handlers) e (pick_method_handler-Picks draw n s))
    where
      go : {o : Option (Handler M)} (hs : List (Handler M)) → hs ≡ [] → Picks hs o → o ≡ none
      go hs e' (no_handler k) = refl
      go [] e' (picks i) = elim i [ ]
      go (h ∷ hs) e' (picks i) = cc
