-- ===== src/Mux/Picking.antt =====
-- The handler that `pickMethodHandler` of larking/mux.go picks.
use mathlib.Core.List.{Memᴰ}
use native.Mathlib.Nat.{mod-lt}
use larking.Base.{
  false, ℕ, zero, suc, ◌%◌, ◌≡◌, ◌<◌, Option, none, some, List, [], ◌∷◌, refl, Bytes, length,
  get_elem?, arith, ◌==◌, if◌then◌else◌,
}
use larking.Mux.Handlers.{Handler, State, handlers_of, pick_method_handler}

-- One of the handlers, unless there is none.
pub data Picks {Message : Type 0} (hs : List (Handler Message))
    : Option (Handler Message) → Type 0 where
  no_handler : hs ≡ [] → Picks hs none
  picks : {h : Handler Message} → Memᴰ h hs → Picks hs (some h)

get_elem?-Picks :
    {Message : Type 0} (hs : List (Handler Message)) (i : ℕ)
    → i < length hs
    → Picks hs (get_elem? hs i)
get_elem?-Picks [] i k = absurd (omega arith)
get_elem?-Picks (h ∷ hs) zero k = picks (Memᴰ.head refl)
get_elem?-Picks {Message} (h ∷ hs) (suc i) k = later (get_elem?-Picks hs i (omega arith)) k
  where
    later : {o : Option (Handler Message)} → Picks hs o → suc i < suc (length hs) → Picks (h ∷ hs) o
    later (no_handler e) j = absurd (ground arith)
    later (picks m) j = picks (Memᴰ.tail m)

-- A method that has handlers is served by one of them, whatever number is drawn, and only a method
-- that has none is unimplemented.
pub pick_method_handler-Picks :
    {Field Message : Type 0} (draw : ℕ) (name : Bytes) (s : State Field Message)
    → Picks (handlers_of name s.handlers) (pick_method_handler draw name (some s))
unfolding pick_method_handler
pick_method_handler-Picks {Message} draw name s = go (handlers_of name s.handlers)
  where
    go :
        (hs : List (Handler Message))
        → Picks hs (if length hs == 0 then none else get_elem? hs (draw % length hs))
    go [] = no_handler refl
    go (h ∷ hs) =
        let some_left : (suc (length hs) == 0) ≡ false = ground arith in
        rw some_left (get_elem?-Picks (h ∷ hs) (draw % suc (length hs)) (mod-lt draw (omega arith)))
