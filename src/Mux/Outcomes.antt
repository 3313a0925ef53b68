-- ===== src/Mux/Outcomes.antt =====
-- What holds of the outcomes of `addConnHandler` in larking/mux.go.
use larking.Base.{Option, none, some, ◌≡◌}
use larking.Mux.Connect.{Outcome, done, unread, bad_rule, bad_implicit_rule, ◌>>=◌, read}

-- What holds of the value, if there is one.
abbrev pub Holds : {A : Type 0} → (A → Type 0) → Outcome A → Type 0
Holds P (done a) = P a
Holds P unread = Unit
Holds P (bad_rule e) = Unit
Holds P (bad_implicit_rule e) = Unit

pub bind-Holds :
    {A B : Type 0} {P : A → Type 0} (Q : B → Type 0) (r : Outcome A) (f : A → Outcome B)
    → Holds P r
    → ((a : A) → P a → Holds Q (f a))
    → Holds Q (r >>= f)
bind-Holds Q (done a) f p k = k a p
bind-Holds Q unread f p k = tt
bind-Holds Q (bad_rule e) f p k = tt
bind-Holds Q (bad_implicit_rule e) f p k = tt

pub read-Holds : {A : Type 0} (o : Option A) → Holds (λ _. Unit) (read o)
read-Holds none = tt
read-Holds (some a) = tt

pub of_done : {A : Type 0} (P : A → Type 0) (r : Outcome A) (a : A) → r ≡ done a → Holds P r → P a
of_done P r a e h = rw e at h
