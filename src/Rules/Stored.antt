-- ===== src/Rules/Stored.antt =====
-- Where `params.set` of larking/rules.go stores a value.
use larking.Base.{true, false, some, List, [], ◌∷◌, ◌++◌, ◌≡◌}
use larking.Rules.Params.{last_of}
use larking.Rules.SetParams.{Reflect, Laws, Params, params_set, map_field, mutable_panics, holder}

module _ (p : Reflect) (laws : Laws p) where
  open p use {
    Msg, Field, Value, is_list, is_map, is_message, set, append, get, items, mutable, write_back,
  }

  -- Every field of the path but the last is a single message.
  abbrev pub IsNested : Field → List Field → Type 0
  IsNested fd [] = Unit
  IsNested fd (fd' ∷ fds) = (is_message fd ≡ true) × IsNested fd' fds

  -- The field at the end of the path holds the value, or is a list with the value behind what it held, or
  -- is a map and the param is refused; or a field before the end is no message, and the call panics.
  pub data Stored (fd : Field) (fds : List Field) (v : Value) (m : Msg) : Params Msg → Type 0 where
    holds :
        {m' : Msg}
        → IsNested fd fds
        → is_list (last_of fd fds) ≡ false
        → get (last_of fd fds) (holder p (fd ∷ fds) m') ≡ some v
        → Stored fd fds v m (params_set m')
    appends :
        {m' : Msg}
        → IsNested fd fds
        → is_list (last_of fd fds) ≡ true
        → items (last_of fd fds) (holder p (fd ∷ fds) m')
          ≡ items (last_of fd fds) (holder p (fd ∷ fds) m) ++ v ∷ []
        → Stored fd fds v m (params_set m')
    refuses :
        {m' : Msg}
        → IsNested fd fds
        → is_list (last_of fd fds) ≡ false
        → is_map (last_of fd fds) ≡ true
        → Stored fd fds v m (map_field m')
    fails : ¬ IsNested fd fds → Stored fd fds v m mutable_panics

  -- What is stored of the last param of all, unless one before it was refused.
  abbrev pub LastStored : Field → List Field → Value → Params Msg → Params Msg → Type 0
  LastStored fd fds v (params_set m) r = Stored fd fds v m r
  LastStored fd fds v (map_field m) r = r ≡ map_field m
  LastStored fd fds v mutable_panics r = r ≡ mutable_panics
