-- ===== src/Rules/SetParams.antt =====
-- `params.set` of larking/rules.go. The reflection of package protoreflect is a parameter; a message that
-- `Mutable` returns is written back into the one around it.
use larking.Base.{Bool, true, Option, some, List, [], ◌∷◌, ◌++◌, ◌≡◌, if◌then◌else◌}

-- protoreflect.Message: its fields, the element that `Append` adds to a list, and the message that
-- a field holds; `is_message` says that a field is a single message, so that Message does not panic on
-- what `Mutable` returns.
pub record Reflect : Type 1 where
  pub Msg : Type 0
  pub Field : Type 0
  pub Value : Type 0
  pub is_list : Field → Bool
  pub is_map : Field → Bool
  pub is_message : Field → Bool
  pub set : Field → Value → Msg → Msg
  pub append : Field → Value → Msg → Msg
  pub get : Field → Msg → Option Value
  pub items : Field → Msg → List Value
  pub mutable : Field → Msg → Msg
  pub write_back : Field → Msg → Msg → Msg

-- What protoreflect documents: a field holds what was set, a list what it held and the new element, and
-- `Mutable` the message that was written to it, where it is a message.
pub record Laws (p : Reflect) : Type 0 where
  pub get-set : (f : p.Field) (v : p.Value) (m : p.Msg) → p.get f (p.set f v m) ≡ some v
  pub items-append :
      (f : p.Field) (v : p.Value) (m : p.Msg) → p.items f (p.append f v m) ≡ p.items f m ++ v ∷ []
  pub mutable-write_back :
      (f : p.Field) (sub m : p.Msg)
      → p.is_message f ≡ true
      → p.mutable f (p.write_back f sub m) ≡ sub

-- The message, and whether the error about maps was met; or the panic on a field that is no message but
-- has fields of its own behind it in a path.
pub data Params (Msg : Type 0) : Type 0 where
  params_set : Msg → Params Msg
  map_field : Msg → Params Msg
  mutable_panics : Params Msg

module _ (p : Reflect) where
  open p use {
    Msg, Field, Value, is_list, is_map, is_message, set, append, get, items, mutable, write_back,
  }

  -- The message around the one that was written.
  abbrev pub within : Field → Msg → Params Msg → Params Msg
  within fd m (params_set sub) = params_set (write_back fd sub m)
  within fd m (map_field sub) = map_field (write_back fd sub m)
  within fd m mutable_panics = mutable_panics

  unfoldable pub set_field : Field → Value → Msg → Params Msg
  set_field fd v m =
      if is_list fd
      then params_set (append fd v m)
      else if is_map fd
      then map_field m
      else params_set (set fd v m)

  -- The loop over the fields of a param.
  unfoldable pub set_param : List Field → Value → Msg → Params Msg
  unfolding set_field
  set_param [] v m = params_set m
  set_param (fd ∷ []) v m = set_field fd v m
  set_param (fd ∷ fd' ∷ fds) v m =
      let inner = set_param (fd' ∷ fds) v (mutable fd m) in
      if is_message fd then within fd m inner else mutable_panics

  abbrev pub then_set : Params Msg → (Msg → Params Msg) → Params Msg
  then_set (params_set m) f = f m
  then_set (map_field m) f = map_field m
  then_set mutable_panics f = mutable_panics

  unfoldable pub set_params : List (Value × List Field) → Msg → Params Msg
  unfolding set_param
  set_params [] m = params_set m
  set_params ((v, fds) ∷ ps) m = then_set (set_param fds v m) (set_params ps)

  -- The message that holds the last field of a path.
  unfoldable pub holder : List Field → Msg → Msg
  holder [] m = m
  holder (fd ∷ []) m = m
  holder (fd ∷ fd' ∷ fds) m = holder (fd' ∷ fds) (mutable fd m)
