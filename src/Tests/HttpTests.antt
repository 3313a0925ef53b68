-- ===== src/Tests/HttpTests.antt =====
-- Runs of `serveHTTP` and `encError` of larking/http.go, and of the registration in larking/handler.go.
use mathlib.Core.List.{Memᴰ}
use larking.Base.{
  Bool, true, false, ℕ, [], ◌∷◌, ◌++◌, Option, some, none, ◌≡◌, ◌≢◌, refl, codes, Bytes, beq,
}
use larking.Base.Int.{pos}
use larking.Grpc.Headers.{Header}
use larking.Grpc.Serve.{Status}
use larking.Rules.Fields.{Method, split}
use larking.Rules.Add.{add_rule}
use larking.Mux.Options.{Codec, new_mux}
use larking.Mux.Selector.{Selector, selector, no_children, get_rules}
use larking.Mux.Handlers.{
  Handler, State, append_handler, pick_method_handler, clone_state, handlers_of, add_rules,
}
use larking.Mux.Register.{
  MethodDesc, ServiceDesc, Registered, registered, no_service, no_method, rule_refused, rule_bug,
  register_methods, register_service,
}
use larking.Mux.Serving.{register_service-picked}
use larking.Http.Errors.{enc_error, Writes, enc_error-Writes}
use larking.Http.Serve.{HttpRequest}
use larking.Tests.Settings.{latin, shelf, get_shelf, get_shelf_target, empty_tree, thousandths}
use larking.Tests.RuleTests.{tree_runs}
use larking.Tests.LexerTests.{runs}

abbrev no_name : ℕ → Bytes
no_name c = []

abbrev not_found_status : Status
not_found_status = record { code = 5; text = codes "no shelf"; details = none }

abbrev wants_json : Header
wants_json = (codes "Accept", codes "application/json" ∷ []) ∷ []

-- A marshaller of the messages of statuses.
abbrev status_text : Codec → Status → Option Bytes
status_text c s = some s.text

enc_error-Writes_example :
    Writes no_name status_text thousandths [] wants_json not_found_status
      (enc_error no_name status_text thousandths (new_mux [] []) wants_json not_found_status)
enc_error-Writes_example =
    enc_error-Writes no_name status_text thousandths [] [] wants_json not_found_status

abbrev shelf_handler : Handler Unit
shelf_handler = record {
  id = 1;
  method = codes "/Library/GetShelf";
  desc = codes "Library.GetShelf";
  input = tt;
}

abbrev pub shelf_state : State Bytes Unit
shelf_state = record {
  path = (add_rule shelf latin get_shelf_target get_shelf empty_tree).0;
  conns = [];
  handlers = (codes "/Library/GetShelf", shelf_handler ∷ []) ∷ [];
}

abbrev get_request : HttpRequest
get_request = record {
  method = codes "GET";
  path = codes "/v1/shelves/7";
  query = [];
  header = wants_json;
  content_length = pos 0;
}

abbrev unit_input : Method Bytes → Unit {0}
unit_input m = tt

abbrev pub no_rules : Selector
no_rules = selector no_children []

abbrev pub library : ServiceDesc
library = record {
  service_name = codes "Library";
  methods = codes "GetShelf" ∷ [];
  streams = codes "Watch" ∷ [];
}

abbrev find_method : Bytes → Option (MethodDesc Unit)
find_method m = some (record { full_name = codes "Library." ++ m; input = tt; annotation = none })

abbrev pub registry : Bytes → Option (Bytes → Option (MethodDesc Unit))
registry name = some find_method

abbrev library_registered : Registered Bytes Unit
library_registered = register_service shelf latin no_rules registry library 1 (some shelf_state)

abbrev state_of : Registered Bytes Unit → State Bytes Unit
state_of (registered s n) = s
state_of _ = shelf_state

abbrev next_of : Registered Bytes Unit → ℕ
next_of (registered s n) = n
next_of _ = 0

abbrev succeeds : Registered Bytes Unit → Bool
succeeds (registered s n) = true
succeeds _ = false

registered-state :
    (r : Registered Bytes Unit) → succeeds r ≡ true → r ≡ registered (state_of r) (next_of r)
registered-state (registered s n) e = refl
registered-state no_service e = cc
registered-state no_method e = cc
registered-state (rule_refused a) e = cc
registered-state (rule_bug a) e = cc

library_succeeds : succeeds library_registered ≡ true
unfolding tree_runs runs beq add_rule register_service register_methods append_handler add_rules
    handlers_of clone_state get_rules split
library_succeeds = refl

registers :
    library_registered ≡ registered (state_of library_registered) (next_of library_registered)
registers = registered-state library_registered library_succeeds

watch : Memᴰ (codes "Watch") (library.methods ++ library.streams)
watch = Memᴰ.tail (Memᴰ.head refl)

register_service-picked_example :
    pick_method_handler 4 (codes "/Library/Watch") (some (state_of library_registered)) ≢ none
register_service-picked_example =
    register_service-picked shelf latin no_rules registry library 1 (some shelf_state)
      (state_of library_registered) (next_of library_registered) registers (codes "Watch") watch 4

shelf_picked : pick_method_handler 4 (codes "/Library/GetShelf") (some shelf_state) ≢ none
unfolding pick_method_handler beq handlers_of
shelf_picked e = cc
