-- ===== src/Tests/ProxyTests.antt =====
-- Runs of the handlers and the registration of connections in larking/mux.go.
use larking.Base.{ℕ, Bool, true, false, none, some, [], ◌∷◌, ◌++◌, ◌≡◌, refl, codes, Bytes, beq}
use larking.Rules.Fields.{split}
use larking.Rules.Add.{add_rule, nil_method}
use larking.Mux.Selector.{get_rules}
use larking.Mux.Handlers.{
  State, append_handler, handlers_of, add_rules, remove_handler, find_conn, clone_state,
}
use larking.Mux.Register.{MethodDesc, register_service, register_methods, store_registered}
use larking.Mux.Reflection.{
  Reflection, Question, Answer, list_services, file_containing, file_by_name, read_all_services,
  read_services, read_files,
}
use larking.Mux.Connect.{
  Outcome, done, unread, bad_rule, bad_implicit_rule, register_conn, add_conn_handler, add_read,
  rebuild, process_files, process_file, process_methods, process_method, create_conn_handler,
}
use larking.Mux.History.{
  History, after_service, new_history, Past, start, then_step, registers,
  register_conn-remove_handler,
}
use larking.Mux.Proxy.Forward.{
  eof, first, opens, first_sent, in_recv, in_recv_fails, in_send, out_recv, out_recv_fails,
  out_send, returns_joined, returned, in_done, Call, Streaming, new_call, Reach, here, next,
}
use larking.Mux.Proxy.Invariant.{IsQuiet}
use larking.Mux.Proxy.InOrder.{InOrder, Reach-InOrder, returned-IsQuiet}
use larking.Tests.Settings.{latin, shelf}
use larking.Tests.RuleTests.{tree_runs}
use larking.Tests.LexerTests.{runs}
use larking.Tests.HttpTests.{shelf_state, no_rules, registry, library}

abbrev both_ways : Streaming
both_ways = record { client = true; server = true }

-- Two messages pass, one reply comes in between, then both streams end.
abbrev served_call : Call ℕ ℕ
served_call = record {
  in_pc = in_done eof;
  out_pc = returned none;
  got = 1 ∷ 2 ∷ [];
  passed = 1 ∷ 2 ∷ [];
  came = 7 ∷ [];
  answered = 7 ∷ [];
  trailer = true;
}

served : Reach both_ways new_call served_call
served =
    next
      (next
        (next
          (next
            (next
              (next
                (next
                  (next (next (next here (first 1 refl refl)) (opens 1 refl refl))
                    (first_sent 1 refl refl))
                  (in_recv 2 refl))
                (out_recv 7 refl))
              (in_send 2 refl))
            (out_send 7 refl))
          (in_recv_fails eof refl))
        (out_recv_fails eof refl))
      (returns_joined (some eof) eof refl refl refl refl refl)

Reach-InOrder_example : InOrder both_ways served_call
Reach-InOrder_example = Reach-InOrder both_ways served_call served

returned-IsQuiet_example : (served_call.trailer ≡ true) × IsQuiet served_call.in_pc
returned-IsQuiet_example = returned-IsQuiet both_ways served_call served refl

-- A connection with one service of one method.
abbrev answers : Bytes → Question → Answer
answers service list_services = record { services = service ∷ []; files = [] }
answers service (file_containing symbol) = record { services = []; files = service ∷ [] }
answers service (file_by_name path) = record { services = []; files = [] }

abbrev method_of : Bytes → MethodDesc Unit
method_of full_name = record { full_name = full_name; input = tt; annotation = none }

abbrev reflection_of : Bytes → Bytes → Reflection Unit
reflection_of service method = record {
  Stream = Unit;
  FileProto = Bytes;
  File = Bytes;
  ask = λ q s. some (answers service q, s);
  parse = λ b. some b;
  name = λ fd. fd;
  file_path = λ f. f;
  services_of = λ f. (service, (method, method_of (service ++ codes "." ++ method)) ∷ []) ∷ [];
  known = some [];
  register = λ path f fs. some ((path, f) ∷ fs);
  new_file = λ fd (fs, s). some (fd, fs, s);
  order = λ fds. fds;
  sum = λ b. b;
}

abbrev shop_reflection : Reflection Unit
shop_reflection = reflection_of (codes "Shop") (codes "Buy")

-- A service is registered, then the connection.
abbrev history : History Bytes Unit
history =
    after_service (register_service shelf latin no_rules registry library 0 none)
      (new_history shelf latin no_rules shop_reflection)

reached : Past shelf latin no_rules shop_reflection history
reached = then_step start (registers registry library)

abbrev connected : Outcome (State Bytes Unit × ℕ)
connected = register_conn shelf latin no_rules shop_reflection 5 tt history.state history.next

abbrev result_of : Outcome (State Bytes Unit × ℕ) → State Bytes Unit × ℕ
result_of (done x) = x
result_of _ = (shelf_state, 0)

abbrev is_done : Outcome (State Bytes Unit × ℕ) → Bool
is_done (done x) = true
is_done _ = false

done-result_of : (r : Outcome (State Bytes Unit × ℕ)) → is_done r ≡ true → r ≡ done (result_of r)
done-result_of (done x) e = refl
done-result_of unread e = cc
done-result_of (bad_rule a) e = cc
done-result_of (bad_implicit_rule a) e = cc

connects : is_done connected ≡ true
unfolding tree_runs runs beq add_rule append_handler add_rules handlers_of get_rules split
    register_service register_methods clone_state store_registered register_conn add_conn_handler
    add_read rebuild process_files process_file process_methods process_method create_conn_handler
    read_all_services read_services read_files remove_handler find_conn
connects = refl

register_conn-remove_handler_example :
    handlers_of (codes "/Shop/Buy") (remove_handler 5 (result_of connected).0).0.handlers
    ≡ handlers_of (codes "/Shop/Buy") (remove_handler 5 (clone_state history.state)).0.handlers
register_conn-remove_handler_example =
    register_conn-remove_handler shelf latin no_rules shop_reflection history reached 5 tt
      (result_of connected).0 (result_of connected).1 (done-result_of connected connects)
      (codes "/Shop/Buy")

-- A connection with a method that the mux has already: the implicit rule of the method panics.
abbrev is_panic : Outcome (State Bytes Unit × ℕ) → Bool
is_panic (bad_implicit_rule nil_method) = true
is_panic _ = false

shared_method_panics :
    is_panic (
      register_conn shelf latin no_rules
        (reflection_of (codes "Library") (codes "GetShelf"))
        5
        tt
        history.state
        history.next)
    ≡ true
unfolding tree_runs runs beq add_rule append_handler add_rules handlers_of get_rules split
    register_service register_methods clone_state store_registered register_conn add_conn_handler
    add_read rebuild process_files process_file process_methods process_method create_conn_handler
    read_all_services read_services read_files remove_handler find_conn
shared_method_panics = refl
