-- ===== src/Tests/RuleTests.antt =====
-- Runs of the rules of larking/rules.go.
use larking.Base.{List, [], ◌∷◌, Option, some, true, false, beq, ◌≡◌, ◌≢◌, refl, codes, Bytes}
use larking.Lexer.State.{ok, err, Token}
use larking.Lexer.Route.{lex_path}
use larking.Rules.Fields.{HttpRule, get, field_path, find_field, split, Method}
use larking.Rules.Tree.{
  Tree, lookup, insert, find_variable, add_path, add_variable, append_variable, insert_variable,
  sort_variables, less,
}
use larking.Rules.Scan.{scan, at_segment, invalid, end_variable}
use larking.Rules.Add.{
  add_rule, add_binding, add_bindings, add_scanned, at_end, register, walk, store_method, body_of,
  resp_of, verb_of,
}
use larking.Rules.Search.{
  panics, slice_range, found, search, index, index_from, add_param, end_round,
}
use larking.Rules.Nesting.{scan-lex_template}
use larking.Rules.Flat.{is_flat}
use larking.Rules.Depth.{HasDepth, Sized}
use larking.Rules.Reach.{IsReachable, at_first, by_add, search-IsReachable}
use larking.Rules.DepthAdd.{add_rule-HasDepth}
use larking.Rules.Params.{parse_param, last_of}
use larking.Rules.ParamKinds.{Parsed, parse_param-Parsed}
use larking.Tests.Settings.{latin, shelf, shelf_decoders, get_shelf, get_shelf_target, empty_tree}
use larking.Tests.LexerTests.{shelf_template, shelf_lexer, shelf_lexes, runs}

shelf-IsFlat : is_flat false shelf_lexer.toks ≡ true
unfolding runs is_flat
shelf-IsFlat = refl

scan-lex_template_example : (scan shelf tt at_segment shelf_lexer.toks).ending ≢ invalid
scan-lex_template_example =
    scan-lex_template shelf latin tt shelf_template shelf_lexer shelf_lexes shelf-IsFlat

abbrev shelf_tree : Tree Bytes
shelf_tree = (add_rule shelf latin get_shelf_target get_shelf empty_tree).0

empty-HasDepth : HasDepth 0 empty_tree
unfolding HasDepth
empty-HasDepth = (tt, tt, tt, tt)

add_rule-HasDepth_example : HasDepth 0 shelf_tree
add_rule-HasDepth_example =
    add_rule-HasDepth shelf latin get_shelf_target get_shelf empty_tree empty-HasDepth

abbrev keep : List Bytes → Bytes → Option Bytes
keep fds s = some s

abbrev shelf_path : List Token
shelf_path = elim (lex_path latin (codes "/v1/shelves/7")) [ ok l ↦ l.toks | err e l ↦ [] ]

abbrev shelf_method : Method Bytes
shelf_method = record {
  desc = codes "Library.GetShelf";
  name = codes "/Library/GetShelf";
  body = [];
  vars = (codes "name" ∷ []) ∷ [];
  resp = [];
  has_body = false;
}

abbrev shelf_params : List (Option Bytes × List Bytes)
shelf_params = (some (codes "shelves/7"), codes "name" ∷ []) ∷ []

unfoldable pub tree_runs : Unit {0}
unfolding runs beq add_rule add_binding add_bindings scan end_variable add_scanned at_end register
    walk store_method body_of resp_of verb_of lookup insert find_variable add_path add_variable
    append_variable insert_variable sort_variables less search index index_from add_param end_round
    field_path find_field split
tree_runs = tt

-- A path is routed to the method, and the text of the variable is its param.
shelf_found : search keep (codes "GET") shelf_tree shelf_path ≡ found shelf_method shelf_params
unfolding tree_runs beq
shelf_found = refl

abbrev deep_shelf : HttpRule
deep_shelf = record get_shelf {
  binding = record {
    pattern = get (codes "/v1/{name=aa/bb/**}:read");
    body = [];
    response_body = [];
    nested = false;
  };
}

abbrev deep_tree : Tree Bytes
deep_tree = (add_rule shelf latin get_shelf_target deep_shelf empty_tree).0

abbrev deep_path : List Token
deep_path = elim (lex_path latin (codes "/v1/aa/bb/cc:read")) [ ok l ↦ l.toks | err e l ↦ [] ]

-- The end of `**` is looked for from the first of its tokens, and its place added to one behind the
-- literals: the capture goes past the path.
deep_capture : search keep (codes "GET") deep_tree deep_path ≡ panics slice_range
unfolding tree_runs beq
deep_capture = refl

shelf-IsReachable : IsReachable shelf latin shelf_tree
shelf-IsReachable = by_add get_shelf_target get_shelf at_first

search-IsReachable_example : Sized 0 (search keep (codes "GET") shelf_tree shelf_path)
search-IsReachable_example =
    search-IsReachable shelf latin Bytes keep (codes "GET") shelf_tree shelf_path shelf-IsReachable

parse_param-Parsed_example :
    Parsed shelf shelf_decoders
      (shelf_decoders.kind (last_of (codes "size") []))
      (codes "size" ∷ [])
      (parse_param shelf shelf_decoders (codes "size" ∷ []) (codes "7"))
parse_param-Parsed_example = parse_param-Parsed shelf shelf_decoders (codes "size") [] (codes "7")

abbrev shelf_query : List (Bytes × List Bytes)
shelf_query = (codes "name", codes "a" ∷ codes "b" ∷ []) ∷ (codes "size", codes "7" ∷ []) ∷ []
