-- ===== src/Tests/Settings.antt =====
-- Concrete parameters for the runs: small tables, descriptors, decoders and quality values.
use larking.Base.{
  ℕ, ◌+◌, ◌-◌, ◌*◌, ◌/◌, false, Option, none, some, [], ◌∷◌, ◌++◌, ltb, within, ◌==◌, if◌then◌else◌,
  Bytes, codes, beq,
}
use larking.Base.Int.{ℤ, pos}
use larking.Lexer.Rune.{Tables}
use larking.Rules.Fields.{Descriptors, HttpRule, get}
use larking.Rules.Tree.{Tree, node, no_segments, no_variables}
use larking.Rules.Add.{Target}
use larking.Rules.Params.{int32_kind, string_kind, Decoders}
use larking.Negotiate.Accept.{Floats}

-- No letter and no number above U+00FF.
abbrev pub latin : Tables
latin = record { letter = λ _. false; number = λ _. false }

-- One message, with the fields "name" and "size".
abbrev pub shelf : Descriptors
shelf = record {
  Field = Bytes;
  Message = Unit;
  by_json_name = λ m name. none;
  by_name = λ m name.
      if beq name (codes "name")
      then some name
      else if beq name (codes "size")
      then some name
      else none;
  message_of = λ fd. none;
}

abbrev digit_of : Bytes → Option ℕ
digit_of (c ∷ []) = if within b'0' b'9' c then some (c - b'0') else none
digit_of _ = none

abbrev int_of : Bytes → Option ℤ
int_of s = elim (digit_of s) [ some n ↦ some (pos n) | none ↦ none ]

-- "size" is an int32 of one digit, and "name" a string.
abbrev pub shelf_decoders : Decoders shelf
shelf_decoders = record {
  kind = λ fd. if beq fd (codes "size") then int32_kind else string_kind;
  enum_name = λ fd. none;
  enum_number = λ fd name. none;
  message_name = λ fd. [];
  Float32 = Unit;
  Float64 = Unit;
  Proto = Unit;
  json_bool = λ raw. none;
  json_int32 = int_of;
  json_int64 = int_of;
  json_uint32 = digit_of;
  json_uint64 = digit_of;
  json_float32 = λ raw. none;
  json_float64 = λ raw. none;
  decode_base64 = λ url padded raw. some raw;
  unmarshal = λ w raw. none;
  add_quotes = λ raw. b'"' ∷ (raw ++ (b'"' ∷ []));
}

-- Qualities in thousandths, from -1 on.
abbrev pub thousandths : Floats
thousandths = record {
  Float = ℕ;
  less = ltb;
  is_zero = λ q. q == 1000;
  zero_ = 1000;
  one = 2000;
  minus_one = 0;
  add_ratio = λ q n d. q + (n * 1000) / d;
}

abbrev pub get_shelf : HttpRule
get_shelf = record {
  selector = codes "Library.GetShelf";
  binding = record {
    pattern = get (codes "/v1/{name=shelves/*}");
    body = [];
    response_body = [];
    nested = false;
  };
  additional = [];
}

abbrev pub get_shelf_target : Target Unit
get_shelf_target = record {
  desc = codes "Library.GetShelf";
  input = tt;
  name = codes "/Library/GetShelf";
}

abbrev pub empty_tree : Tree Bytes
empty_tree = node no_segments [] none no_variables
