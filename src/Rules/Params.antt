-- ===== src/Rules/Params.antt =====
-- `quote`, `parseParam`, `isNullValue` and `parseQueryParams` of larking/rules.go. The decoders of
-- packages json, base64 and protojson are a parameter.
use larking.Base.{
  ℕ, ◌%◌, Bool, true, false, not, ◌&&◌, ◌||◌, Option, none, some, List, [], ◌∷◌, ◌==◌,
  if◌then◌else◌, Bytes, codes, length, drop, beq, has_prefix,
}
use larking.Base.Int.{ℤ, pos}
use larking.Rules.Fields.{Descriptors, split, field_path}

-- protoreflect.Kind
pub data Kind : Type 0 where
  bool_kind : Kind
  int32_kind sint32_kind sfixed32_kind : Kind
  int64_kind sint64_kind sfixed64_kind : Kind
  uint32_kind fixed32_kind : Kind
  uint64_kind fixed64_kind : Kind
  float_kind double_kind : Kind
  string_kind bytes_kind : Kind
  enum_kind message_kind group_kind : Kind

-- The messages of package google.protobuf that JSON scalars are decoded to.
pub data WellKnown : Type 0 where
  timestamp duration bool_value int32_value int64_value uint32_value uint64_value : WellKnown
  float_value double_value bytes_value string_value field_mask : WellKnown

-- The properties of a field that `parseParam` reads, and the decoders that it calls. An enum's name is
-- `none` where the field has no enum.
pub record Decoders (d : Descriptors) : Type 1 where
  pub kind : d.Field → Kind
  pub enum_name : d.Field → Option Bytes
  pub enum_number : d.Field → Bytes → Option ℤ
  pub message_name : d.Field → Bytes
  pub Float32 : Type 0
  pub Float64 : Type 0
  pub Proto : Type 0
  pub json_bool : Bytes → Option Bool
  pub json_int32 : Bytes → Option ℤ
  pub json_int64 : Bytes → Option ℤ
  pub json_uint32 : Bytes → Option ℕ
  pub json_uint64 : Bytes → Option ℕ
  pub json_float32 : Bytes → Option Float32
  pub json_float64 : Bytes → Option Float64
  -- the URL alphabet, the padding and the text
  pub decode_base64 : Bool → Bool → Bytes → Option Bytes
  -- protojson.Unmarshal
  pub unmarshal : WellKnown → Bytes → Option Proto
  -- strconv.AppendQuote
  pub add_quotes : Bytes → Bytes

-- bytes.ContainsAny(raw, "-_")
unfoldable pub has_url_digit : Bytes → Bool
has_url_digit [] = false
has_url_digit (c ∷ s) = (c == 45 || c == 95) || has_url_digit s

unfoldable pub named : Bytes → List (Bytes × WellKnown) → Option WellKnown
named s [] = none
named s ((name, w) ∷ rest) = if beq s name then some w else named s rest

abbrev pub well_known : List (Bytes × WellKnown)
well_known =
    (codes "Timestamp", timestamp)
    ∷ (codes "Duration", duration)
    ∷ (codes "BoolValue", bool_value)
    ∷ (codes "Int32Value", int32_value)
    ∷ (codes "Int64Value", int64_value)
    ∷ (codes "UInt32Value", uint32_value)
    ∷ (codes "UInt64Value", uint64_value)
    ∷ (codes "FloatValue", float_value)
    ∷ (codes "DoubleValue", double_value)
    ∷ (codes "BytesValue", bytes_value)
    ∷ (codes "StringValue", string_value)
    ∷ (codes "FieldMask", field_mask)
    ∷ []

-- The types whose text is quoted before it is decoded.
unfoldable pub is_quoted : WellKnown → Bool
is_quoted timestamp = true
is_quoted duration = true
is_quoted bool_value = false
is_quoted int32_value = false
is_quoted int64_value = false
is_quoted uint32_value = false
is_quoted uint64_value = false
is_quoted float_value = false
is_quoted double_value = false
is_quoted bytes_value = true
is_quoted string_value = true
is_quoted field_mask = true

pub data ParamError : Type 0 where
  zero_field bad_json bad_base64 unexpected_enum bad_message : ParamError
  unexpected_message unknown_kind unknown_query : ParamError

-- fds[len(fds)-1]
unfoldable pub last_of : {A : Type 0} → A → List A → A
last_of a [] = a
last_of a (b ∷ bs) = last_of b bs

module _ (d : Descriptors) (c : Decoders d) where
  open d use {Field, Message}
  open c use {
    kind, enum_name, enum_number, message_name, Float32, Float64, Proto, json_bool, json_int32,
    json_int64, json_uint32, json_uint64, json_float32, json_float64, decode_base64, unmarshal,
    add_quotes,
  }

  -- protoreflect.Value
  pub data Value : Type 0 where
    value_bool : Bool → Value
    value_int32 value_int64 value_enum : ℤ → Value
    value_uint32 value_uint64 : ℕ → Value
    value_float32 : Float32 → Value
    value_float64 : Float64 → Value
    value_string value_bytes : Bytes → Value
    value_message : Proto → Value

  pub data Param : Type 0 where
    param : Value → List Field → Param
    refused : ParamError → Param

  unfoldable pub quote : Bytes → Bytes
  quote [] = []
  quote (b ∷ raw) =
      if not (b == 34) || not (last_of b raw == 34) then add_quotes (b ∷ raw) else b ∷ raw

  abbrev pub decoded_as : {A : Type 0} → (A → Value) → ParamError → List Field → Option A → Param
  decoded_as value e fds (some x) = param (value x) fds
  decoded_as value e fds none = refused e

  unfoldable pub is_null_value : Field → Bool
  is_null_value fd = elim (enum_name fd) [
    | some name ↦ beq name (codes "google.protobuf.NullValue")
    | none ↦ false
  ]

  unfoldable pub parse_bytes : List Field → Bytes → Param
  parse_bytes fds raw =
      decoded_as value_bytes bad_base64 fds
        (decode_base64 (has_url_digit raw) (length raw % 4 == 0) raw)

  unfoldable pub parse_enum : List Field → Field → Bytes → Param
  parse_enum fds fd raw = elim (json_int32 raw) [
    | some x ↦ param (value_enum x) fds
    | none ↦
        if is_null_value fd && beq raw (codes "null")
        then param (value_enum (pos 0)) fds
        else decoded_as value_enum unexpected_enum fds (enum_number fd raw)
  ]

  unfoldable pub parse_message : List Field → Bytes → Bytes → Param
  parse_message fds name raw =
      if has_prefix name (codes "google.protobuf.")
      then (elim (named (drop 16 name) well_known) [
        | none ↦ refused unexpected_message
        | some w ↦
            decoded_as value_message bad_message fds
              (unmarshal w (if is_quoted w then quote raw else raw))
      ])
      else refused unexpected_message

  unfoldable pub parse_as : Kind → List Field → Field → Bytes → Param
  parse_as bool_kind fds fd raw = decoded_as value_bool bad_json fds (json_bool raw)
  parse_as int32_kind fds fd raw = decoded_as value_int32 bad_json fds (json_int32 raw)
  parse_as sint32_kind fds fd raw = decoded_as value_int32 bad_json fds (json_int32 raw)
  parse_as sfixed32_kind fds fd raw = decoded_as value_int32 bad_json fds (json_int32 raw)
  parse_as int64_kind fds fd raw = decoded_as value_int64 bad_json fds (json_int64 raw)
  parse_as sint64_kind fds fd raw = decoded_as value_int64 bad_json fds (json_int64 raw)
  parse_as sfixed64_kind fds fd raw = decoded_as value_int64 bad_json fds (json_int64 raw)
  parse_as uint32_kind fds fd raw = decoded_as value_uint32 bad_json fds (json_uint32 raw)
  parse_as fixed32_kind fds fd raw = decoded_as value_uint32 bad_json fds (json_uint32 raw)
  parse_as uint64_kind fds fd raw = decoded_as value_uint64 bad_json fds (json_uint64 raw)
  parse_as fixed64_kind fds fd raw = decoded_as value_uint64 bad_json fds (json_uint64 raw)
  parse_as float_kind fds fd raw = decoded_as value_float32 bad_json fds (json_float32 raw)
  parse_as double_kind fds fd raw = decoded_as value_float64 bad_json fds (json_float64 raw)
  parse_as string_kind fds fd raw = param (value_string raw) fds
  parse_as bytes_kind fds fd raw = parse_bytes fds raw
  parse_as enum_kind fds fd raw = parse_enum fds fd raw
  parse_as message_kind fds fd raw = parse_message fds (message_name fd) raw
  parse_as group_kind fds fd raw = refused unknown_kind

  unfoldable pub parse_param : List Field → Bytes → Param
  parse_param [] raw = refused zero_field
  parse_param (fd ∷ fds) raw = parse_as (kind (last_of fd fds)) (fd ∷ fds) (last_of fd fds) raw

  pub data Params : Type 0 where
    params : List (Value × List Field) → Params
    stopped : ParamError → Params

  -- One text parsed, and the params of the texts to come.
  abbrev pub then_params : Param → Params → Params
  then_params (refused e) others = stopped e
  then_params (param v fds) (stopped e) = stopped e
  then_params (param v fds) (params ps) = params ((v, fds) ∷ ps)

  unfoldable pub parse_all : List Field → List Bytes → Params → Params
  unfolding parse_param
  parse_all fds [] others = others
  parse_all fds (v ∷ vs) others = then_params (parse_param fds v) (parse_all fds vs others)

  -- `parseQueryParams` on the values in the order in which the map is ranged over.
  unfoldable pub parse_query_params : Message → List (Bytes × List Bytes) → Params
  unfolding parse_all
  parse_query_params m [] = params []
  parse_query_params m ((key, vs) ∷ values) = elim (field_path d m (split 46 key)) [
    | none ↦ stopped unknown_query
    | some fds ↦ parse_all fds vs (parse_query_params m values)
  ]
