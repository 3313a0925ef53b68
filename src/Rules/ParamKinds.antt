-- ===== src/Rules/ParamKinds.antt =====
-- What `parseParam` and `parseQueryParams` of larking/rules.go return.
use larking.Base.{
  ℕ, Bool, true, false, Option, none, some, List, [], ◌∷◌, ◌≡◌, refl, inl, inr, Bool-cases,
  Option-cases, Bytes, ◌&&◌, codes, beq, has_prefix, drop, has_prefix, if◌then◌else◌,
}
use larking.Base.Int.{ℤ, pos}
use larking.Rules.Fields.{Descriptors, split, field_path}
use larking.Rules.Params.{
  Kind, bool_kind, int32_kind, sint32_kind, sfixed32_kind, int64_kind, sint64_kind, sfixed64_kind,
  uint32_kind, fixed32_kind, uint64_kind, fixed64_kind, float_kind, double_kind, string_kind,
  bytes_kind, enum_kind, message_kind, group_kind, Decoders, named, well_known, ParamError,
  bad_json, bad_base64, unexpected_enum, bad_message, unknown_query, last_of, Value, value_bool,
  value_int32, value_int64, value_enum, value_uint32, value_uint64, value_float32, value_float64,
  value_string, value_bytes, value_message, Param, param, refused, decoded_as, is_null_value,
  parse_bytes, parse_enum, parse_message, parse_as, parse_param, Params, params, stopped,
  then_params, parse_all, parse_query_params,
}

module _ (d : Descriptors) (c : Decoders d) where
  open d use {Field, Message}
  open c use {kind, json_int32, unmarshal, enum_number, decode_base64, message_name}

  -- The Go type that protoreflect wants of a field of this kind.
  pub data Fits : Kind → Value d c → Type 0 where
    fits_bool : {b : Bool} → Fits bool_kind (value_bool b)
    fits_int32 : {x : ℤ} → Fits int32_kind (value_int32 x)
    fits_sint32 : {x : ℤ} → Fits sint32_kind (value_int32 x)
    fits_sfixed32 : {x : ℤ} → Fits sfixed32_kind (value_int32 x)
    fits_int64 : {x : ℤ} → Fits int64_kind (value_int64 x)
    fits_sint64 : {x : ℤ} → Fits sint64_kind (value_int64 x)
    fits_sfixed64 : {x : ℤ} → Fits sfixed64_kind (value_int64 x)
    fits_uint32 : {x : ℕ} → Fits uint32_kind (value_uint32 x)
    fits_fixed32 : {x : ℕ} → Fits fixed32_kind (value_uint32 x)
    fits_uint64 : {x : ℕ} → Fits uint64_kind (value_uint64 x)
    fits_fixed64 : {x : ℕ} → Fits fixed64_kind (value_uint64 x)
    fits_float : {x : c.Float32} → Fits float_kind (value_float32 x)
    fits_double : {x : c.Float64} → Fits double_kind (value_float64 x)
    fits_string : {s : Bytes} → Fits string_kind (value_string s)
    fits_bytes : {s : Bytes} → Fits bytes_kind (value_bytes s)
    fits_enum : {x : ℤ} → Fits enum_kind (value_enum x)
    fits_message : {m : c.Proto} → Fits message_kind (value_message m)

  -- A result of a path `fds` to a field of kind `k`: an error, or a value that fits, on the same path.
  pub data Parsed (k : Kind) (fds : List Field) : Param d c → Type 0 where
    parsed : {v : Value d c} → Fits k v → Parsed k fds (param v fds)
    not_parsed : {e : ParamError} → Parsed k fds (refused e)

  decoded_as-Parsed :
      {A : Type 0} {k : Kind} {fds : List Field} (value : A → Value d c) (e : ParamError)
      → ((x : A) → Fits k (value x))
      → (r : Option A) → Parsed k fds (decoded_as d c value e fds r)
  decoded_as-Parsed value e fits none = not_parsed
  decoded_as-Parsed value e fits (some x) = parsed (fits x)

  parse_enum-Parsed :
      (fds : List Field) (fd : Field) (raw : Bytes)
      → Parsed enum_kind fds (parse_enum d c fds fd raw)
  unfolding parse_enum
  parse_enum-Parsed fds fd raw = elim (Option-cases (json_int32 raw)) [
    | inr (x, e) ↦ rw (e, parse_enum) (parsed fits_enum)
    | inl e ↦ rw (e, parse_enum) (by_null (is_null_value d c fd && beq raw (codes "null")))
  ]
    where
      by_null :
          (b : Bool)
          → Parsed enum_kind fds (
              if b
              then param (value_enum (pos 0)) fds
              else decoded_as d c value_enum unexpected_enum fds (enum_number fd raw))
      by_null true = parsed fits_enum
      by_null false = decoded_as-Parsed value_enum unexpected_enum (λ x. fits_enum) _

  parse_message-Parsed :
      (fds : List Field) (name raw : Bytes)
      → Parsed message_kind fds (parse_message d c fds name raw)
  unfolding parse_message
  parse_message-Parsed fds name raw =
      elim (Bool-cases (has_prefix name (codes "google.protobuf."))) [
        | inl e ↦ elim (Option-cases (named (drop 16 name) well_known)) [
          | inl missing ↦ rw (e, missing, parse_message) not_parsed
          | inr (w, there) ↦
              rw (e, there, parse_message)
                (decoded_as-Parsed value_message bad_message (λ x. fits_message) _)
        ]
        | inr e ↦ rw (e, parse_message) not_parsed
      ]

  parse_as-Parsed :
      (k : Kind) (fds : List Field) (fd : Field) (raw : Bytes)
      → Parsed k fds (parse_as d c k fds fd raw)
  unfolding parse_as parse_bytes
  parse_as-Parsed bool_kind fds fd raw = decoded_as-Parsed value_bool bad_json (λ x. fits_bool) _
  parse_as-Parsed int32_kind fds fd raw = decoded_as-Parsed value_int32 bad_json (λ x. fits_int32) _
  parse_as-Parsed sint32_kind fds fd raw =
      decoded_as-Parsed value_int32 bad_json (λ x. fits_sint32) _
  parse_as-Parsed sfixed32_kind fds fd raw =
      decoded_as-Parsed value_int32 bad_json (λ x. fits_sfixed32) _
  parse_as-Parsed int64_kind fds fd raw = decoded_as-Parsed value_int64 bad_json (λ x. fits_int64) _
  parse_as-Parsed sint64_kind fds fd raw =
      decoded_as-Parsed value_int64 bad_json (λ x. fits_sint64) _
  parse_as-Parsed sfixed64_kind fds fd raw =
      decoded_as-Parsed value_int64 bad_json (λ x. fits_sfixed64) _
  parse_as-Parsed uint32_kind fds fd raw =
      decoded_as-Parsed value_uint32 bad_json (λ x. fits_uint32) _
  parse_as-Parsed fixed32_kind fds fd raw =
      decoded_as-Parsed value_uint32 bad_json (λ x. fits_fixed32) _
  parse_as-Parsed uint64_kind fds fd raw =
      decoded_as-Parsed value_uint64 bad_json (λ x. fits_uint64) _
  parse_as-Parsed fixed64_kind fds fd raw =
      decoded_as-Parsed value_uint64 bad_json (λ x. fits_fixed64) _
  parse_as-Parsed float_kind fds fd raw =
      decoded_as-Parsed value_float32 bad_json (λ x. fits_float) _
  parse_as-Parsed double_kind fds fd raw =
      decoded_as-Parsed value_float64 bad_json (λ x. fits_double) _
  parse_as-Parsed string_kind fds fd raw = parsed fits_string
  parse_as-Parsed bytes_kind fds fd raw =
      decoded_as-Parsed value_bytes bad_base64 (λ x. fits_bytes) _
  parse_as-Parsed enum_kind fds fd raw = parse_enum-Parsed fds fd raw
  parse_as-Parsed message_kind fds fd raw = parse_message-Parsed fds (message_name fd) raw
  parse_as-Parsed group_kind fds fd raw = not_parsed

-- A path of fields is parsed to an error, or to the same path with a value of the Go type that
-- protoreflect wants of the path's last field.
pub parse_param-Parsed :
    (d : Descriptors)
    → (c : Decoders d) → (fd : d.Field) → (fds : List d.Field) → (raw : Bytes)
    → Parsed d c (c.kind (last_of fd fds)) (fd ∷ fds) (parse_param d c (fd ∷ fds) raw)
unfolding parse_param
parse_param-Parsed d c fd fds raw = parse_as-Parsed d c _ _ _ _

module _ (d : Descriptors) (c : Decoders d) where
  open d use {Field, Message}

  -- The params of the query values: for each text of each key, in order, its value and the key's path.
  pub data Reads (m : Message)
      : List (Bytes × List Bytes) → List (Value d c × List Field) → Type 0 where
    reads_none : Reads m [] []
    reads_key :
        {key : Bytes} {fds : List Field} {values : List (Bytes × List Bytes)}
        {ps : List (Value d c × List Field)}
        → field_path d m (split 46 key) ≡ some fds
        → Reads m values ps
        → Reads m ((key, []) ∷ values) ps
    reads_text :
        {key raw : Bytes} {vs : List Bytes} {fds path : List Field} {v : Value d c}
        {values : List (Bytes × List Bytes)} {ps : List (Value d c × List Field)}
        → field_path d m (split 46 key) ≡ some fds
        → parse_param d c fds raw ≡ param v path
        → Reads m ((key, vs) ∷ values) ps
        → Reads m ((key, raw ∷ vs) ∷ values) ((v, path) ∷ ps)

  -- The first error of the query values: a key that names no path, or a text that is refused.
  pub data Fails (m : Message) : List (Bytes × List Bytes) → ParamError → Type 0 where
    fails_key :
        {key : Bytes} {vs : List Bytes} {values : List (Bytes × List Bytes)}
        → field_path d m (split 46 key) ≡ none
        → Fails m ((key, vs) ∷ values) unknown_query
    fails_text :
        {key raw : Bytes} {vs : List Bytes} {fds : List Field} {e : ParamError}
        {values : List (Bytes × List Bytes)}
        → field_path d m (split 46 key) ≡ some fds
        → parse_param d c fds raw ≡ refused e
        → Fails m ((key, raw ∷ vs) ∷ values) e
    fails_later_text :
        {key raw : Bytes} {vs : List Bytes} {fds path : List Field} {v : Value d c}
        {values : List (Bytes × List Bytes)} {e : ParamError}
        → field_path d m (split 46 key) ≡ some fds
        → parse_param d c fds raw ≡ param v path
        → Fails m ((key, vs) ∷ values) e
        → Fails m ((key, raw ∷ vs) ∷ values) e
    fails_later_key :
        {key : Bytes} {fds : List Field} {values : List (Bytes × List Bytes)} {e : ParamError}
        → field_path d m (split 46 key) ≡ some fds
        → Fails m values e
        → Fails m ((key, []) ∷ values) e

  pub data Answers (m : Message) (values : List (Bytes × List Bytes)) : Params d c → Type 0 where
    answers :
        {ps : List (Value d c × List Field)} → Reads m values ps → Answers m values (params ps)
    answers_error : {e : ParamError} → Fails m values e → Answers m values (stopped e)

  parse_all-Answers :
      {m : Message} {key : Bytes} {fds : List Field} (vs : List Bytes)
      {values : List (Bytes × List Bytes)} {others : Params d c}
      → field_path d m (split 46 key) ≡ some fds
      → Answers m values others
      → Answers m ((key, vs) ∷ values) (parse_all d c fds vs others)
  unfolding parse_all
  parse_all-Answers [] e (answers r) = answers (reads_key e r)
  parse_all-Answers [] e (answers_error r) = answers_error (fails_later_key e r)
  parse_all-Answers {m} {key} {fds} (raw ∷ vs) {values} e a =
      one (parse_param d c fds raw) refl (parse_all-Answers vs e a)
    where
      one :
          (p : Param d c)
          → parse_param d c fds raw ≡ p
          → {rest : Params d c} → Answers m ((key, vs) ∷ values) rest
          → Answers m ((key, raw ∷ vs) ∷ values) (then_params d c p rest)
      one (refused e') h b = answers_error (fails_text e h)
      one (param v path) h (answers r) = answers (reads_text e h r)
      one (param v path) h (answers_error r) = answers_error (fails_later_text e h r)

-- The query of a request gives one param for each text of each key, in their order: the value and
-- path that `parseParam` gives for the text at the path of fields that the key names. If a key names
-- no path or a text is refused, it gives the error of the first such key or text instead.
pub parse_query_params-Answers :
    (d : Descriptors)
    → (c : Decoders d) → (m : d.Message) → (values : List (Bytes × List Bytes))
    → Answers d c m values (parse_query_params d c m values)
unfolding parse_query_params
parse_query_params-Answers d c m [] = answers reads_none
parse_query_params-Answers d c m ((key, vs) ∷ values) =
    elim (Option-cases (field_path d m (split 46 key))) [
      | inl e ↦ rw (e, parse_query_params) (answers_error (fails_key e))
      | inr (fds, e) ↦
          rw (e, parse_query_params)
            (parse_all-Answers d c vs e (parse_query_params-Answers d c m values))
    ]
