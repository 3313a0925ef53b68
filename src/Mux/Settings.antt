-- ===== src/Mux/Settings.antt =====
-- The options of a mux in larking/mux.go, and `NewMux` on them. Handlers of statistics, interceptors and
-- registries are their numbers.
use larking.Base.{ℕ, Option, none, some, List, [], ◌∷◌, Bytes}
use larking.Base.Int.{ℤ, pos}
use larking.Rules.Fields.{HttpRule}
use larking.Rules.Tree.{insert}
use larking.Mux.Selector.{Selector, empty_selector, set_rules}
use larking.Mux.Options.{Codec, Compressor, MuxOptions, new_mux}

-- A registry of package protoregistry.
pub data Registry : Type 0 where
  global : Registry
  own : ℕ → Registry

-- `muxOptions`, but for what `NewMux` computes; the connection's timeout is in nanoseconds.
pub record Settings : Type 0 where
  pub types : Registry
  pub files : Registry
  pub stats_handler : Option ℕ
  pub max_receive_message_size : ℤ
  pub max_send_message_size : ℤ
  pub connection_timeout : ℤ
  pub codecs : List (Bytes × Codec)
  pub compressors : List (Bytes × Option Compressor)
  pub service_config : Option (List HttpRule)
  pub http_rules : Selector
  pub unary_interceptor : Option ℕ
  pub stream_interceptor : Option ℕ

abbrev pub default_mux_options : Settings
default_mux_options = record {
  types = global;
  files = global;
  stats_handler = none;
  max_receive_message_size = pos 4194304;
  max_send_message_size = pos 2147483647;
  connection_timeout = pos 120000000000;
  codecs = [];
  compressors = [];
  service_config = none;
  http_rules = empty_selector;
  unary_interceptor = none;
  stream_interceptor = none;
}

pub data MuxOption : Type 0 where
  unary_server_interceptor_option : Option ℕ → MuxOption
  stream_server_interceptor_option : Option ℕ → MuxOption
  stats_option : Option ℕ → MuxOption
  max_receive_message_size_option : ℤ → MuxOption
  max_send_message_size_option : ℤ → MuxOption
  connection_timeout_option : ℤ → MuxOption
  types_option : Registry → MuxOption
  files_option : Registry → MuxOption
  codec_option : Bytes → Codec → MuxOption
  compressor_option : Bytes → Option Compressor → MuxOption
  service_config_option : List HttpRule → MuxOption

-- A call of an option; `none` is the panic of `setRules`.
unfoldable pub apply : MuxOption → Settings → Option Settings
unfolding insert set_rules
apply (unary_server_interceptor_option i) s = some (record s { unary_interceptor = i })
apply (stream_server_interceptor_option i) s = some (record s { stream_interceptor = i })
apply (stats_option h) s = some (record s { stats_handler = h })
apply (max_receive_message_size_option n) s = some (record s { max_receive_message_size = n })
apply (max_send_message_size_option n) s = some (record s { max_send_message_size = n })
apply (connection_timeout_option d) s = some (record s { connection_timeout = d })
apply (types_option t) s = some (record s { types = t })
apply (files_option f) s = some (record s { files = f })
apply (codec_option content_type c) s = some (record s { codecs = insert content_type c s.codecs })
apply (compressor_option content_encoding c) s =
    some (record s { compressors = insert content_encoding c s.compressors })
apply (service_config_option rules) s = elim (set_rules empty_selector rules) [
  | none ↦ none
  | some chosen ↦ some (record s { service_config = some rules; http_rules = chosen })
]

-- The options in their order.
unfoldable pub apply_all : List MuxOption → Settings → Option Settings
unfolding apply
apply_all [] s = some s
apply_all (o ∷ os) s = elim (apply o s) [ none ↦ none | some s' ↦ apply_all os s' ]

-- `NewMux`: the settings, and the codecs, compressors and offers that it makes of them.
unfoldable pub new_mux_of : List MuxOption → Option (Settings × MuxOptions)
unfolding apply_all new_mux
new_mux_of options = elim (apply_all options default_mux_options) [
  | none ↦ none
  | some s ↦ some (s, new_mux s.codecs s.compressors)
]

module _ {A B : Type 0} where
  -- `muxOptions.unary` and `muxOptions.stream`: a call through the interceptor, if there is one.
  unfoldable pub intercepted : Option ((A → B) → A → B) → (A → B) → A → B
  intercepted none handler a = handler a
  intercepted (some i) handler a = i handler a
