-- ===== src/Http/Serve.antt =====
-- `serveHTTP` of larking/http.go up to the call of the handler. The URL's query, the decoders of params,
-- the compressors' writers and the upgrade to a WebSocket are parameters or left out, as noted.
use larking.Base.{
  ℕ, zero, suc, Bool, true, false, Option, none, some, List, [], ◌∷◌, ◌++◌, Bytes, codes, beq,
  if◌then◌else◌,
}
use larking.Base.Int.{ℤ, pos, negsuc}
use larking.Lexer.Rune.{Tables}
use larking.Rules.Fields.{Descriptors, Method}
use larking.Rules.Tree.{lookup}
use larking.Rules.Search.{SearchError, Fault, Found, found, missed, panics, match}
use larking.Rules.Params.{
  Decoders, Value, Param, param, refused, ParamError, params, stopped, parse_param,
  parse_query_params,
}
use larking.Negotiate.Accept.{Floats}
use larking.Negotiate.Choose.{negotiate_content_type, negotiate_content_encoding}
use larking.Mux.Options.{Compressor, MuxOptions}
use larking.Mux.Handlers.{Handler, State, pick_method_handler}
use larking.Grpc.Headers.{Header}
use larking.Grpc.Serve.{get_header}
use larking.Http.Errors.{values_of, json_type}

-- A header has "websocket" among its values of Upgrade.
unfoldable pub any_websocket : List Bytes → Bool
any_websocket [] = false
any_websocket (h ∷ hs) =
    let later = any_websocket hs in if beq h (codes "websocket") then true else later

unfoldable pub is_websocket_request : Header → Bool
unfolding any_websocket values_of
is_websocket_request h = any_websocket (values_of (codes "Upgrade") h)

pub record HttpRequest : Type 0 where
  pub method : Bytes
  pub path : Bytes
  pub query : List (Bytes × List Bytes)
  pub header : Header
  pub content_length : ℤ

abbrev pub kind_websocket : Bytes
kind_websocket = codes "WEBSOCKET"

-- r.ContentLength > 0 || r.ContentLength == -1
unfoldable pub has_body : ℤ → Bool
has_body (pos zero) = false
has_body (pos (suc n)) = true
has_body (negsuc zero) = true
has_body (negsuc (suc n)) = false

unfoldable pub or_json : Bytes → Bytes
or_json [] = json_type
or_json (c ∷ t) = c ∷ t

-- m.opts.compressors[encoding], which is nil where it is missing.
unfoldable pub compressor_of : Bytes → List (Bytes × Option Compressor) → Option Compressor
unfolding lookup
compressor_of encoding m = elim (lookup encoding m) [ none ↦ none | some z ↦ z ]

module _ (d : Descriptors) (e : Decoders d) (u : Tables) (f : Floats) (opts : MuxOptions)
    (input_of : Method d.Field → d.Message) where
  open d use {Field, Message}

  abbrev pub value_or : Param d e → Option (Value d e)
  value_or (param v fds) = some v
  value_or (refused x) = none

  -- `params`: of the path first, then of the query. A value is `none` where the path has no field.
  abbrev pub AllParams : Type 0
  AllParams = List (Option (Value d e) × List Field)

  abbrev pub with_query : List (Value d e × List Field) → AllParams
  with_query [] = []
  with_query ((v, fds) ∷ ps) = (some v, fds) ∷ with_query ps

  -- What is handed to the handler's stream. Both compressors are nil where none is installed; the
  -- response's header "Content-Encoding" is set where that of the response is not nil.
  pub record HttpCall : Type 0 where
    pub handler : Handler Message
    pub method : Method Field
    pub all_params : AllParams
    pub content_type : Bytes
    pub accept : Bytes
    pub accept_encoding : Bytes
    pub decompressor : Option Compressor
    pub compressor : Option Compressor
    pub has_body : Bool

  pub data HttpServed : Type 0 where
    no_match : SearchError → HttpServed
    match_panics : Fault → HttpServed
    bad_query : ParamError → HttpServed
    unimplemented : HttpServed
    by_websocket : Handler Message → Method Field → AllParams → HttpServed
    by_http : HttpCall → HttpServed

  -- The params of a request's method, and its handler.
  unfoldable pub call_of : HttpRequest → Handler Message → Method Field → AllParams → HttpCall
  unfolding get_header values_of or_json compressor_of has_body negotiate_content_type
      negotiate_content_encoding
  call_of r hd m ps =
      let content_type = or_json (get_header (codes "Content-Type") r.header) in
      let accept_encoding =
        negotiate_content_encoding f (values_of (codes "Accept-Encoding") r.header)
          opts.encoding_type_offers in
      record {
        handler = hd;
        method = m;
        all_params = ps;
        content_type = content_type;
        accept =
            negotiate_content_type f (values_of (codes "Accept") r.header) opts.content_type_offers
              content_type;
        accept_encoding = accept_encoding;
        decompressor =
            compressor_of (get_header (codes "Content-Encoding") r.header) opts.compressors;
        compressor = compressor_of accept_encoding opts.compressors;
        has_body = has_body r.content_length;
      }

  unfoldable pub serve_method :
      ℕ → Option (State Field Message) → HttpRequest → Method Field → AllParams → HttpServed
  unfolding pick_method_handler call_of is_websocket_request
  serve_method draw s r m ps = elim (pick_method_handler draw m.name s) [
    | none ↦ unimplemented
    | some hd ↦
        if is_websocket_request r.header then by_websocket hd m ps else by_http (call_of r hd m ps)
  ]

  unfoldable pub serve_found :
      ℕ → Option (State Field Message) → HttpRequest → Found Field (Value d e) → HttpServed
  unfolding parse_query_params serve_method
  serve_found draw s r (missed x) = no_match x
  serve_found draw s r (panics x) = match_panics x
  serve_found draw s r (found m ps) = elim (parse_query_params d e (input_of m) r.query) [
    | stopped x ↦ bad_query x
    | params qs ↦ serve_method draw s r m (ps ++ with_query qs)
  ]

  -- `serveHTTP` on a state that is stored.
  unfoldable pub serve_http : ℕ → State Field Message → HttpRequest → HttpServed
  unfolding serve_found match is_websocket_request parse_param
  serve_http draw s r =
      let verb = if is_websocket_request r.header then kind_websocket else r.method in
      serve_found draw (some s) r
        (match u (λ fds v. value_or (parse_param d e fds v)) s.path r.path verb)
