-- ===== src/Http/Served.antt =====
-- The handler and the types that `serveHTTP` of larking/http.go serves a request with.
use mathlib.Core.List.{Memᴰ}
use larking.Base.{List, [], Bytes, true, false, codes, ◌++◌, ◌≡◌}
use larking.Lexer.Rune.{Tables}
use larking.Rules.Fields.{Descriptors, Method}
use larking.Rules.Search.{SearchError, Fault, Found, found, missed, panics, match}
use larking.Rules.Params.{
  Decoders, Value, ParamError, Params, params, stopped, parse_query_params, parse_param,
}
use larking.Negotiate.Accept.{Floats, parse_accept}
use larking.Negotiate.Chosen.{TypeAnswer}
use larking.Mux.Options.{MuxOptions}
use larking.Mux.Handlers.{Handler, State, handlers_of}
use larking.Http.Errors.{values_of}
use larking.Http.Serve.{
  HttpRequest, HttpCall, HttpServed, no_match, match_panics, bad_query, unimplemented, by_websocket,
  by_http, is_websocket_request, with_query, value_or, AllParams,
}

module _ (d : Descriptors) (e : Decoders d) (u : Tables) (f : Floats) (opts : MuxOptions)
    (input_of : Method d.Field → d.Message) where
  open d use {Field, Message}

  -- The verb that a request asks for: its method, or that of WebSockets on an upgrade.
  pub data Asks (r : HttpRequest) : Bytes → Type 0 where
    plain : is_websocket_request r.header ≡ false → Asks r r.method
    upgrade : is_websocket_request r.header ≡ true → Asks r (codes "WEBSOCKET")

  abbrev matched : State Field Message → HttpRequest → Bytes → Found Field (Value d e)
  matched s r verb =
      match u (λ fds v. value_or d e u f opts input_of (parse_param d e fds v)) s.path r.path verb

  abbrev query_of : HttpRequest → Method Field → Params d e
  query_of r m = parse_query_params d e (input_of m) r.query

  -- The method is the one that the path and the verb match, its params are those of the path and then of
  -- the query, and its handler is one of the method's; a response over plain HTTP is of the call's own
  -- content type or of one that the request accepts. An error is that of the first of these steps that has one.
  pub data Serves (s : State Field Message) (r : HttpRequest)
      : HttpServed d e u f opts input_of → Type 0 where
    serves_http :
        {c : HttpCall d e u f opts input_of} {ps : AllParams d e u f opts input_of}
        {qs : List (Value d e × List Field)}
        → is_websocket_request r.header ≡ false
        → matched s r r.method ≡ found c.method ps
        → query_of r c.method ≡ params qs
        → c.all_params ≡ ps ++ with_query d e u f opts input_of qs
        → Memᴰ c.handler (handlers_of c.method.name s.handlers)
        → TypeAnswer f
            (parse_accept f (values_of (codes "Accept") r.header))
            opts.content_type_offers
            c.content_type
            c.accept
        → Serves s r (by_http c)
    serves_websocket :
        {hd : Handler Message} {m : Method Field} {ps : AllParams d e u f opts input_of}
        {qs : List (Value d e × List Field)}
        → is_websocket_request r.header ≡ true
        → matched s r (codes "WEBSOCKET") ≡ found m ps
        → query_of r m ≡ params qs
        → Memᴰ hd (handlers_of m.name s.handlers)
        → Serves s r (by_websocket hd m (ps ++ with_query d e u f opts input_of qs))
    serves_none :
        {verb : Bytes} {m : Method Field} {ps : AllParams d e u f opts input_of}
        {qs : List (Value d e × List Field)}
        → Asks r verb
        → matched s r verb ≡ found m ps
        → query_of r m ≡ params qs
        → handlers_of m.name s.handlers ≡ []
        → Serves s r unimplemented
    serves_error :
        {verb : Bytes} {x : SearchError}
        → Asks r verb
        → matched s r verb ≡ missed x
        → Serves s r (no_match x)
    serves_panic :
        {verb : Bytes} {x : Fault}
        → Asks r verb
        → matched s r verb ≡ panics x
        → Serves s r (match_panics x)
    serves_bad_query :
        {verb : Bytes} {m : Method Field} {ps : AllParams d e u f opts input_of} {x : ParamError}
        → Asks r verb
        → matched s r verb ≡ found m ps
        → query_of r m ≡ stopped x
        → Serves s r (bad_query x)
