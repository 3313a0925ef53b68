-- ===== src/Server.antt =====
-- `NewServer` of larking/server.go and its options. The type ServeMux of package net/http and
-- http2.ConfigureServer are parameters; TLS settings and handlers of other packages are their numbers.
pub mod Patterns
use larking.Base.{
  ℕ, Bool, true, false, Option, none, some, List, [], ◌∷◌, ◌++◌, ◌==◌, if◌then◌else◌, Bytes, codes,
}

-- What a pattern is served by: a handler of another package, the mux, or the mux behind StripPrefix.
pub data HttpHandler : Type 0 where
  other_handler : ℕ → HttpHandler
  mux : HttpHandler
  strip_prefix : Bytes → HttpHandler

-- http.ServeMux; `handle` is `none` where it panics.
pub record ServeMuxes : Type 1 where
  pub ServeMux : Type 0
  pub new_serve_mux : ServeMux
  pub handle : Bytes → HttpHandler → ServeMux → Option ServeMux

-- What NewServer ends with.
pub data ServerResult (A : Type 0) : Type 0 where
  server : A → ServerResult A
  nil_mux duplicate_patterns configure_error : ServerResult A
  handle_panics : ServerResult A

infixl 5 ◌>>=◌
abbrev pub ◌>>=◌ : {A B : Type 0} → ServerResult A → (A → ServerResult B) → ServerResult B
server a >>= f = f a
nil_mux >>= f = nil_mux
duplicate_patterns >>= f = duplicate_patterns
configure_error >>= f = configure_error
handle_panics >>= f = handle_panics

abbrev pub handled : {A : Type 0} → Option A → ServerResult A
handled none = handle_panics
handled (some a) = server a

-- strings.TrimSuffix(pattern, "/")
unfoldable pub trim_slash : Bytes → Bytes
trim_slash [] = []
trim_slash (c ∷ []) = if c == b'/' then [] else c ∷ []
trim_slash (c ∷ c' ∷ t) = c ∷ trim_slash (c' ∷ t)

module _ (p : ServeMuxes) where
  open p use {ServeMux, new_serve_mux, handle}

  pub record ServerOptions : Type 0 where
    pub tls_config : Option ℕ
    pub serve_mux : Option ServeMux
    pub mux_patterns : Option (List Bytes)

  pub data ServerOption : Type 0 where
    tls_creds_option : Option ℕ → ServerOption
    mux_handle_option : Option (List Bytes) → ServerOption
    http_handler_option : Bytes → ℕ → ServerOption

  abbrev pub or_new : Option ServeMux → ServeMux
  or_new none = new_serve_mux
  or_new (some h) = h

  abbrev pub set_patterns :
      Option (List Bytes) → Option (List Bytes) → ServerOptions → ServerResult ServerOptions
  set_patterns none patterns o = server (record o { mux_patterns = patterns })
  set_patterns (some old) patterns o = duplicate_patterns

  unfoldable pub apply : ServerOption → ServerOptions → ServerResult ServerOptions
  apply (tls_creds_option c) o = server (record o { tls_config = c })
  apply (mux_handle_option patterns) o = set_patterns o.mux_patterns patterns o
  apply (http_handler_option pattern h) o = do
    m ← handled (handle pattern (other_handler h) (or_new o.serve_mux))
    server (record o { serve_mux = some m })

  unfoldable pub apply_all : List ServerOption → ServerOptions → ServerResult ServerOptions
  unfolding apply
  apply_all [] o = server o
  apply_all (x ∷ xs) o = apply x o >>= λ o'. apply_all xs o'

  -- The pattern and the handler of a prefix.
  unfoldable pub served_at : Bytes → Bytes × HttpHandler
  served_at [] = (codes "/", mux)
  served_at (c ∷ t) = ((c ∷ t) ++ codes "/", strip_prefix (c ∷ t))

  unfoldable pub register : List Bytes → ServeMux → ServerResult ServeMux
  unfolding served_at trim_slash
  register [] m = server m
  register (pattern ∷ patterns) m = do
    let at = served_at (trim_slash pattern)
    m' ← handled (handle at.0 at.1 m)
    register patterns m'

  -- len(muxPatterns) == 0
  abbrev pub or_root : Option (List Bytes) → List Bytes
  or_root none = codes "/" ∷ []
  or_root (some []) = codes "/" ∷ []
  or_root (some (x ∷ xs)) = x ∷ xs

  abbrev pub no_options : ServerOptions
  no_options = record { tls_config = none; serve_mux = none; mux_patterns = none }

  -- `NewServer`: the handler and the TLS settings of the server. `configure` is whether
  -- http2.ConfigureServer returns no error.
  unfoldable pub new_server :
      (Option ℕ → Bool) → Bool → List ServerOption → ServerResult (ServeMux × Option ℕ)
  unfolding apply_all register
  new_server configure false options = nil_mux
  new_server configure true options = do
    o ← apply_all options no_options
    m ← register (or_root o.mux_patterns) (or_new o.serve_mux)
    if configure o.tls_config then server (m, o.tls_config) else configure_error
