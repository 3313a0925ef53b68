-- ===== src/Server/Patterns.antt =====
-- The patterns of a server of larking/server.go are given once.
use larking.Base.{
  ℕ, Bool, true, Option, none, some, List, [], ◌∷◌, ◌++◌, ◌≡◌, ◌≢◌, refl, Bytes, Option-cases, inl,
  inr,
}
use larking.Server.{
  ServeMuxes, ServerResult, server, nil_mux, duplicate_patterns, configure_error, handle_panics,
  ◌>>=◌, handled, ServerOptions, ServerOption, tls_creds_option, mux_handle_option,
  http_handler_option, or_new, apply, apply_all, other_handler, new_server, no_options,
}

-- No server and no options come of it.
abbrev pub Fails : {A : Type 0} → ServerResult A → Type 0
Fails (server a) = ⊥
Fails nil_mux = Unit
Fails duplicate_patterns = Unit
Fails configure_error = Unit
Fails handle_panics = Unit

bind-Fails :
    {A B : Type 0} (r : ServerResult A) (f : A → ServerResult B)
    → ((a : A) → r ≡ server a → Fails (f a))
    → Fails (r >>= f)
bind-Fails (server a) f h = h a refl
bind-Fails nil_mux f h = tt
bind-Fails duplicate_patterns f h = tt
bind-Fails configure_error f h = tt
bind-Fails handle_panics f h = tt

module _ (p : ServeMuxes) where
  -- Patterns were given.
  abbrev HasPatterns : ServerOptions p → Type 0
  HasPatterns o = o.mux_patterns ≢ none

  abbrev KeepsPatterns : ServerResult (ServerOptions p) → Type 0
  KeepsPatterns (server o) = HasPatterns o
  KeepsPatterns nil_mux = Unit
  KeepsPatterns duplicate_patterns = Unit
  KeepsPatterns configure_error = Unit
  KeepsPatterns handle_panics = Unit

  apply-KeepsPatterns :
      (x : ServerOption p) (o : ServerOptions p) → HasPatterns o → KeepsPatterns (apply p x o)
  unfolding apply
  apply-KeepsPatterns (tls_creds_option c) o h = h
  apply-KeepsPatterns (mux_handle_option patterns) o h = elim (Option-cases o.mux_patterns) [
    | inl e ↦ absurd (h e)
    | inr (old, e) ↦ rw e tt
  ]
  apply-KeepsPatterns (http_handler_option pattern n) o h =
      go (p.handle pattern (other_handler n) (or_new p o.serve_mux))
    where
      go :
          (m : Option p.ServeMux)
          → KeepsPatterns (handled m >>= λ m'. server (record o { serve_mux = some m' }))
      go none = tt
      go (some m) = h

  apply-Fails :
      (patterns : Option (List Bytes)) (o : ServerOptions p)
      → HasPatterns o
      → Fails (apply p (mux_handle_option patterns) o)
  unfolding apply
  apply-Fails patterns o h = elim (Option-cases o.mux_patterns) [
    | inl e ↦ absurd (h e)
    | inr (old, e) ↦ rw e tt
  ]

  later-Fails :
      (xs ys : List (ServerOption p)) (patterns : Option (List Bytes)) (o : ServerOptions p)
      → HasPatterns o
      → Fails (apply_all p (xs ++ mux_handle_option patterns ∷ ys) o)
  unfolding apply_all
  later-Fails [] ys patterns o h =
      bind-Fails (apply p (mux_handle_option patterns) o) _
        (λ a e. absurd (rw e at (apply-Fails patterns o h)))
  later-Fails (x ∷ xs) ys patterns o h =
      bind-Fails (apply p x o) _
        (λ a e. later-Fails xs ys patterns a (rw e at (apply-KeepsPatterns x o h)))

  given-KeepsPatterns :
      (patterns : List Bytes) (o : ServerOptions p)
      → KeepsPatterns (apply p (mux_handle_option (some patterns)) o)
  unfolding apply
  given-KeepsPatterns patterns o = elim (Option-cases o.mux_patterns) [
    | inl e ↦ rw e (λ k. cc)
    | inr (old, e) ↦ rw e tt
  ]

  twice-Fails :
      (ws xs ys : List (ServerOption p)) (patterns : List Bytes) (again : Option (List Bytes))
      (o : ServerOptions p)
      → Fails (
          apply_all p
            (ws ++ mux_handle_option (some patterns) ∷ (xs ++ mux_handle_option again ∷ ys))
            o)
  unfolding apply_all
  twice-Fails [] xs ys patterns again o =
      bind-Fails (apply p (mux_handle_option (some patterns)) o) _
        (λ a e. later-Fails xs ys again a (rw e at (given-KeepsPatterns patterns o)))
  twice-Fails (w ∷ ws) xs ys patterns again o =
      bind-Fails (apply p w o) _ (λ a e. twice-Fails ws xs ys patterns again a)

  -- `NewServer` returns no server where its options give patterns twice, whatever options stand before,
  -- between and behind them.
  pub new_server-Fails :
      (configure : Option ℕ → Bool) (ws xs ys : List (ServerOption p)) (patterns : List Bytes)
      (again : Option (List Bytes))
      → Fails (
          new_server p configure true
            (ws ++ mux_handle_option (some patterns) ∷ (xs ++ mux_handle_option again ∷ ys)))
  unfolding new_server
  new_server-Fails configure ws xs ys patterns again =
      bind-Fails
        (apply_all p
          (ws ++ mux_handle_option (some patterns) ∷ (xs ++ mux_handle_option again ∷ ys))
          (no_options p))
        _ (λ a e. absurd (rw e at (twice-Fails ws xs ys patterns again (no_options p))))
