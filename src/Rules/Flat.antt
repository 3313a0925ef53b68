-- ===== src/Rules/Flat.antt =====
-- Variables that do not nest: how the loop of `addRule` in larking/rules.go reads one of them.
use larking.Base.{
  Bool, true, false, List, [], ◌∷◌, ◌++◌, ◌≡◌, refl, sym, ◌∙◌, append_assoc, if◌then◌else◌, Bytes,
}
use larking.Lexer.State.{slash, variable_start, variable_end, equal, same_type, Token}
use larking.Lexer.Grammar.{
  IsFieldPath, last_field, more_fields, IsSegments, last_segment, more_segments, IsSegment, a_star,
  a_star_star, a_literal, a_variable, a_pattern,
}
use larking.Rules.Fields.{Descriptors}
use larking.Rules.Scan.{
  at_segment, at_value, at_field, after_field, in_pattern, star_token, end_variable, scan,
}

-- No variable opens inside a variable; the flag says that one is open.
unfoldable pub is_flat : Bool → List Token → Bool
is_flat open_ [] = true
is_flat open_ (t ∷ ts) =
    if same_type t.typ variable_start
    then (if open_ then false else is_flat true ts)
    else if same_type t.typ variable_end
    then is_flat false ts
    else is_flat open_ ts

module _ (d : Descriptors) where
  open d use {Field, Message}

  is_flat-fields :
      {ts : List Token} (open_ : Bool) (rest : List Token)
      → IsFieldPath ts
      → is_flat open_ (ts ++ rest) ≡ is_flat open_ rest
  unfolding is_flat
  is_flat-fields open_ rest (last_field t e) = rw e
  is_flat-fields open_ rest (more_fields t p e f k) = rw (e, f) (is_flat-fields open_ rest k)

  -- The names of a field path are read in order.
  scan-fields :
      {ts : List Token} (m : Message) (keys : List Bytes) (rest : List Token)
      → IsFieldPath ts
      → (keys' : List Bytes) × (scan d m (at_field keys) (ts ++ rest)
          ≡ scan d m (after_field keys') rest)
  unfolding scan
  scan-fields m keys rest (last_field t e) = (keys ++ t.val ∷ [], refl)
  scan-fields m keys rest (more_fields t p {ts} e f k) =
      let (keys', same) = scan-fields m (keys ++ t.val ∷ []) rest k in (keys', rw f same)

  slash_step :
      (m : Message) (keys : List Bytes) (vars : List Token) (s : Token) (rest : List Token)
      → s.typ ≡ slash
      → scan d m (in_pattern keys vars) (s ∷ rest)
        ≡ scan d m (in_pattern keys (vars ++ s ∷ [])) rest
  unfolding scan
  slash_step m keys vars s rest e = rw e

  regroup :
      (m : Message) (keys : List Bytes) (vars ts : List Token) (s : Token) (us rest : List Token)
      → scan d m (in_pattern keys (((vars ++ ts) ++ s ∷ []) ++ us)) rest
        ≡ scan d m (in_pattern keys (vars ++ (ts ++ s ∷ us))) rest
  regroup m keys vars ts s us rest = simp append_assoc

  -- A pattern with no variable in it is collected whole.
  mutual
    unfolding scan is_flat

    pattern_segment :
        {ts : List Token} (m : Message) (keys : List Bytes) (vars rest : List Token)
        → IsSegment ts
        → is_flat true (ts ++ rest) ≡ true
        → (scan d m (in_pattern keys vars) (ts ++ rest)
            ≡ scan d m (in_pattern keys (vars ++ ts)) rest)
          × (is_flat true rest ≡ true)
    pattern_segment m keys vars rest (a_star t e) h = (rw e, rw e at h)
    pattern_segment m keys vars rest (a_star_star t e) h = (rw e, rw e at h)
    pattern_segment m keys vars rest (a_literal t e) h = (rw e, rw e at h)
    pattern_segment m keys vars rest (a_variable o c e k f) h = cc (rw e at h)
    pattern_segment m keys vars rest (a_pattern o q c e k f g i) h = cc (rw e at h)

    pattern_segments :
        {ts : List Token} (m : Message) (keys : List Bytes) (vars rest : List Token)
        → IsSegments ts
        → is_flat true (ts ++ rest) ≡ true
        → (scan d m (in_pattern keys vars) (ts ++ rest)
            ≡ scan d m (in_pattern keys (vars ++ ts)) rest)
          × (is_flat true rest ≡ true)
    pattern_segments m keys vars rest (last_segment g) h = pattern_segment m keys vars rest g h
    pattern_segments m keys vars rest (more_segments {ts} {us} s g e k) h =
        let (p, f) = pattern_segment m keys vars (s ∷ (us ++ rest)) g (rw append_assoc at h) in
        let (q, r) = pattern_segments m keys ((vars ++ ts) ++ s ∷ []) rest k (rw e at f) in
        (
          rw append_assoc (
              p
              ∙ slash_step m keys (vars ++ ts) s (us ++ rest) e
              ∙ q
              ∙ regroup m keys vars ts s us rest),
          r,
        )

  module _ (m : Message) where
    value_variable :
        (tok o : Token) (rest : List Token)
        → o.typ ≡ variable_start
        → scan d m (at_value tok) (o ∷ rest) ≡ scan d m (at_field []) rest
    unfolding scan
    value_variable tok o rest e = rw e

    field_close :
        (keys : List Bytes) (c : Token) (rest : List Token)
        → c.typ ≡ variable_end
        → scan d m (after_field keys) (c ∷ rest)
          ≡ end_variable d m keys (star_token ∷ []) (scan d m at_segment rest)
    unfolding scan
    field_close keys c rest e = rw e

    field_pattern :
        (keys : List Bytes) (q : Token) (rest : List Token)
        → q.typ ≡ equal
        → scan d m (after_field keys) (q ∷ rest) ≡ scan d m (in_pattern keys []) rest
    unfolding scan
    field_pattern keys q rest e = rw e

    pattern_close :
        (keys : List Bytes) (vars : List Token) (c : Token) (rest : List Token)
        → c.typ ≡ variable_end
        → scan d m (in_pattern keys vars) (c ∷ rest)
          ≡ end_variable d m keys vars (scan d m at_segment rest)
    unfolding scan
    pattern_close keys vars c rest e = rw e

  flat_open :
      (o : Token) (rest : List Token)
      → o.typ ≡ variable_start
      → is_flat false (o ∷ rest) ≡ true
      → is_flat true rest ≡ true
  unfolding is_flat
  flat_open o rest e h = rw e at h

  flat_close :
      (b : Bool) (c : Token) (rest : List Token)
      → c.typ ≡ variable_end
      → is_flat b (c ∷ rest) ≡ true
      → is_flat false rest ≡ true
  unfolding is_flat
  flat_close b c rest e h = rw e at h

  flat_equal :
      (b : Bool) (q : Token) (rest : List Token)
      → q.typ ≡ equal
      → is_flat b (q ∷ rest) ≡ true
      → is_flat b rest ≡ true
  unfolding is_flat
  flat_equal b q rest e h = rw e at h

  -- The loop is back at its test behind the variable.
  abbrev pub Closes : Message → Token → List Token → List Token → Type 0
  Closes m tok ts rest =
      (keys : List Bytes) × (toks : List Token) × (scan d m (at_value tok) ts
        ≡ end_variable d m keys toks (scan d m at_segment rest))
      × (is_flat false rest ≡ true)

  pub plain_variable :
      {ts : List Token} (m : Message) (tok o c : Token) (rest : List Token)
      → o.typ ≡ variable_start
      → IsFieldPath ts
      → c.typ ≡ variable_end
      → is_flat false (o ∷ (ts ++ (c ∷ rest))) ≡ true
      → Closes m tok (o ∷ (ts ++ (c ∷ rest))) rest
  plain_variable m tok o c rest e f g h =
      let (keys, p) = scan-fields m [] (c ∷ rest) f in
      (
        keys,
        star_token ∷ [],
        value_variable m tok o _ e ∙ p ∙ field_close m keys c rest g,
        flat_close true c rest g (sym (is_flat-fields true (c ∷ rest) f) ∙ flat_open o _ e h),
      )

  pub pattern_variable :
      {ts us : List Token} (m : Message) (tok o q c : Token) (rest : List Token)
      → o.typ ≡ variable_start
      → IsFieldPath ts
      → q.typ ≡ equal
      → IsSegments us
      → c.typ ≡ variable_end
      → is_flat false (o ∷ (ts ++ (q ∷ (us ++ (c ∷ rest))))) ≡ true
      → Closes m tok (o ∷ (ts ++ (q ∷ (us ++ (c ∷ rest))))) rest
  pattern_variable {us} m tok o q c rest e f g i j h =
      let tail = us ++ (c ∷ rest) in
      let (keys, p) = scan-fields m [] (q ∷ tail) f in
      let flat =
        flat_equal true q tail g (sym (is_flat-fields true (q ∷ tail) f) ∙ flat_open o _ e h) in
      let (r, flat') = pattern_segments m keys [] (c ∷ rest) i flat in
      (
        keys,
        us,
        value_variable m tok o _ e
            ∙ p
            ∙ field_pattern m keys q tail g
            ∙ r
            ∙ pattern_close m keys us c rest j,
        flat_close true c rest j flat',
      )
