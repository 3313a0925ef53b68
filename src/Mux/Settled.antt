-- ===== src/Mux/Settled.antt =====
-- A codec that is given to `NewMux` of larking/mux.go is the one that the mux uses.
use larking.Base.{
  false, Option, none, some, List, [], ◌∷◌, ◌++◌, ◌≡◌, refl, ◌∙◌, Bytes, beq, beq_self, beq_iff,
  Bool-cases, Option-cases, inl, inr,
}
use larking.Rules.Tree.{lookup, insert}
use larking.Mux.Removal.{lookup-insert}
use larking.Mux.Options.{fill, Codec, MuxOptions, new_mux, default_codecs}
use larking.Mux.Settings.{
  Settings, MuxOption, codec_option, apply, apply_all, new_mux_of, default_mux_options,
}

-- The defaults leave what is set.
lookup-fill :
    {V : Type 0} (k : Bytes) (v : V) (m ds : List (Bytes × V))
    → lookup k m ≡ some v
    → lookup k (fill m ds) ≡ some v
unfolding fill
lookup-fill k v m [] e = e
lookup-fill k v m ((j, w) ∷ ds) e = elim (Option-cases (lookup j m)) [
  | inl missing ↦
      rw (missing, fill)
        (lookup-fill k v (insert j w m) ds (lookup-insert k j w m ∙ rw (other missing) e))
  | inr (x, there) ↦ rw (there, fill) (lookup-fill k v m ds e)
]
  where
    other : lookup j m ≡ none → beq j k ≡ false
    other missing = elim (Bool-cases (beq j k)) [
      | inl same ↦ let here : lookup j m ≡ some v = rw ((beq_iff j k).0 same) e in cc
      | inr differs ↦ differs
    ]

-- The codec of a type, once the options are applied.
abbrev UsesCodec : Bytes → Codec → Option Settings → Type 0
UsesCodec content_type c none = Unit
UsesCodec content_type c (some s) = lookup content_type s.codecs ≡ some c

apply_all-UsesCodec :
    (options : List MuxOption) (content_type : Bytes) (c : Codec) (s : Settings)
    → UsesCodec content_type c (apply_all (options ++ codec_option content_type c ∷ []) s)
unfolding apply_all apply
apply_all-UsesCodec [] content_type c s =
    lookup-insert content_type content_type c s.codecs ∙ rw (beq_self content_type) refl
apply_all-UsesCodec (o ∷ options) content_type c s =
    go (apply o s) (apply_all-UsesCodec options content_type c)
  where
    go :
        (r : Option Settings)
        → ((s' : Settings)
            → UsesCodec content_type c (apply_all (options ++ codec_option content_type c ∷ []) s'))
        → UsesCodec content_type c (elim r [
          | none ↦ none
          | some s' ↦ apply_all (options ++ codec_option content_type c ∷ []) s'
        ])
    go none later = tt
    go (some s') later = later s'

-- What the mux has of it.
abbrev pub MuxUsesCodec : Bytes → Codec → Option (Settings × MuxOptions) → Type 0
MuxUsesCodec content_type c none = Unit
MuxUsesCodec content_type c (some (s, m)) = lookup content_type m.codecs ≡ some c

-- Where `NewMux` makes a mux, the mux has the last codec that its options set for a content type, also
-- where there is a default for the type.
pub new_mux_of-MuxUsesCodec :
    (options : List MuxOption) (content_type : Bytes) (c : Codec)
    → MuxUsesCodec content_type c (new_mux_of (options ++ codec_option content_type c ∷ []))
unfolding new_mux_of new_mux
new_mux_of-MuxUsesCodec options content_type c =
    go (apply_all (options ++ codec_option content_type c ∷ []) default_mux_options)
      (apply_all-UsesCodec options content_type c default_mux_options)
  where
    go :
        (r : Option Settings)
        → UsesCodec content_type c r
        → MuxUsesCodec content_type c
            (elim r [ none ↦ none | some s ↦ some (s, new_mux s.codecs s.compressors) ])
    go none e = tt
    go (some s) e = lookup-fill content_type c s.codecs default_codecs e
