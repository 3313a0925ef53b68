-- ===== src/Mux/Compression.antt =====
-- The encodings that a mux of larking/mux.go offers are the names of its codecs.
use mathlib.Core.List.{Memᴰ}
use larking.Base.{
  Option, List, [], ◌∷◌, ◌≡◌, ◌⊎◌, inl, inr, refl, Bytes, codes, beq, Bool-cases, Option-cases,
}
use larking.Rules.Tree.{lookup, insert, less}
use larking.Negotiate.Accept.{Floats, Spec}
use larking.Negotiate.Choose.{negotiate_content_encoding}
use larking.Negotiate.Encoding.{
  EncodingAnswer, unacceptable, no_encoding, encoding, negotiate_content_encoding_answer,
}
use larking.Mux.Options.{
  fill, keys, insert_sorted, sort_strings, Codec, Compressor, default_codecs, new_mux,
}

module _ {V : Type 0} where
  mem-keys-insert :
      (x k : Bytes) (v : V) (m : List (Bytes × V))
      → Memᴰ x (keys (insert k v m))
      → (x ≡ k) ⊎ Memᴰ x (keys m)
  unfolding keys insert
  mem-keys-insert x k v [] (Memᴰ.head e) = inl e
  mem-keys-insert x k v [] (Memᴰ.tail h) = elim h [ ]
  mem-keys-insert x k v ((j, w) ∷ m) h = elim (Bool-cases (beq j k)) [
    | inl same ↦ inr (rw (same, keys) at h)
    | inr other ↦ later (rw (other, keys) at h) (mem-keys-insert x k v m)
  ]
    where
      later :
          Memᴰ x (j ∷ keys (insert k v m))
          → (Memᴰ x (keys (insert k v m)) → (x ≡ k) ⊎ Memᴰ x (keys m))
          → (x ≡ k) ⊎ Memᴰ x (j ∷ keys m)
      later (Memᴰ.head e) _ = inr (Memᴰ.head e)
      later (Memᴰ.tail t) deeper = elim (deeper t) [ inl e ↦ inl e | inr i ↦ inr (Memᴰ.tail i) ]

  mem-keys-fill :
      (x : Bytes) (m defaults : List (Bytes × V))
      → Memᴰ x (keys (fill m defaults))
      → Memᴰ x (keys m) ⊎ Memᴰ x (keys defaults)
  unfolding fill keys
  mem-keys-fill x m [] h = inl h
  mem-keys-fill x m ((k, v) ∷ defaults) h = elim (Option-cases (lookup k m)) [
    | inl missing ↦ elim (mem-keys-fill x (insert k v m) defaults (rw (missing, fill) at h)) [
      | inl i ↦ elim (mem-keys-insert x k v m i) [ inl e ↦ inr (Memᴰ.head e) | inr j ↦ inl j ]
      | inr i ↦ inr (Memᴰ.tail i)
    ]
    | inr (w, there) ↦ elim (mem-keys-fill x m defaults (rw (there, fill) at h)) [
      | inl i ↦ inl i
      | inr i ↦ inr (Memᴰ.tail i)
    ]
  ]

mem-insert_sorted : (x k : Bytes) (js : List Bytes) → Memᴰ x (insert_sorted k js) → Memᴰ x (k ∷ js)
unfolding insert_sorted
mem-insert_sorted x k [] h = h
mem-insert_sorted x k (j ∷ js) h = elim (Bool-cases (less j k)) [
  | inl e ↦ later (rw (e, insert_sorted) at h) (mem-insert_sorted x k js)
  | inr e ↦ rw (e, insert_sorted) at h
]
  where
    later :
        Memᴰ x (j ∷ insert_sorted k js)
        → (Memᴰ x (insert_sorted k js) → Memᴰ x (k ∷ js))
        → Memᴰ x (k ∷ j ∷ js)
    later (Memᴰ.head e) deeper = Memᴰ.tail (Memᴰ.head e)
    later (Memᴰ.tail t) deeper = elim (deeper t) [
      | Memᴰ.head e ↦ Memᴰ.head e
      | Memᴰ.tail i ↦ Memᴰ.tail (Memᴰ.tail i)
    ]

pub mem-sort_strings : (x : Bytes) (ks : List Bytes) → Memᴰ x (sort_strings ks) → Memᴰ x ks
unfolding sort_strings
mem-sort_strings x [] h = h
mem-sort_strings x (k ∷ ks) h = elim (mem-insert_sorted x k (sort_strings ks) h) [
  | Memᴰ.head e ↦ Memᴰ.head e
  | Memᴰ.tail t ↦ Memᴰ.tail (mem-sort_strings x ks t)
]

module _ (f : Floats) (codecs : List (Bytes × Codec))
    (compressors : List (Bytes × Option Compressor)) where
  abbrev offers : List Bytes
  offers = (new_mux codecs compressors).encoding_type_offers

  -- "", "identity" or the name of a codec.
  unfoldable pub IsCodecName : Bytes → Type 0
  IsCodecName k =
      (k ≡ []) ⊎ (k ≡ codes "identity") ⊎ Memᴰ k (keys codecs) ⊎ Memᴰ k (keys default_codecs)

  offer-IsCodecName : (k : Bytes) → Memᴰ k offers → IsCodecName k
  unfolding new_mux IsCodecName
  offer-IsCodecName k m = inr (inr (mem-keys-fill k codecs default_codecs (mem-sort_strings k _ m)))

  answer-IsCodecName :
      {specs : List (Spec f)} {k : Bytes} → EncodingAnswer f specs offers k → IsCodecName k
  unfolding IsCodecName
  answer-IsCodecName unacceptable = inl refl
  answer-IsCodecName no_encoding = inr (inl refl)
  answer-IsCodecName (encoding spec m n q h) = offer-IsCodecName _ m

-- The encoding that a mux chooses for a response is "", "identity" or the name of one of its codecs,
-- whatever its compressors and the request's header are.
pub response_encoding-IsCodecName :
    (f : Floats)
    → (header : List Bytes) → (codecs : List (Bytes × Codec))
    → (compressors : List (Bytes × Option Compressor))
    → IsCodecName f codecs compressors
        (negotiate_content_encoding f header (new_mux codecs compressors).encoding_type_offers)
response_encoding-IsCodecName f header codecs compressors =
    answer-IsCodecName f codecs compressors (negotiate_content_encoding_answer f header _)
