-- ===== src/Mux/Options.antt =====
-- `NewMux` of larking/mux.go: the codecs and compressors of a mux, and the offers that it makes.
use larking.Base.{ℕ, Option, none, some, List, [], ◌∷◌, if◌then◌else◌, Bytes, codes}
use larking.Rules.Tree.{lookup, insert, less}

module _ {V : Type 0} where
  -- The defaults fill the keys that are not set.
  unfoldable pub fill : List (Bytes × V) → List (Bytes × V) → List (Bytes × V)
  unfolding lookup insert
  fill m [] = m
  fill m ((k, v) ∷ defaults) = elim (lookup k m) [
    | some _ ↦ fill m defaults
    | none ↦ fill (insert k v m) defaults
  ]

  unfoldable pub keys : List (Bytes × V) → List Bytes
  keys [] = []
  keys ((k, v) ∷ m) = k ∷ keys m

-- sort.Strings
unfoldable pub insert_sorted : Bytes → List Bytes → List Bytes
unfolding less
insert_sorted k [] = k ∷ []
insert_sorted k (j ∷ js) = if less j k then j ∷ insert_sorted k js else k ∷ j ∷ js

unfoldable pub sort_strings : List Bytes → List Bytes
unfolding insert_sorted
sort_strings [] = []
sort_strings (k ∷ ks) = insert_sorted k (sort_strings ks)

-- The codecs of the source, and the codec of another package.
pub data Codec : Type 0 where
  codec_json codec_proto codec_http_body : Codec
  other_codec : ℕ → Codec

-- A compressor; nil is `none`.
pub data Compressor : Type 0 where
  compressor_gzip : Compressor
  other_compressor : ℕ → Compressor

abbrev pub default_codecs : List (Bytes × Codec)
default_codecs =
    (codes "application/json", codec_json)
    ∷ (codes "application/protobuf", codec_proto)
    ∷ (codes "application/octet-stream", codec_proto)
    ∷ (codes "google.api.HttpBody", codec_http_body)
    ∷ []

abbrev pub default_compressors : List (Bytes × Option Compressor)
default_compressors = (codes "gzip", some compressor_gzip) ∷ (codes "identity", none) ∷ []

pub record MuxOptions : Type 0 where
  pub codecs : List (Bytes × Codec)
  pub compressors : List (Bytes × Option Compressor)
  pub content_type_offers : List Bytes
  pub encoding_type_offers : List Bytes

-- `NewMux` on the codecs and compressors that its options set.
unfoldable pub new_mux : List (Bytes × Codec) → List (Bytes × Option Compressor) → MuxOptions
unfolding fill keys sort_strings
new_mux codecs compressors = record {
  codecs = fill codecs default_codecs;
  compressors = fill compressors default_compressors;
  content_type_offers = sort_strings (keys (fill codecs default_codecs));
  encoding_type_offers = sort_strings (keys (fill codecs default_codecs));
}
