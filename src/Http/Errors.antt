-- ===== src/Http/Errors.antt =====
-- `encError` of larking/http.go: the response to an error. The text of a status, the names of codes and
-- the marshalling of codecs are parameters; so is status.FromError, as the status is given.
use mathlib.Core.List.{Memᴰ}
use larking.Base.{
  drop, ℕ, true, false, Option, none, some, List, [], ◌∷◌, ◌≡◌, ◌≢◌, Bytes, codes, beq, beq_self,
  beq_iff, sym, map, if◌then◌else◌, Bool-cases, Option-cases, inl, inr, refl,
}
use larking.Rules.Tree.{lookup, insert}
use larking.Grpc.Headers.{Header, to_lower}
use larking.Negotiate.Accept.{Floats, parse_accept}
use larking.Negotiate.Choose.{negotiate_content_type}
use larking.Negotiate.Chosen.{TypeAnswer, by_default, by_spec, negotiate_content_type_answer}
use larking.Mux.Options.{
  codec_json, codec_proto, codec_http_body, other_codec, sort_strings, fill, keys, Codec,
  Compressor, MuxOptions, new_mux, default_codecs,
}
use larking.Mux.Compression.{mem-sort_strings}
use larking.Mux.Removal.{lookup-insert}
use larking.Codes.{http_status_code}
use larking.Grpc.Serve.{get_header, Status}

abbrev pub json_type : Bytes
json_type = codes "application/json"

-- The body of an error's response.
pub data ErrorBody : Type 0 where
  twirp_body : (name message : Bytes) → ErrorBody
  status_body : Codec → (text : Bytes) → ErrorBody

-- A response, or a panic; that of the codec comes behind the header and the status.
pub data Responded : Type 0 where
  responds : (content_type : Bytes) (status : ℕ) → ErrorBody → Responded
  index_panics : Responded
  nil_panics : Responded
  marshal_panics : (content_type : Bytes) (status : ℕ) → Responded

-- header[k]
unfoldable pub values_of : Bytes → Header → List Bytes
unfolding lookup
values_of k h = elim (lookup k h) [ none ↦ [] | some vs ↦ vs ]

module _ (code_name : ℕ → Bytes) (marshal : Codec → Status → Option Bytes) (f : Floats)
    (opts : MuxOptions) where
  -- c.Marshal on a status: that of `codecHTTPBody` panics, and so does `encError` on an error.
  unfoldable pub marshal_status : Codec → Status → Option Bytes
  marshal_status codec_http_body s = none
  marshal_status codec_json s = marshal codec_json s
  marshal_status codec_proto s = marshal codec_proto s
  marshal_status (other_codec n) s = marshal (other_codec n) s

  abbrev pub marshalled : Bytes → ℕ → Codec → Option Bytes → Responded
  marshalled t status c none = marshal_panics t status
  marshalled t status c (some text) = responds t status (status_body c text)

  abbrev pub respond : Bytes → ErrorBody → Option ℕ → Responded
  respond t body none = index_panics
  respond t body (some status) = responds t status body

  -- The codec is looked up before the status, and used behind it.
  unfoldable pub status_error : Bytes → Status → Responded
  unfolding lookup http_status_code marshal_status
  status_error accept s = elim (http_status_code s.code) [
    | none ↦ index_panics
    | some status ↦ elim (lookup accept opts.codecs) [
      | none ↦ nil_panics
      | some c ↦ marshalled accept status c (marshal_status c s)
    ]
  ]

  unfoldable pub error_type : Header → Bytes
  unfolding negotiate_content_type values_of
  error_type h =
      negotiate_content_type f (values_of (codes "Accept") h) opts.content_type_offers json_type

  unfoldable pub enc_error : Header → Status → Responded
  unfolding get_header status_error error_type to_lower http_status_code
  enc_error h s =
      if beq (get_header (codes "Twirp-Version") h) []
      then status_error (error_type h) s
      else respond json_type (twirp_body (map to_lower (code_name s.code)) s.text)
          (http_status_code s.code)

module _ {V : Type 0} where
  -- A key that a map has, its lookup finds.
  lookup-keys : (k : Bytes) (m : List (Bytes × V)) → Memᴰ k (keys m) → lookup k m ≢ none
  unfolding lookup keys
  lookup-keys k [] i = elim i [ ]
  lookup-keys k ((j, v) ∷ m) i = elim (Bool-cases (beq j k)) [
    | inl same ↦ rw same (λ e. cc)
    | inr other ↦ rw other (lookup-keys k m (later other i))
  ]
    where
      later : beq j k ≡ false → Memᴰ k (j ∷ keys m) → Memᴰ k (keys m)
      later other (Memᴰ.head e) = let same : beq j k ≡ true = (beq_iff j k).1 (sym e) in cc
      later other (Memᴰ.tail i) = i

  lookup-insert_keeps :
      (k j : Bytes) (v : V) (m : List (Bytes × V))
      → lookup k m ≢ none
      → lookup k (insert j v m) ≢ none
  lookup-insert_keeps k j v m h =
      rw (lookup-insert k j v m)
        (elim (Bool-cases (beq j k)) [ inl same ↦ rw same (λ e. cc) | inr other ↦ rw other h ])

  lookup-fill_keeps :
      (k : Bytes) (m ds : List (Bytes × V)) → lookup k m ≢ none → lookup k (fill m ds) ≢ none
  unfolding fill
  lookup-fill_keeps k m [] h = h
  lookup-fill_keeps k m ((j, v) ∷ ds) h = elim (Option-cases (lookup j m)) [
    | inl missing ↦
        rw (missing, fill) (lookup-fill_keeps k (insert j v m) ds (lookup-insert_keeps k j v m h))
    | inr (w, there) ↦ rw (there, fill) (lookup-fill_keeps k m ds h)
  ]

  lookup-fill_first :
      (k : Bytes) (v : V) (m ds : List (Bytes × V)) → lookup k (fill m ((k, v) ∷ ds)) ≢ none
  unfolding fill
  lookup-fill_first k v m ds = elim (Option-cases (lookup k m)) [
    | inl missing ↦
        rw (missing, fill)
          (lookup-fill_keeps k (insert k v m) ds (rw (lookup-insert k k v m, beq_self k) (λ e. cc)))
    | inr (w, there) ↦ rw (there, fill) (lookup-fill_keeps k m ds (rw there (λ e. cc)))
  ]

module _ (code_name : ℕ → Bytes) (marshal : Codec → Status → Option Bytes) (f : Floats)
    (codecs : List (Bytes × Codec)) (h : Header) (s : Status) where
  -- The type is one that the header accepts or JSON, and the codec is the mux's for it.
  abbrev Chosen : Bytes → Codec → Type 0
  Chosen t c =
      (beq (get_header (codes "Twirp-Version") h) [] ≡ true)
      × TypeAnswer f (parse_accept f (values_of (codes "Accept") h))
          (sort_strings (keys (fill codecs default_codecs))) json_type t
      × (lookup t (fill codecs default_codecs) ≡ some c)

  -- How an error is answered.
  pub data Writes : Responded → Type 0 where
    writes_twirp :
        {status : ℕ}
        → beq (get_header (codes "Twirp-Version") h) [] ≡ false
        → http_status_code s.code ≡ some status
        → Writes (responds json_type status (twirp_body (map to_lower (code_name s.code)) s.text))
    writes_status :
        {t text : Bytes} {status : ℕ} {c : Codec}
        → http_status_code s.code ≡ some status
        → Chosen t c
        → c ≢ codec_http_body
        → marshal c s ≡ some text
        → Writes (responds t status (status_body c text))
    refuses_body :
        {t : Bytes} {status : ℕ}
        → http_status_code s.code ≡ some status
        → Chosen t codec_http_body
        → Writes (marshal_panics t status)
    marshal_fails :
        {t : Bytes} {status : ℕ} {c : Codec}
        → http_status_code s.code ≡ some status
        → Chosen t c
        → marshal c s ≡ none
        → Writes (marshal_panics t status)
    no_status : http_status_code s.code ≡ none → Writes index_panics

module _ (code_name : ℕ → Bytes) (marshal : Codec → Status → Option Bytes) (f : Floats)
    (codecs : List (Bytes × Codec)) (compressors : List (Bytes × Option Compressor)) where
  -- The codecs of the mux have the answer of the negotiation.
  lookup-answer :
      (h : Header) (t : Bytes)
      → TypeAnswer f
          (parse_accept f (values_of (codes "Accept") h))
          (sort_strings (keys (fill codecs default_codecs)))
          json_type
          t
      → lookup t (fill codecs default_codecs) ≢ none
  lookup-answer h t by_default =
      lookup-fill_first json_type codec_json codecs (drop 1 default_codecs)
  lookup-answer h t (by_spec spec m i z c) =
      lookup-keys t (fill codecs default_codecs)
        (mem-sort_strings t (keys (fill codecs default_codecs)) m)

  module _ (h : Header) (s : Status) where
    by_text :
        (t : Bytes) (status : ℕ) (c : Codec) (o : Option Bytes)
        → http_status_code s.code ≡ some status
        → Chosen code_name marshal f codecs h s t c
        → c ≢ codec_http_body
        → marshal c s ≡ o
        → Writes code_name marshal f codecs h s
            (marshalled code_name marshal f (new_mux codecs compressors) t status c o)
    by_text t status c none e q n m = marshal_fails e q m
    by_text t status c (some text) e q n m = writes_status e q n m

    by_codec :
        (t : Bytes) (status : ℕ) (c : Codec)
        → http_status_code s.code ≡ some status
        → Chosen code_name marshal f codecs h s t c
        → Writes code_name marshal f codecs h s (
            marshalled code_name marshal f
              (new_mux codecs compressors)
              t
              status
              c
              (marshal_status code_name marshal f (new_mux codecs compressors) c s))
    unfolding marshal_status
    by_codec t status codec_http_body e q = refuses_body e q
    by_codec t status codec_json e q = by_text t status codec_json _ e q (λ x. cc) refl
    by_codec t status codec_proto e q = by_text t status codec_proto _ e q (λ x. cc) refl
    by_codec t status (other_codec n) e q = by_text t status (other_codec n) _ e q (λ x. cc) refl

    status_error-Writes :
        (t : Bytes)
        → beq (get_header (codes "Twirp-Version") h) [] ≡ true
        → TypeAnswer f
            (parse_accept f (values_of (codes "Accept") h))
            (sort_strings (keys (fill codecs default_codecs)))
            json_type
            t
        → Writes code_name marshal f codecs h s
            (status_error code_name marshal f (new_mux codecs compressors) t s)
    unfolding status_error new_mux
    status_error-Writes t v q = elim (Option-cases (http_status_code s.code)) [
      | inl e ↦ rw (e, status_error) (no_status e)
      | inr (n, e) ↦ elim (Option-cases (lookup t (fill codecs default_codecs))) [
        | inl missing ↦ absurd (lookup-answer h t q missing)
        | inr (c, here) ↦ rw (e, status_error, here) (by_codec t n c e (v, q, here))
      ]
    ]

    twirp-Writes :
        (o : Option ℕ)
        → beq (get_header (codes "Twirp-Version") h) [] ≡ false
        → http_status_code s.code ≡ o
        → Writes code_name marshal f codecs h s (
            respond code_name marshal f
              (new_mux codecs compressors)
              json_type
              (twirp_body (map to_lower (code_name s.code)) s.text)
              o)
    twirp-Writes none v e = no_status e
    twirp-Writes (some n) v e = writes_twirp v e

    -- A mux that `NewMux` makes never misses the codec for an error: with a Twirp version in the request's
    -- header it answers in JSON with the code's name in lower case, else with the status in a type that the header accepts or in JSON, by
    -- the mux's codec for it, each with the HTTP status of the code. It panics for the code that has no such
    -- status, where the codec is `codecHTTPBody`, and where the codec's Marshal fails.
    pub enc_error-Writes :
        Writes code_name marshal f codecs h s
          (enc_error code_name marshal f (new_mux codecs compressors) h s)
    unfolding enc_error error_type new_mux
    enc_error-Writes = elim (Bool-cases (beq (get_header (codes "Twirp-Version") h) [])) [
      | inl v ↦
          rw (v, enc_error)
            (status_error-Writes _ v (
              negotiate_content_type_answer f (values_of (codes "Accept") h)
                (sort_strings (keys (fill codecs default_codecs))) json_type))
      | inr v ↦ rw (v, enc_error) (twirp-Writes (http_status_code s.code) v refl)
    ]
