-- ===== src/Grpc/Headers.antt =====
-- The header names of larking/grpc.go, and the metadata that a request and a response keep. The base
-- 64 codec of the standard library is a parameter.
use larking.Rules.Tree.{insert}
use larking.Base.{
  has_suffix, ℕ, Bool, true, false, not, ◌⊎◌, ◌&&◌, ◌≡◌, Option, none, some, List, [], ◌∷◌, map,
  Bytes, codes, beq, if◌then◌else◌, ◌+◌, within, Bool-cases, inl, inr,
}

unfoldable pub any_eq : Bytes → List Bytes → Bool
any_eq k [] = false
any_eq k (j ∷ js) = if beq k j then true else any_eq k js

unfoldable pub is_reserved_header : Bytes → Bool
unfolding any_eq
is_reserved_header k = any_eq k (
    codes "content-type"
    ∷ codes "user-agent"
    ∷ codes "grpc-message-type"
    ∷ codes "grpc-encoding"
    ∷ codes "grpc-message"
    ∷ codes "grpc-status"
    ∷ codes "grpc-timeout"
    ∷ codes "grpc-status-details"
    ∷ codes "te"
    ∷ [])

unfoldable pub is_whitelisted_header : Bytes → Bool
unfolding any_eq
is_whitelisted_header k = any_eq k (codes ":authority" ∷ codes "user-agent" ∷ [])

-- strings.ToLower on ASCII, and textproto.CanonicalMIMEHeaderKey
unfoldable pub to_lower : ℕ → ℕ
to_lower c = if within b'A' b'Z' c then c + 32 else c

abbrev pub Header : Type 0
Header = List (Bytes × List Bytes)

abbrev pub bin_suffix : Bytes
bin_suffix = codes "-bin"

module _ (decode : Bytes → Option Bytes) where
  -- A value that does not decode is left "".
  abbrev pub decoded : Option Bytes → Bytes
  decoded none = []
  decoded (some v) = v

  unfoldable pub incoming_values : Bytes → List Bytes → List Bytes
  incoming_values k vs = if has_suffix k bin_suffix then map (λ v. decoded (decode v)) vs else vs

  -- The loop of `newIncomingContext`, with the metadata so far. Later keys that agree in lower case
  -- replace earlier ones.
  unfoldable pub incoming_from : Header → Header → Header
  unfolding incoming_values
  incoming_from md [] = md
  incoming_from md ((k, vs) ∷ header) =
      let key = map to_lower k in
      let kept = incoming_from (insert key (incoming_values key vs) md) header in
      let dropped = incoming_from md header in
      if is_reserved_header key && not (is_whitelisted_header key) then dropped else kept

  -- `newIncomingContext`: the metadata of a request.
  unfoldable pub new_incoming : Header → Header
  unfolding incoming_from is_reserved_header is_whitelisted_header
  new_incoming = incoming_from []

module _ (encode : Bytes → Bytes) (canonical : Bytes → Bytes) where
  unfoldable pub outgoing_values : Bytes → List Bytes → List Bytes
  outgoing_values k vs = if has_suffix k bin_suffix then map encode vs else vs

  -- `setOutgoingHeader`: the response header after the metadata `md`.
  unfoldable pub set_outgoing : Header → Header → Header
  unfolding outgoing_values
  set_outgoing header [] = header
  set_outgoing header ((k, vs) ∷ md) =
      let skipped = set_outgoing header md in
      let written = set_outgoing (insert (canonical k) (outgoing_values k vs) header) md in
      if is_reserved_header k then skipped else written

-- The keys that a request's metadata may have.
abbrev pub MayPass : Bytes → Type 0
MayPass k = (is_reserved_header k ≡ false) ⊎ (is_whitelisted_header k ≡ true)

abbrev pub KeysPass : Header → Type 0
KeysPass [] = Unit
KeysPass ((k, vs) ∷ md) = MayPass k × KeysPass md

insert-KeysPass :
    (k : Bytes) (vs : List Bytes) (md : Header)
    → MayPass k
    → KeysPass md
    → KeysPass (insert k vs md)
unfolding insert
insert-KeysPass k vs [] h p = (h, tt)
insert-KeysPass k vs ((j, ws) ∷ md) h p = elim (Bool-cases (beq j k)) [
  | inl same ↦ rw same p
  | inr other ↦ rw other (p.0, insert-KeysPass k vs md h p.1)
]

incoming_from-KeysPass :
    (decode : Bytes → Option Bytes) (md header : Header)
    → KeysPass md
    → KeysPass (incoming_from decode md header)
unfolding incoming_from
incoming_from-KeysPass decode md [] p = p
incoming_from-KeysPass decode md ((k, vs) ∷ header) p =
    let key = map to_lower k in
    elim (Bool-cases (is_reserved_header key)) [
      | inr free ↦ rw free (
          incoming_from-KeysPass decode (insert key (incoming_values decode key vs) md) header
            (insert-KeysPass key (incoming_values decode key vs) md (inl free) p))
      | inl reserved ↦ rw reserved (elim (Bool-cases (is_whitelisted_header key)) [
        | inl listed ↦ rw listed (
            incoming_from-KeysPass decode (insert key (incoming_values decode key vs) md) header
              (insert-KeysPass key (incoming_values decode key vs) md (inr listed) p))
        | inr hidden ↦ rw hidden (incoming_from-KeysPass decode md header p)
      ])
    ]

-- No reserved header of a request reaches its metadata, but for those that are whitelisted.
pub new_incoming-KeysPass :
    (decode : Bytes → Option Bytes) (header : Header) → KeysPass (new_incoming decode header)
unfolding new_incoming
new_incoming-KeysPass decode header = incoming_from-KeysPass decode [] header tt
