-- ===== src/Grpc/Message.antt =====
-- `encodeGrpcMessage` of larking/grpc.go.
use larking.Base.{
  ℕ, ◌+◌, ◌-◌, ◌/◌, ◌%◌, ◌≡◌, refl, ◌∙◌, Bool, true, false, ◌||◌, [], ◌∷◌, ◌++◌, append_assoc,
  append-nil, ltb, ◌==◌, if◌then◌else◌, Bytes, Bool-cases, inl, inr,
}

-- c < ' ' || c > '~' || c == '%'
unfoldable pub is_special : ℕ → Bool
is_special c = ltb c b' ' || ltb b'~' c || c == b'%'

hex_digit : ℕ → ℕ
hex_digit n = if ltb n 10 then b'0' + n else b'a' + (n - 10)

-- fmt.Sprintf("%%%02x", c)
unfoldable pub percent : ℕ → Bytes
unfolding hex_digit
percent c = b'%' ∷ hex_digit (c / 16) ∷ hex_digit (c % 16) ∷ []

-- The loop. `sb` is what is written, `pending` is msg[pos:i], and the flag is `pos != 0`; `msg` is
-- returned as it is where nothing was escaped.
unfoldable pub encode_from : Bytes → Bytes → Bytes → Bool → Bytes → Bytes
encode_from msg sb pending escaped [] = if escaped then sb else msg
encode_from msg sb pending escaped (c ∷ cs) =
    let special = encode_from msg (sb ++ (pending ++ percent c)) [] true cs in
    let plain = encode_from msg sb (pending ++ c ∷ []) escaped cs in
    if is_special c then special else plain

unfoldable pub encode_grpc_message : Bytes → Bytes
unfolding encode_from is_special percent
encode_grpc_message msg = encode_from msg [] [] false msg

-- The whole message with every special byte escaped.
abbrev pub escape_all : Bytes → Bytes
escape_all [] = []
escape_all (c ∷ cs) = (if is_special c then percent c else c ∷ []) ++ escape_all cs

abbrev pub IsPlain : Bytes → Type 0
IsPlain [] = Unit
IsPlain (c ∷ cs) = (is_special c ≡ false) × IsPlain cs

encode_from_plain :
    (msg sb pending : Bytes) (escaped : Bool) (s : Bytes)
    → IsPlain s
    → encode_from msg sb pending escaped s ≡ (if escaped then sb else msg)
unfolding encode_from
encode_from_plain msg sb pending escaped [] h = refl
encode_from_plain msg sb pending escaped (c ∷ cs) h =
    rw h.0 (encode_from_plain msg sb (pending ++ c ∷ []) escaped cs h.1)

encode_from_special :
    (msg sb pending : Bytes) (escaped : Bool) (p : Bytes) (c : ℕ) (s : Bytes)
    → is_special c ≡ true
    → IsPlain s
    → encode_from msg sb pending escaped (p ++ (c ∷ s))
      ≡ sb ++ (pending ++ escape_all (p ++ (c ∷ [])))
unfolding encode_from
encode_from_special msg sb pending escaped [] c s h k =
    rw h (encode_from_plain msg (sb ++ (pending ++ percent c)) [] true s k ∙ rw append-nil)
encode_from_special msg sb pending escaped (d ∷ p) c s h k = elim (Bool-cases (is_special d)) [
  | inl special ↦
      rw special (
        encode_from_special msg (sb ++ (pending ++ percent d)) [] true p c s h k
        ∙ simp append_assoc)
  | inr plain ↦
      rw plain
        (encode_from_special msg sb (pending ++ d ∷ []) escaped p c s h k ∙ simp append_assoc)
]

-- A message is encoded up to its last special byte, and what stands behind that byte is dropped; a
-- message with no special byte is left as it is.
pub encode_grpc_message_lem :
    (p : Bytes) (c : ℕ) (s : Bytes)
    → is_special c ≡ true
    → IsPlain s
    → (encode_grpc_message (p ++ (c ∷ s)) ≡ escape_all (p ++ (c ∷ [])))
      × (encode_grpc_message s ≡ s)
unfolding encode_grpc_message
encode_grpc_message_lem p c s h k =
    (encode_from_special (p ++ (c ∷ s)) [] [] false p c s h k, encode_from_plain s [] [] false s k)
