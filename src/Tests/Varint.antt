-- ===== src/Tests/Varint.antt =====
-- The varints of protowire, in base 128, for the runs of CodecProto.
use larking.Base.{
  ℕ, zero, suc, ◌+◌, ◌-◌, ◌*◌, ◌/◌, ◌%◌, ◌<◌, ◌≤◌, ◌≡◌, refl, true, false, Option, none, some, [],
  ◌∷◌, ◌++◌, Bytes, length, ltb, if◌then◌else◌, Bool-cases, inl, inr, arith,
}
use larking.Codec.Proto.{Varints}
use larking.Codec.ProtoFrames.{IsVarint, last_byte, more_bytes, IsCodec}

unfoldable pub append_from : ℕ → ℕ → Bytes
append_from zero n = n ∷ []
append_from (suc k) n =
    let rest = append_from k (n / 128) in if ltb n 128 then n ∷ [] else (n % 128 + 128) ∷ rest

abbrev push : ℕ → Option (ℕ × ℕ) → Option (ℕ × ℕ)
push c none = none
push c (some (n, k)) = some (n * 128 + (c - 128), suc k)

unfoldable pub consume : Bytes → Option (ℕ × ℕ)
consume [] = none
consume (c ∷ b) = let rest = consume b in if ltb c 128 then some (c, 1) else push c rest

abbrev pub base_128 : Varints
base_128 = record { append = append_from 9; consume = consume }

abbrev bound : ℕ → ℕ
bound zero = 128
bound (suc k) = 128 * bound k

append_from-shaped :
    (k n : ℕ) → n < bound k → IsVarint (append_from k n) × (length (append_from k n) ≤ suc k)
unfolding append_from
append_from-shaped zero n h = (last_byte n (ground arith), omega arith)
append_from-shaped (suc k) n h = elim (Bool-cases (ltb n 128)) [
  | inl small ↦ rw small (last_byte n small, omega arith)
  | inr large ↦
      let (v, l) = append_from-shaped k (n / 128) (omega arith) in
      rw large (more_bytes (n % 128 + 128) (ground arith) v, omega (arith, l))
]

append_from-read_back :
    (k n : ℕ) (t : Bytes)
    → n < bound k
    → consume (append_from k n ++ t) ≡ some (n, length (append_from k n))
unfolding append_from consume
append_from-read_back zero n t h = let small : ltb n 128 ≡ true = ground arith in rw small refl
append_from-read_back (suc k) n t h = elim (Bool-cases (ltb n 128)) [
  | inl small ↦ rw (small, small) refl
  | inr large ↦
      let more : ltb (n % 128 + 128) 128 ≡ false = ground arith in
      let same : n / 128 * 128 + (n % 128 + 128 - 128) ≡ n = omega arith in
      rw (large, more, append_from-read_back k (n / 128) t (omega arith), same) refl
]

pub base_128-IsCodec : IsCodec base_128
base_128-IsCodec = record {
  shaped = λ n h. append_from-shaped 9 n (omega arith);
  read_back = λ n t h. append_from-read_back 9 n t (omega arith);
}
