-- ===== src/Grpc/Timeout.antt =====
-- `timeoutUnit` and `decodeTimeout` of larking/grpc.go. A duration is a number of nanoseconds in an
-- int64, which wraps around.
use larking.Base.{
  ℕ, zero, suc, ◌+◌, ◌-◌, ◌*◌, ◌%◌, ◌^◌, ◌≤◌, ◌<◌, ◌≡◌, ◌≢◌, ◌⊎◌, refl, ap, ◌∙◌, Bool, false, ◌&&◌,
  Option, none, some, [], ◌∷◌, ◌++◌, ltb, ◌==◌, if◌then◌else◌, Bytes, length, length-append, within,
  arith, Bool-cases, inl, inr,
}
use larking.Base.Int.{ℤ, pos, negsuc}

-- Nanoseconds; 0 is no unit.
unfoldable pub timeout_unit : ℕ → ℕ
timeout_unit c =
    if c == b'H'
    then 3_600_000_000_000
    else if c == b'M'
    then 60_000_000_000
    else if c == b'S'
    then 1_000_000_000
    else if c == b'm'
    then 1_000_000
    else if c == b'u'
    then 1_000
    else if c == b'n'
    then 1
    else 0

-- The int64 of a bit pattern, and the bit pattern of an integer.
unfoldable pub as_int64 : ℕ → ℤ
as_int64 w = if ltb w (2 ^ 63) then pos w else negsuc (2 ^ 64 - 1 - w)

abbrev pattern_of : ℤ → ℕ
pattern_of (pos n) = n % 2 ^ 64
pattern_of (negsuc n) = 2 ^ 64 - 1 - n % 2 ^ 64

-- d * time.Duration(t), for d > 0
unfoldable pub times : ℕ → ℤ → ℤ
unfolding as_int64
times d t = as_int64 (d * pattern_of t % 2 ^ 64)

-- The digits of strconv.ParseInt in base 10, with the number so far.
unfoldable pub parse_digits : ℕ → Bytes → Option ℕ
parse_digits n [] = some n
parse_digits n (c ∷ cs) =
    let rest = parse_digits (n * 10 + (c - b'0')) cs in if within b'0' b'9' c then rest else none

unfoldable pub parse_unsigned : Bytes → Option ℕ
unfolding parse_digits
parse_unsigned [] = none
parse_unsigned (c ∷ cs) = parse_digits 0 (c ∷ cs)

abbrev negate : Option ℕ → Option ℤ
negate none = none
negate (some zero) = some (pos 0)
negate (some (suc n)) = some (negsuc n)

abbrev positive : Option ℕ → Option ℤ
positive none = none
positive (some n) = some (pos n)

-- strconv.ParseInt(s, 10, 64), on the at most 8 bytes that it is called with: no overflow.
unfoldable pub parse_int : Bytes → Option ℤ
unfolding parse_unsigned
parse_int [] = none
parse_int (c ∷ cs) =
    if c == b'+'
    then positive (parse_unsigned cs)
    else if c == b'-'
    then negate (parse_unsigned cs)
    else positive (parse_unsigned (c ∷ cs))

-- s[size-1] and s[:size-1]
abbrev pub last_byte : ℕ → Bytes → ℕ
last_byte d [] = d
last_byte d (c ∷ cs) = last_byte c cs

abbrev pub but_last : Bytes → Bytes
but_last [] = []
but_last (c ∷ []) = []
but_last (c ∷ d ∷ cs) = c ∷ but_last (d ∷ cs)

pub data Timeout : Type 0 where
  too_short too_long no_unit bad_number : Timeout
  duration : ℤ → Timeout

-- math.MaxInt64 / int64(time.Hour)
abbrev pub max_hours : ℕ
max_hours = 2_562_047

abbrev exceeds : ℤ → ℕ → Bool
exceeds (pos n) m = ltb m n
exceeds (negsuc n) m = false

unfoldable pub scale : ℕ → ℤ → ℤ
unfolding times
scale d t = if d == 3_600_000_000_000 && exceeds t max_hours then pos (2 ^ 63 - 1) else times d t

unfoldable pub decode_timeout : Bytes → Timeout
unfolding timeout_unit parse_int scale
decode_timeout s =
    if ltb (length s) 2
    then too_short
    else if ltb 9 (length s)
    then too_long
    else if timeout_unit (last_byte 0 s) == 0
    then no_unit
    else (elim (parse_int (but_last s)) [
      | none ↦ bad_number
      | some t ↦ duration (scale (timeout_unit (last_byte 0 s)) t)
    ])

-- The value of decimal digits.
abbrev pub AreDigits : Bytes → Type 0
AreDigits [] = Unit
AreDigits (c ∷ cs) = (b'0' ≤ c) × (c ≤ b'9') × AreDigits cs

abbrev pub decimal : ℕ → Bytes → ℕ
decimal n [] = n
decimal n (c ∷ cs) = decimal (n * 10 + (c - b'0')) cs

-- The units of the protocol, each with its nanoseconds.
pub data IsUnit : ℕ → ℕ → Type 0 where
  hour : IsUnit b'H' (60 * 60 * 1_000_000_000)
  minute : IsUnit b'M' (60 * 1_000_000_000)
  second : IsUnit b'S' 1_000_000_000
  millisecond : IsUnit b'm' 1_000_000
  microsecond : IsUnit b'u' 1_000
  nanosecond : IsUnit b'n' 1

IsUnit-timeout_unit : {u d : ℕ} → IsUnit u d → timeout_unit u ≡ d
unfolding timeout_unit
IsUnit-timeout_unit hour = refl
IsUnit-timeout_unit minute = refl
IsUnit-timeout_unit second = refl
IsUnit-timeout_unit millisecond = refl
IsUnit-timeout_unit microsecond = refl
IsUnit-timeout_unit nanosecond = refl

unit_positive : {u d : ℕ} → IsUnit u d → d ≢ 0
unit_positive hour = omega arith
unit_positive minute = omega arith
unit_positive second = omega arith
unit_positive millisecond = omega arith
unit_positive microsecond = omega arith
unit_positive nanosecond = omega arith

-- The duration that the digits and a unit mean, and the greatest one where hours exceed it.
abbrev pub meant : ℕ → ℕ → ℕ
meant d n = if d == 3_600_000_000_000 && ltb max_hours n then 2 ^ 63 - 1 else d * n

last_byte-concat : (d u : ℕ) (ds : Bytes) → last_byte d (ds ++ u ∷ []) ≡ u
last_byte-concat d u [] = refl
last_byte-concat d u (c ∷ ds) = last_byte-concat c u ds

but_last-concat : (ds : Bytes) (u : ℕ) → but_last (ds ++ u ∷ []) ≡ ds
but_last-concat [] u = refl
but_last-concat (c ∷ []) u = refl
but_last-concat (c ∷ d ∷ ds) u = ap (λ t. c ∷ t) (but_last-concat (d ∷ ds) u)

parse_digits-decimal : (n : ℕ) (ds : Bytes) → AreDigits ds → parse_digits n ds ≡ some (decimal n ds)
unfolding parse_digits
parse_digits-decimal n [] h = refl
parse_digits-decimal n (c ∷ ds) h =
    ground (arith, parse_digits-decimal (n * 10 + (c - b'0')) ds h.2)

-- b * 10 ^ k
abbrev shifted : ℕ → ℕ → ℕ
shifted b zero = b
shifted b (suc k) = shifted (b * 10) k

decimal-lt : (n b : ℕ) (ds : Bytes) → AreDigits ds → n < b → decimal n ds < shifted b (length ds)
decimal-lt n b [] h k = k
decimal-lt n b (c ∷ ds) h k = decimal-lt (n * 10 + (c - b'0')) (b * 10) ds h.2 (omega arith)

shifted-le : (k : ℕ) → k ≤ 8 → shifted 1 k ≤ 100_000_000
shifted-le zero h = omega arith
shifted-le (suc zero) h = omega arith
shifted-le (suc (suc zero)) h = omega arith
shifted-le (suc (suc (suc zero))) h = omega arith
shifted-le (suc (suc (suc (suc zero)))) h = omega arith
shifted-le (suc (suc (suc (suc (suc zero))))) h = omega arith
shifted-le (suc (suc (suc (suc (suc (suc zero)))))) h = omega arith
shifted-le (suc (suc (suc (suc (suc (suc (suc zero))))))) h = omega arith
shifted-le (suc (suc (suc (suc (suc (suc (suc (suc zero)))))))) h = omega arith
shifted-le (suc (suc (suc (suc (suc (suc (suc (suc (suc k))))))))) h = absurd (omega arith)

parse_int-decimal :
    (c : ℕ) (ds : Bytes) → AreDigits (c ∷ ds) → parse_int (c ∷ ds) ≡ some (pos (decimal 0 (c ∷ ds)))
unfolding parse_int parse_unsigned
parse_int-decimal c ds h = ground (arith, parse_digits-decimal 0 (c ∷ ds) h)

times-exact : (d n : ℕ) → d * n < 2 ^ 63 → n < 2 ^ 63 → times d (pos n) ≡ pos (d * n)
unfolding times as_int64
times-exact d n h k = ground arith

unit_cases :
    (u : ℕ)
    → timeout_unit u ≢ 0
    → (timeout_unit u ≡ 3_600_000_000_000) ⊎ (timeout_unit u ≤ 60_000_000_000)
unfolding timeout_unit
unit_cases u k = ground arith

scale-meant :
    (d n : ℕ)
    → n < 100_000_000
    → (d ≡ 3_600_000_000_000) ⊎ (d ≤ 60_000_000_000)
    → scale d (pos n) ≡ pos (meant d n)
unfolding scale
scale-meant d n h (inl e) = rw e (elim (Bool-cases (ltb max_hours n)) [
  | inl over ↦ rw over
  | inr fits ↦ rw fits (times-exact 3_600_000_000_000 n (ground arith) (omega arith))
])
scale-meant d n h (inr k) =
    let e : (d == 3_600_000_000_000) ≡ false = ground arith in
    rw e (times-exact d n (grind arith) (omega arith))

decoded :
    (s : Bytes) (t : ℤ)
    → ltb (length s) 2 ≡ false
    → ltb 9 (length s) ≡ false
    → (timeout_unit (last_byte 0 s) == 0) ≡ false
    → parse_int (but_last s) ≡ some t
    → decode_timeout s ≡ duration (scale (timeout_unit (last_byte 0 s)) t)
unfolding decode_timeout
decoded s t a b c d = rw (decode_timeout, a, b, c, d)

decode_timeout-unit :
    (c u : ℕ) (ds : Bytes)
    → AreDigits (c ∷ ds)
    → length ds < 8
    → timeout_unit u ≢ 0
    → decode_timeout ((c ∷ ds) ++ u ∷ [])
      ≡ duration (pos (meant (timeout_unit u) (decimal 0 (c ∷ ds))))
decode_timeout-unit c u ds h k e =
    let s = (c ∷ ds) ++ u ∷ [] in
    let l = length-append (c ∷ ds) (u ∷ []) in
    let last : last_byte 0 s ≡ u = last_byte-concat c u ds in
    let small : decimal 0 (c ∷ ds) < 100_000_000 = omega (
      arith,
      decimal-lt 0 1 (c ∷ ds) h (omega arith),
      shifted-le (length (c ∷ ds)) (omega arith),
    ) in
    let value : parse_int (but_last s) ≡ some (pos (decimal 0 (c ∷ ds))) =
      rw (but_last-concat (c ∷ ds) u) (parse_int-decimal c ds h) in
    decoded s (pos (decimal 0 (c ∷ ds))) (ground arith) (ground arith) (rw last (ground arith))
      value
    ∙ ap duration
        (rw last (scale-meant (timeout_unit u) (decimal 0 (c ∷ ds)) small (unit_cases u e)))

-- A timeout of one to eight digits and a unit of the protocol, from hours to nanoseconds, is decoded
-- exactly, with no overflow; hours that an int64 of nanoseconds cannot hold give its greatest value.
pub decode_timeout-exact :
    (c u d : ℕ) (ds : Bytes)
    → AreDigits (c ∷ ds)
    → length ds < 8
    → IsUnit u d
    → decode_timeout ((c ∷ ds) ++ u ∷ []) ≡ duration (pos (meant d (decimal 0 (c ∷ ds))))
decode_timeout-exact c u d ds h k q =
    let e = IsUnit-timeout_unit q in
    decode_timeout-unit c u ds h k (rw e (unit_positive q))
    ∙ ap (λ n. duration (pos (meant n (decimal 0 (c ∷ ds))))) e
