-- ===== src/Negotiate/Accept.antt =====
-- The parser of Accept headers in larking/negotiate.go. The float64 of a quality is a parameter.
use larking.Base.{
  ℕ, zero, suc, ◌+◌, ◌-◌, ◌*◌, ◌%◌, ◌^◌, Bool, true, false, not, ◌&&◌, ◌||◌, List, [], ◌∷◌, ◌++◌,
  within, leb, ◌==◌, if◌then◌else◌, Bytes, codes, length, drop, has_prefix, run_of, after_run,
}

-- The operations on float64 that the source uses: a < b, q == 0, and q + float64(n) / float64(d) for
-- the bit patterns n and d of two ints.
pub record Floats : Type 1 where
  pub Float : Type 0
  pub less : Float → Float → Bool
  pub is_zero : Float → Bool
  pub zero_ : Float
  pub one : Float
  pub minus_one : Float
  pub add_ratio : Float → ℕ → ℕ → Float

-- strings.ContainsRune
unfoldable pub contains_byte : Bytes → ℕ → Bool
contains_byte [] c = false
contains_byte (x ∷ xs) c = if x == c then true else contains_byte xs c

-- octetTypes[c] & isSpace != 0
unfoldable pub is_space : ℕ → Bool
unfolding contains_byte
is_space c = contains_byte (codes " \t\r\n") c

-- octetTypes[c] & isToken != 0
unfoldable pub is_token : ℕ → Bool
unfolding contains_byte
is_token c =
    leb c 127
    && not (leb c 31 || c == 127)
    && not (contains_byte (codes " \t\"(),/:;<=>?@[]\\{}") c)

unfoldable pub skip_space : Bytes → Bytes
unfolding after_run is_space
skip_space s = after_run is_space s

-- The token and the rest.
unfoldable pub expect_token_slash : Bytes → Bytes × Bytes
unfolding run_of after_run is_token
expect_token_slash s =
    let valid : ℕ → Bool = λ b. is_token b || b == b'/' in (run_of valid s, after_run valid s)

module _ (f : Floats) where
  open f use {Float, less, is_zero, zero_, one, minus_one, add_ratio}

  -- The digits behind the point, with n and d so far: ints that wrap around.
  unfoldable pub fraction : Float → ℕ → ℕ → Bytes → Float × Bytes
  fraction q n d [] = (add_ratio q n d, [])
  fraction q n d (b ∷ s) =
      let rest = fraction q ((n * 10 + (b - b'0')) % 2 ^ 64) (d * 10 % 2 ^ 64) s in
      if within b'0' b'9' b then rest else (add_ratio q n d, b ∷ s)

  abbrev pub after_point : Float → Bytes → Float × Bytes
  after_point q s = if has_prefix s (b'.' ∷ []) then fraction q 0 1 (drop 1 s) else (q, s)

  unfoldable pub expect_quality : Bytes → Float × Bytes
  unfolding fraction has_prefix
  expect_quality [] = (minus_one, [])
  expect_quality (c ∷ s) =
      if c == b'0'
      then after_point zero_ s
      else if c == b'1'
      then after_point one s
      else (minus_one, [])

  -- acceptSpec
  abbrev pub Spec : Type 0
  Spec = Bytes × Float

  -- The end of a round: on to the next spec behind a comma.
  abbrev pub next_spec : (Bytes → List Spec) → Bytes → List Spec
  next_spec more s =
      let s' = skip_space s in
      if has_prefix s' (b',' ∷ []) then more (skip_space (drop 1 s')) else []

  -- The rounds of `parseAccept` over one header value; each takes a byte at least.
  unfoldable pub parse_specs : ℕ → Bytes → List Spec
  unfolding has_prefix
  parse_specs zero s = []
  parse_specs (suc fuel) s =
      let value = (expect_token_slash s).0 in
      let s₂ = skip_space (expect_token_slash s).1 in
      let s₃ = skip_space (drop 1 s₂) in
      let quality = expect_quality (drop 2 s₃) in
      let more = parse_specs fuel in
      if length value == 0
      then []
      else if has_prefix s₂ (b';' ∷ [])
      then (if not (has_prefix s₃ (b'q' ∷ b'=' ∷ []))
          then []
          else if less quality.0 zero_
          then []
          else (value, quality.0) ∷ next_spec more quality.1)
      else (value, one) ∷ next_spec more s₂

  unfoldable pub parse_accept : List Bytes → List Spec
  unfolding parse_specs expect_token_slash skip_space expect_quality
  parse_accept [] = []
  parse_accept (s ∷ values) = parse_specs (suc (length s)) s ++ parse_accept values
