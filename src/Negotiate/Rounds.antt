-- ===== src/Negotiate/Rounds.antt =====
-- The rounds of `parseAccept` of larking/negotiate.go: the fuel of the model does not count.
use larking.Base.{
  within, ◌+◌, ◌*◌, ◌-◌, ◌%◌, ◌^◌, ℕ, zero, suc, ◌≡◌, ◌<◌, ◌≤◌, Bool, true, false, not, List, [],
  ◌∷◌, refl, ap, ◌==◌, if◌then◌else◌, Bytes, length, drop, has_prefix, after_run, Bool-cases, inl,
  inr, arith,
}
use larking.Negotiate.Accept.{
  Floats, Spec, skip_space, expect_token_slash, expect_quality, fraction, after_point, next_spec,
  parse_specs,
}

drop-le : {A : Type 0} (k : ℕ) (s : List A) → length (drop k s) ≤ length s
drop-le zero s = omega arith
drop-le (suc k) [] = omega arith
drop-le (suc k) (c ∷ s) = omega (arith, drop-le k s)

after_run-le : (p : ℕ → Bool) (s : Bytes) → length (after_run p s) ≤ length s
unfolding after_run
after_run-le p [] = omega arith
after_run-le p (c ∷ s) = elim (Bool-cases (p c)) [
  | inl e ↦ rw e (omega (arith, after_run-le p s))
  | inr e ↦ rw e (omega arith)
]

skip_space-le : (s : Bytes) → length (skip_space s) ≤ length s
unfolding skip_space
skip_space-le s = after_run-le _ s

if-cong :
    {A : Type 0} {x x' y y' : A} (b : Bool)
    → x ≡ x'
    → y ≡ y'
    → (if b then x else y) ≡ (if b then x' else y')
if-cong true e k = e
if-cong false e k = k

module _ (f : Floats) where
  open f use {Float, less, zero_, one}

  fraction-le : (q : Float) (n d : ℕ) (s : Bytes) → length (fraction f q n d s).1 ≤ length s
  unfolding fraction
  fraction-le q n d [] = omega arith
  fraction-le q n d (b ∷ s) = elim (Bool-cases (within b'0' b'9' b)) [
    | inl e ↦
        rw e (omega (arith, fraction-le q ((n * 10 + (b - b'0')) % 2 ^ 64) (d * 10 % 2 ^ 64) s))
    | inr e ↦ rw e (omega arith)
  ]

  after_point-le : (q : Float) (s : Bytes) → length (after_point f q s).1 ≤ length s
  after_point-le q s = go (has_prefix s (b'.' ∷ []))
    where
      go : (b : Bool) → length (if b then fraction f q 0 1 (drop 1 s) else (q, s)).1 ≤ length s
      go true = omega (arith, fraction-le q 0 1 (drop 1 s), drop-le 1 s)
      go false = omega arith

  expect_quality-le : (s : Bytes) → length (expect_quality f s).1 ≤ length s
  unfolding expect_quality
  expect_quality-le [] = omega arith
  expect_quality-le (c ∷ s) = elim (Bool-cases (c == b'0')) [
    | inl e ↦ rw e (omega (arith, after_point-le zero_ s))
    | inr e ↦ elim (Bool-cases (c == b'1')) [
      | inl k ↦ rw (e, k) (omega (arith, after_point-le one s))
      | inr k ↦ rw (e, k) (omega arith)
    ]
  ]

  -- The next round starts behind the comma, on a shorter text.
  next_spec-agrees :
      (more more' : Bytes → List (Spec f)) (s : Bytes)
      → ((t : Bytes) → length t < length s → more t ≡ more' t)
      → next_spec f more s ≡ next_spec f more' s
  unfolding has_prefix
  next_spec-agrees more more' s h = go (skip_space s) (skip_space-le s)
    where
      go :
          (r : Bytes)
          → length r ≤ length s
          → (if has_prefix r (b',' ∷ []) then more (skip_space (drop 1 r)) else [])
            ≡ (if has_prefix r (b',' ∷ []) then more' (skip_space (drop 1 r)) else [])
      go [] k = refl
      go (c ∷ r) k =
          if-cong (has_prefix (c ∷ r) (b',' ∷ []))
            (h (skip_space r) (omega (arith, skip_space-le r))) refl

  rounds-agree :
      (n m : ℕ) (s : Bytes) → length s < n → length s < m → parse_specs f n s ≡ parse_specs f m s
  unfolding parse_specs
  rounds-agree zero m s h k = absurd (omega arith)
  rounds-agree (suc n) zero s h k = absurd (omega arith)
  rounds-agree (suc n) (suc m) s h k =
      let token_le : length (expect_token_slash s).1 ≤ length s =
        unfold expect_token_slash in after_run-le _ s in
      let s₂ = skip_space (expect_token_slash s).1 in
      let s₃ = skip_space (drop 1 s₂) in
      let s₂_le = skip_space-le (expect_token_slash s).1 in
      let s₃_le = skip_space-le (drop 1 s₂) in
      let shorter : (t : Bytes) → length t < length s → parse_specs f n t ≡ parse_specs f m t =
        λ t l. rounds-agree n m t (omega arith) (omega arith) in
      if-cong (length (expect_token_slash s).0 == 0) refl (
        if-cong (has_prefix s₂ (b';' ∷ []))
          (if-cong (not (has_prefix s₃ (b'q' ∷ b'=' ∷ []))) refl (
            if-cong (less (expect_quality f (drop 2 s₃)).0 zero_) refl (
              ap (λ r. ((expect_token_slash s).0, (expect_quality f (drop 2 s₃)).0) ∷ r)
                (next_spec-agrees (parse_specs f n) (parse_specs f m)
                  (expect_quality f (drop 2 s₃)).1
                  (λ t l.
                    shorter t (
                      omega (arith, expect_quality-le (drop 2 s₃), drop-le 2 s₃, drop-le 1 s₂)))))))
          (ap (λ r. ((expect_token_slash s).0, one) ∷ r)
            (next_spec-agrees (parse_specs f n) (parse_specs f m) s₂
              (λ t l. shorter t (omega arith)))))

-- Any fuel above the length of a header value gives the specs that `parseAccept` reads from it: the
-- rounds end before the fuel does.
pub parse_specs-enough :
    (f : Floats) (fuel : ℕ) (s : Bytes)
    → length s < fuel
    → parse_specs f fuel s ≡ parse_specs f (suc (length s)) s
parse_specs-enough f fuel s h = rounds-agree f fuel (suc (length s)) s h (omega arith)
