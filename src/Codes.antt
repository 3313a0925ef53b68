-- ===== src/Codes.antt =====
-- larking/code.go: the tables from gRPC codes to HTTP and WebSocket statuses.
use larking.Base.{
  ℕ, zero, suc, ◌≡◌, ◌↔◌, ◌≤◌, refl, Option, none, some, List, [], ◌∷◌, arith, ltb, ltb→lt,
  Bool-cases, inl, inr, if◌then◌else◌, length, get_elem?,
}

abbrev pub code_to_http_status : List ℕ
code_to_http_status =
    200 ∷ 408 ∷ 500 ∷ 400 ∷ 504 ∷ 404 ∷ 409 ∷ 403 ∷ 429 ∷ 400 ∷ 409 ∷ 400 ∷ 501 ∷ 500 ∷ 503 ∷ 500
    ∷ 401 ∷ []

-- `none` is an index out of range, which panics.
unfoldable pub http_status_code : ℕ → Option ℕ
http_status_code c =
    if ltb (length code_to_http_status) c then some 500 else get_elem? code_to_http_status c

-- The statuses of package ws: 1000 normal closure, 1001 going away, 1003 unsupported data, 1008
-- policy violation, 1011 internal server error.
abbrev pub code_to_ws_status : List ℕ
code_to_ws_status =
    1000 ∷ 1001 ∷ 1011 ∷ 1003 ∷ 1001 ∷ 1011 ∷ 1001 ∷ 1011 ∷ 1011 ∷ 1011 ∷ 1011 ∷ 1011 ∷ 1003 ∷ 1011
    ∷ 1011 ∷ 1011 ∷ 1008 ∷ []

unfoldable pub ws_status_code : ℕ → Option ℕ
ws_status_code c =
    if ltb (length code_to_http_status) c then some 1011 else get_elem? code_to_ws_status c

get_elem?-none_iff {ℓ} :
    {A : Type ℓ} (xs : List A) (i : ℕ) → (get_elem? xs i ≡ none) ↔ (length xs ≤ i)
get_elem?-none_iff [] i = ground arith
get_elem?-none_iff (x ∷ xs) zero = ((λ e. cc), (λ h. absurd (omega arith)))
get_elem?-none_iff (x ∷ xs) (suc i) = (
  (λ e. omega (arith, (get_elem?-none_iff xs i).0 e)),
  (λ h. (get_elem?-none_iff xs i).1 (omega arith)),
)

guarded-none_iff :
    (xs : List ℕ) (n other c : ℕ)
    → length xs ≡ n
    → ((if ltb n c then some other else get_elem? xs c) ≡ none) ↔ (c ≡ n)
guarded-none_iff xs n other c h = elim (Bool-cases (ltb n c)) [
  | inl past ↦ rw past ((λ e. cc), (λ e. absurd (omega (arith, ltb→lt n c past))))
  | inr within ↦ rw within (
    (λ e. let l = (get_elem?-none_iff xs c).0 e in ground arith),
    (λ e. (get_elem?-none_iff xs c).1 (omega arith)),
  )
]

-- The guard lets one code too many through: both conversions panic at code 17, and at no other.
pub status_panics_iff :
    (c : ℕ) → ((http_status_code c ≡ none) ↔ (c ≡ 17)) × ((ws_status_code c ≡ none) ↔ (c ≡ 17))
unfolding http_status_code ws_status_code
status_panics_iff c = (
  guarded-none_iff code_to_http_status 17 500 c refl,
  guarded-none_iff code_to_ws_status 17 1011 c refl,
)
