-- ===== src/Web/TrailerNames.antt =====
-- The names of trailers, and the headers that a webWriter of larking/web.go sees at its first write.
use larking.Base.{
  ◌<◌, ℕ, Bool, true, false, List, [], ◌∷◌, ◌++◌, ◌≡◌, ◌≤◌, ◌+◌, refl, ap, ◌∙◌, Bytes, codes, beq,
  beq_iff, has_prefix, not, ◌&&◌, map, Bool-cases, inl, inr, arith,
}
use larking.Rules.Tree.{insert}
use larking.Mux.Options.{keys}
use larking.Grpc.Headers.{Header, any_eq, to_lower}
use larking.Web.Writer.{
  WebWriter, trailer_prefix, not_trailers, trim_prefix, trailer_key, see_headers, respond, write,
}

-- A text with its letters in lower case.
pub data IsLowered : Bytes → Bytes → Type 0 where
  end : IsLowered [] []
  upper :
      {c : ℕ} {s t : Bytes} → b'A' ≤ c → c ≤ b'Z' → IsLowered s t → IsLowered (c ∷ s) ((c + 32) ∷ t)
  below : {c : ℕ} {s t : Bytes} → c < b'A' → IsLowered s t → IsLowered (c ∷ s) (c ∷ t)
  above : {c : ℕ} {s t : Bytes} → b'Z' < c → IsLowered s t → IsLowered (c ∷ s) (c ∷ t)

-- The name that a header has as a trailer.
pub data IsTrailerName : Bytes → Bytes → Type 0 where
  prefixed : {s t : Bytes} → IsLowered s t → IsTrailerName (codes "Trailer:" ++ s) t
  bare : {s t : Bytes} → has_prefix s (codes "Trailer:") ≡ false → IsLowered s t → IsTrailerName s t

IsLowered-to_lower : {s t : Bytes} → IsLowered s t → map to_lower s ≡ t
unfolding to_lower
IsLowered-to_lower end = refl
IsLowered-to_lower (upper {c} {s} h k l) =
    let e : to_lower c ≡ c + 32 = ground arith in
    ap (λ d. d ∷ map to_lower s) e ∙ ap (λ u. (c + 32) ∷ u) (IsLowered-to_lower l)
IsLowered-to_lower (below {c} {s} h l) =
    let e : to_lower c ≡ c = ground arith in
    ap (λ d. d ∷ map to_lower s) e ∙ ap (λ u. c ∷ u) (IsLowered-to_lower l)
IsLowered-to_lower (above {c} {s} h l) =
    let e : to_lower c ≡ c = ground arith in
    ap (λ d. d ∷ map to_lower s) e ∙ ap (λ u. c ∷ u) (IsLowered-to_lower l)

pub IsTrailerName-trailer_key : {k n : Bytes} → IsTrailerName k n → trailer_key k ≡ n
unfolding trailer_key trim_prefix has_prefix
IsTrailerName-trailer_key (prefixed l) = IsLowered-to_lower l
IsTrailerName-trailer_key (bare {s} h l) = rw (h, trailer_key, trim_prefix) (IsLowered-to_lower l)

any_eq-insert :
    (k j : Bytes) (v : List Bytes) (h : Header)
    → any_eq k (keys (insert j v h)) ≡ any_eq k (j ∷ keys h)
unfolding any_eq keys insert
any_eq-insert k j v [] = refl
any_eq-insert k j v ((i, w) ∷ h) = elim (Bool-cases (beq i j)) [
  | inl same ↦ elim (Bool-cases (beq k j)) [
    | inl here ↦
        let f : beq k i ≡ true = rw ((beq_iff i j).0 same) here in
        rw (same, here, f, insert, any_eq) refl
    | inr there ↦
        let f : beq k i ≡ false = rw ((beq_iff i j).0 same) there in
        rw (same, there, f, insert, any_eq) refl
  ]
  | inr other ↦ elim (Bool-cases (beq k i)) [
    | inl here ↦
        rw (other, here, insert, any_eq)
          (elim (Bool-cases (beq k j)) [ inl e ↦ rw e refl | inr e ↦ rw e refl ])
    | inr there ↦ rw (other, there, insert, any_eq) (any_eq-insert k j v h)
  ]
]

any_eq-not_trailers :
    (k : Bytes) (ks : List Bytes)
    → any_eq k (not_trailers ks) ≡ (not (has_prefix k trailer_prefix) && any_eq k ks)
unfolding any_eq not_trailers
any_eq-not_trailers k [] = elim (Bool-cases (has_prefix k trailer_prefix)) [
  | inl e ↦ rw e refl
  | inr e ↦ rw e refl
]
any_eq-not_trailers k (j ∷ js) = elim (Bool-cases (beq k j)) [
  | inl here ↦
      let same : k ≡ j = (beq_iff k j).0 here in
      elim (Bool-cases (has_prefix k trailer_prefix)) [
        | inl e ↦
            let f : has_prefix j trailer_prefix ≡ true = rw⁻¹ same e in
            rw (f, e, not_trailers) (any_eq-not_trailers k js ∙ rw e refl)
        | inr e ↦
            let f : has_prefix j trailer_prefix ≡ false = rw⁻¹ same e in
            rw (f, e, here, not_trailers, any_eq) refl
      ]
  | inr there ↦ elim (Bool-cases (has_prefix j trailer_prefix)) [
    | inl e ↦ rw (e, there, not_trailers, any_eq) (any_eq-not_trailers k js)
    | inr e ↦ rw (e, there, not_trailers, any_eq) (any_eq-not_trailers k js)
  ]
]

module _ (typ enc : Bytes) (write_fails : Bytes → Bool) where
  -- The first write sees the headers of the response and its type, but for those that are named as trailers.
  pub seen-write :
      (k b : Bytes) (w : WebWriter)
      → w.wrote_header ≡ false
      → any_eq k (write typ enc write_fails b w).1.seen_headers
        ≡ (not (has_prefix k trailer_prefix) && any_eq k (codes "Content-Type" ∷ keys w.header))
  unfolding write see_headers respond
  seen-write k b w unsent = elim (Bool-cases (write_fails b)) [
    | inl e ↦ rw (unsent, e, write, respond) seen
    | inr e ↦ rw (unsent, e, write, respond) seen
  ]
    where
      seen :
          any_eq k (
            not_trailers (keys (insert (codes "Content-Type") ((typ ++ b'+' ∷ enc) ∷ []) w.header)))
          ≡ (not (has_prefix k trailer_prefix) && any_eq k (codes "Content-Type" ∷ keys w.header))
      seen =
          any_eq-not_trailers k _
          ∙ ap (λ b. not (has_prefix k trailer_prefix) && b)
              (any_eq-insert k (codes "Content-Type") ((typ ++ b'+' ∷ enc) ∷ []) w.header)
