-- ===== src/Negotiate/Chosen.antt =====
-- What larking/negotiate.go may answer: an offer that the header accepts, or the default.
use mathlib.Core.List.{Memᴰ}
use larking.Base.{
  Bool, true, false, ◌&&◌, List, [], ◌∷◌, ◌≡◌, refl, ◌⊎◌, inl, inr, Bool-cases, if◌then◌else◌,
  Bytes, codes, beq, beq_iff, has_suffix, arith,
}
use larking.Negotiate.Accept.{Floats, Spec, parse_accept}
use larking.Negotiate.Choose.{
  Best, any_type, names_family, improves, type_step, type_specs, type_offers,
  negotiate_content_type,
}

-- The media range `value` covers the type `offer`.
abbrev pub Covers : Bytes → Bytes → Type 0
Covers value offer =
    (value ≡ any_type)
    ⊎ ((has_suffix value (codes "/*") ≡ true) × (names_family value offer ≡ true))
    ⊎ (value ≡ offer)

module _ (f : Floats) where
  open f use {Float, less, is_zero, zero_, one, minus_one, add_ratio}

  -- The default, or an offer that a spec with a quality other than 0 covers.
  pub data TypeAnswer (specs : List (Spec f)) (offers : List Bytes) (default_offer : Bytes)
      : Bytes → Type 0 where
    by_default : TypeAnswer specs offers default_offer default_offer
    by_spec :
        {offer : Bytes} (spec : Spec f)
        → Memᴰ offer offers
        → Memᴰ spec specs
        → is_zero spec.1 ≡ false
        → Covers spec.0 offer
        → TypeAnswer specs offers default_offer offer

  module _ (specs : List (Spec f)) (offers : List Bytes) (default_offer : Bytes) where
    abbrev Answered : Best f → Type 0
    Answered best = TypeAnswer specs offers default_offer best.offer

    keep_or :
        (b : Bool) (x y : Best f)
        → (b ≡ true → Answered x)
        → Answered y
        → Answered (if b then x else y)
    keep_or true x y h k = h refl
    keep_or false x y h k = k

    type_step-Answered :
        (offer : Bytes) (best : Best f) (spec : Spec f)
        → Memᴰ offer offers
        → Memᴰ spec specs
        → Answered best
        → Answered (type_step f offer best spec)
    unfolding type_step
    type_step-Answered offer best spec m n a = elim (Bool-cases (is_zero spec.1)) [
      | inl zero ↦ rw (zero, type_step) a
      | inr weight ↦
          rw (weight, type_step)
            (keep_or (less spec.1 best.q) _ _ (λ _. a)
              (keep_or (beq spec.0 any_type) _ _
                (λ e.
                  keep_or (improves f best spec 2) _ _
                    (λ _. by_spec spec m n weight (inl ((beq_iff spec.0 any_type).0 e))) a)
                (keep_or (has_suffix spec.0 (codes "/*")) _ _
                  (λ e.
                    keep_or (names_family spec.0 offer && improves f best spec 1) _ _
                      (λ h. by_spec spec m n weight (inr (inl (e, ground arith)))) a)
                  (keep_or (beq spec.0 offer && improves f best spec 0) _ _
                    (λ h.
                      by_spec spec m n weight (inr (inr ((beq_iff spec.0 offer).0 (ground arith)))))
                    a))))
    ]

    type_specs-Answered :
        (offer : Bytes) (best : Best f) (rest : List (Spec f))
        → Memᴰ offer offers
        → ((s : Spec f) → Memᴰ s rest → Memᴰ s specs)
        → Answered best
        → Answered (type_specs f offer best rest)
    unfolding type_specs
    type_specs-Answered offer best [] m n a = a
    type_specs-Answered offer best (spec ∷ rest) m n a =
        type_specs-Answered offer (type_step f offer best spec) rest m (λ s k. n s (Memᴰ.tail k))
          (type_step-Answered offer best spec m (n spec (Memᴰ.head refl)) a)

    type_offers-Answered :
        (best : Best f) (rest : List Bytes)
        → ((o : Bytes) → Memᴰ o rest → Memᴰ o offers)
        → Answered best
        → Answered (type_offers f specs best rest)
    unfolding type_offers
    type_offers-Answered best [] n a = a
    type_offers-Answered best (offer ∷ rest) n a =
        type_offers-Answered (type_specs f offer best specs) rest (λ o k. n o (Memᴰ.tail k))
          (type_specs-Answered offer best specs (n offer (Memᴰ.head refl)) (λ s k. k) a)

-- The content type that is chosen is the default, or one of the offers that a media range of the
-- Accept header covers with a quality other than 0.
pub negotiate_content_type_answer :
    (f : Floats) (header offers : List Bytes) (default_offer : Bytes)
    → TypeAnswer f
        (parse_accept f header)
        offers
        default_offer
        (negotiate_content_type f header offers default_offer)
unfolding negotiate_content_type
negotiate_content_type_answer f header offers default_offer =
    type_offers-Answered f (parse_accept f header) offers default_offer _ offers (λ o k. k)
      by_default
