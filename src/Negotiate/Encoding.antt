-- ===== src/Negotiate/Encoding.antt =====
-- What `negotiateContentEncoding` of larking/negotiate.go may answer.
use mathlib.Core.List.{Memᴰ}
use larking.Base.{
  Bool, true, false, ◌&&◌, List, [], ◌∷◌, ◌≡◌, refl, ◌⊎◌, inl, inr, Bool-cases, if◌then◌else◌,
  Bytes, codes, beq, beq_iff, arith,
}
use larking.Negotiate.Accept.{Floats, Spec, parse_accept}
use larking.Negotiate.Choose.{
  Best, names_encoding, encoding_step, encoding_specs, encoding_offers, negotiate_content_encoding,
}

module _ (f : Floats) where
  open f use {Float, less, is_zero, minus_one}

  -- No spec took, or the spec of this quality names the offer.
  data Leads (specs : List (Spec f)) (offers : List Bytes) : Bytes → Float → Type 0 where
    at_start : Leads specs offers (codes "identity") minus_one
    by_spec :
        {offer : Bytes} (spec : Spec f)
        → Memᴰ offer offers
        → Memᴰ spec specs
        → (spec.0 ≡ codes "*") ⊎ (spec.0 ≡ offer)
        → Leads specs offers offer spec.1

  -- "", "identity", or an offer that a spec with a quality other than 0 names.
  pub data EncodingAnswer (specs : List (Spec f)) (offers : List Bytes) : Bytes → Type 0 where
    unacceptable : EncodingAnswer specs offers []
    no_encoding : EncodingAnswer specs offers (codes "identity")
    encoding :
        {offer : Bytes} (spec : Spec f)
        → Memᴰ offer offers
        → Memᴰ spec specs
        → is_zero spec.1 ≡ false
        → (spec.0 ≡ codes "*") ⊎ (spec.0 ≡ offer)
        → EncodingAnswer specs offers offer

  names :
      (value offer : Bytes)
      → names_encoding value offer ≡ true
      → (value ≡ codes "*") ⊎ (value ≡ offer)
  unfolding names_encoding
  names value offer h = elim (Bool-cases (beq value (codes "*"))) [
    | inl any ↦ inl ((beq_iff value (codes "*")).0 any)
    | inr other ↦ inr ((beq_iff value offer).0 (ground arith))
  ]

  module _ (specs : List (Spec f)) (offers : List Bytes) where
    abbrev Led : Best f → Type 0
    Led best = Leads specs offers best.offer best.q

    encoding_step-Led :
        (offer : Bytes) (best : Best f) (spec : Spec f)
        → Memᴰ offer offers
        → Memᴰ spec specs
        → Led best
        → Led (encoding_step f offer best spec)
    unfolding encoding_step
    encoding_step-Led offer best spec m n a =
        go (less best.q spec.1) (names_encoding spec.0 offer) (names spec.0 offer)
      where
        go :
            (b c : Bool)
            → (c ≡ true → (spec.0 ≡ codes "*") ⊎ (spec.0 ≡ offer))
            → Led (if b && c then record best { offer = offer; q = spec.1 } else best)
        go true true h = by_spec spec m n (h refl)
        go true false h = a
        go false c h = a

    encoding_specs-Led :
        (offer : Bytes) (best : Best f) (rest : List (Spec f))
        → Memᴰ offer offers
        → ((s : Spec f) → Memᴰ s rest → Memᴰ s specs)
        → Led best
        → Led (encoding_specs f offer best rest)
    unfolding encoding_specs
    encoding_specs-Led offer best [] m n a = a
    encoding_specs-Led offer best (spec ∷ rest) m n a =
        encoding_specs-Led offer (encoding_step f offer best spec) rest m (λ s k. n s (Memᴰ.tail k))
          (encoding_step-Led offer best spec m (n spec (Memᴰ.head refl)) a)

    encoding_offers-Led :
        (best : Best f) (rest : List Bytes)
        → ((o : Bytes) → Memᴰ o rest → Memᴰ o offers)
        → Led best
        → Led (encoding_offers f specs best rest)
    unfolding encoding_offers
    encoding_offers-Led best [] n a = a
    encoding_offers-Led best (offer ∷ rest) n a =
        encoding_offers-Led (encoding_specs f offer best specs) rest (λ o k. n o (Memᴰ.tail k))
          (encoding_specs-Led offer best specs (n offer (Memᴰ.head refl)) (λ s k. k) a)

    answer_of :
        {offer : Bytes} {q : Float}
        → Leads specs offers offer q
        → EncodingAnswer specs offers (if is_zero q then [] else offer)
    answer_of at_start = elim (Bool-cases (is_zero minus_one)) [
      | inl none ↦ rw none unacceptable
      | inr some ↦ rw some no_encoding
    ]
    answer_of (by_spec spec m n h) = elim (Bool-cases (is_zero spec.1)) [
      | inl none ↦ rw none unacceptable
      | inr some ↦ rw some (encoding spec m n some h)
    ]

-- The content encoding that is chosen is "", "identity", or one of the offers that the
-- Accept-Encoding header names, or covers by "*", with a quality other than 0.
pub negotiate_content_encoding_answer :
    (f : Floats) (header offers : List Bytes)
    → EncodingAnswer f (parse_accept f header) offers (negotiate_content_encoding f header offers)
unfolding negotiate_content_encoding
negotiate_content_encoding_answer f header offers =
    answer_of f (parse_accept f header) offers
      (encoding_offers-Led f (parse_accept f header) offers _ offers (λ o k. k) at_start)
