-- ===== src/Negotiate/Choose.antt =====
-- `negotiateContentEncoding` and `negotiateContentType` of larking/negotiate.go.
use larking.Base.{
  ℕ, ◌-◌, Bool, ◌&&◌, ◌||◌, List, [], ◌∷◌, ltb, if◌then◌else◌, Bytes, codes, length, take, beq,
  has_prefix, has_suffix,
}
use larking.Negotiate.Accept.{Floats, Spec, parse_accept}

-- spec.Value == "*" || spec.Value == offer
unfoldable pub names_encoding : Bytes → Bytes → Bool
names_encoding value offer = beq value (codes "*") || beq value offer

abbrev pub any_type : Bytes
any_type = codes "*/*"

-- strings.HasPrefix(offer, spec.Value[:len(spec.Value)-1])
abbrev pub names_family : Bytes → Bytes → Bool
names_family value offer = has_prefix offer (take (length value - 1) value)

module _ (f : Floats) where
  open f use {Float, less, is_zero, zero_, one, minus_one, add_ratio}

  -- bestOffer, bestQ and bestWild: 2 for a match by any type, 1 by any subtype, 0 by the type itself.
  pub record Best : Type 0 where
    pub offer : Bytes
    pub q : Float
    pub wild : ℕ

  unfoldable pub encoding_step : Bytes → Best → Spec f → Best
  unfolding names_encoding
  encoding_step offer best spec =
      if less best.q spec.1 && names_encoding spec.0 offer
      then record best { offer = offer; q = spec.1 }
      else best

  unfoldable pub encoding_specs : Bytes → Best → List (Spec f) → Best
  unfolding encoding_step
  encoding_specs offer best [] = best
  encoding_specs offer best (spec ∷ specs) =
      encoding_specs offer (encoding_step offer best spec) specs

  unfoldable pub encoding_offers : List (Spec f) → Best → List Bytes → Best
  unfolding encoding_specs
  encoding_offers specs best [] = best
  encoding_offers specs best (offer ∷ offers) =
      encoding_offers specs (encoding_specs offer best specs) offers

  unfoldable pub negotiate_content_encoding : List Bytes → List Bytes → Bytes
  unfolding encoding_offers parse_accept
  negotiate_content_encoding header offers =
      let start : Best = record { offer = codes "identity"; q = minus_one; wild = 0 } in
      let best = encoding_offers (parse_accept f header) start offers in
      if is_zero best.q then [] else best.offer

  abbrev pub improves : Best → Spec f → ℕ → Bool
  improves best spec wild = less best.q spec.1 || ltb wild best.wild

  unfoldable pub type_step : Bytes → Best → Spec f → Best
  type_step offer best spec =
      if is_zero spec.1
      then best
      else if less spec.1 best.q
      then best
      else if beq spec.0 any_type
      then (if improves best spec 2 then record { offer = offer; q = spec.1; wild = 2 } else best)
      else if has_suffix spec.0 (codes "/*")
      then (if names_family spec.0 offer && improves best spec 1
          then record { offer = offer; q = spec.1; wild = 1 }
          else best)
      else if beq spec.0 offer && improves best spec 0
      then record { offer = offer; q = spec.1; wild = 0 }
      else best

  unfoldable pub type_specs : Bytes → Best → List (Spec f) → Best
  unfolding type_step
  type_specs offer best [] = best
  type_specs offer best (spec ∷ specs) = type_specs offer (type_step offer best spec) specs

  unfoldable pub type_offers : List (Spec f) → Best → List Bytes → Best
  unfolding type_specs
  type_offers specs best [] = best
  type_offers specs best (offer ∷ offers) = type_offers specs (type_specs offer best specs) offers

  unfoldable pub negotiate_content_type : List Bytes → List Bytes → Bytes → Bytes
  unfolding type_offers parse_accept
  negotiate_content_type header offers default_offer =
      let start : Best = record { offer = default_offer; q = minus_one; wild = 3 } in
      (type_offers (parse_accept f header) start offers).offer
