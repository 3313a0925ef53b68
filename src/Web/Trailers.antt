-- ===== src/Web/Trailers.antt =====
-- The trailers that `writeTrailer` of larking/web.go sends.
use larking.Base.{
  Bool, sym, ap, codes, has_prefix, not, ◌&&◌, true, false, Option, none, some, List, [], ◌∷◌, ◌≡◌,
  refl, ◌∙◌, Bytes, beq, beq_iff, if◌then◌else◌, Bool-cases, inl, inr,
}
use larking.Rules.Tree.{lookup, insert}
use larking.Mux.Removal.{lookup-insert}
use larking.Grpc.Headers.{Header, any_eq}
use larking.Mux.Options.{keys}
use larking.Web.Writer.{WebWriter, trailer_prefix, trailer_key, trailer_from, write}
use larking.Web.TrailerNames.{IsTrailerName, IsTrailerName-trailer_key, seen-write}

-- No other key of the header has the name of `k` as a trailer, and `k` stands in it once.
abbrev pub IsAlone : Bytes → Header → Type 0
IsAlone k [] = Unit
IsAlone k ((j, vs) ∷ h) =
    (beq (trailer_key j) (trailer_key k) ≡ beq j k)
    × (beq j k ≡ true → lookup k h ≡ none)
    × IsAlone k h

abbrev or_else : Option (List Bytes) → Option (List Bytes) → Option (List Bytes)
or_else none o = o
or_else (some vs) o = some vs

or_else-none : (o : Option (List Bytes)) → or_else o none ≡ o
or_else-none none = refl
or_else-none (some vs) = refl

trailer_from-end : (seen : List Bytes) (tr : Header) → trailer_from seen tr [] ≡ tr
unfolding trailer_from
trailer_from-end seen tr = refl

trailer_from-step :
    (seen : List Bytes) (tr : Header) (j : Bytes) (vs : List Bytes) (hdr : Header)
    → trailer_from seen tr ((j, vs) ∷ hdr) ≡ (
        if any_eq j seen
        then trailer_from seen tr hdr
        else trailer_from seen (insert (trailer_key j) vs tr) hdr)
unfolding trailer_from
trailer_from-step seen tr j vs hdr = refl

lookup-step :
    (k j : Bytes) (vs : List Bytes) (h : Header)
    → lookup k ((j, vs) ∷ h) ≡ (if beq j k then some vs else lookup k h)
unfolding lookup
lookup-step k j vs h = refl

lookup-end : (k : Bytes) → lookup {V = List Bytes} k [] ≡ none
unfolding lookup
lookup-end k = refl

-- An unseen key is added to the trailers.
trailer_from-unseen :
    (k : Bytes) (seen : List Bytes) (tr hdr : Header)
    → any_eq k seen ≡ false
    → IsAlone k hdr
    → lookup (trailer_key k) (trailer_from seen tr hdr)
      ≡ or_else (lookup k hdr) (lookup (trailer_key k) tr)
trailer_from-unseen k seen tr [] fresh alone = rw (trailer_from-end seen tr, lookup-end k) refl
trailer_from-unseen k seen tr ((j, vs) ∷ hdr) fresh (name, once, alone) =
    let put = lookup-insert (trailer_key k) (trailer_key j) vs tr in
    rw (trailer_from-step seen tr j vs hdr, lookup-step k j vs hdr)
      (elim (Bool-cases (beq j k)) [
        | inl same ↦
            let unseen : any_eq j seen ≡ false = rw ((beq_iff j k).0 same) fresh in
            rw (unseen, same)
              (trailer_from-unseen k seen (insert (trailer_key j) vs tr) hdr fresh alone
                ∙ rw (once same, put, name, same) refl)
        | inr other ↦ elim (Bool-cases (any_eq j seen)) [
          | inl old ↦ rw (other, old) (trailer_from-unseen k seen tr hdr fresh alone)
          | inr new ↦
              rw (other, new)
                (trailer_from-unseen k seen (insert (trailer_key j) vs tr) hdr fresh alone
                  ∙ rw (put, name, other) refl)
        ]
      ])

-- A seen key adds nothing.
trailer_from-seen :
    (k : Bytes) (seen : List Bytes) (tr hdr : Header)
    → any_eq k seen ≡ true
    → IsAlone k hdr
    → lookup (trailer_key k) (trailer_from seen tr hdr) ≡ lookup (trailer_key k) tr
trailer_from-seen k seen tr [] old alone = rw (trailer_from-end seen tr) refl
trailer_from-seen k seen tr ((j, vs) ∷ hdr) old (name, once, alone) =
    let put = lookup-insert (trailer_key k) (trailer_key j) vs tr in
    rw (trailer_from-step seen tr j vs hdr) (elim (Bool-cases (any_eq j seen)) [
      | inl known ↦ rw known (trailer_from-seen k seen tr hdr old alone)
      | inr new ↦
          let other : beq j k ≡ false = elim (Bool-cases (beq j k)) [
            | inl same ↦ let known : any_eq j seen ≡ true = rw ((beq_iff j k).0 same) old in cc
            | inr e ↦ e
          ] in
          rw new (
            trailer_from-seen k seen (insert (trailer_key j) vs tr) hdr old alone
            ∙ rw (put, name, other) refl)
    ])

seen-value :
    (k : Bytes) (seen : List Bytes) (hdr : Header)
    → IsAlone k hdr
    → lookup (trailer_key k) (trailer_from seen [] hdr)
      ≡ (if any_eq k seen then none else lookup k hdr)
seen-value k seen hdr alone = elim (Bool-cases (any_eq k seen)) [
  | inl old ↦ rw old (trailer_from-seen k seen [] hdr old alone ∙ lookup-end (trailer_key k))
  | inr fresh ↦ rw fresh (
      trailer_from-unseen k seen [] hdr fresh alone
      ∙ rw (lookup-end (trailer_key k)) (or_else-none (lookup k hdr)))
]

-- Of a response whose headers end as `hdr`, `writeTrailer` sends each as a trailer under its name in
-- lower case and without the prefix of trailers, but for a header that the first write, of any bytes,
-- saw: its type, or a header that was there and has no such prefix. If `hdr` has the header once, and no other of
-- its keys has that name.
pub trailer-value :
    (typ enc : Bytes) (write_fails : Bytes → Bool) (k n b : Bytes) (w : WebWriter) (hdr : Header)
    → IsTrailerName k n
    → IsAlone k hdr
    → w.wrote_header ≡ false
    → lookup n (trailer_from (write typ enc write_fails b w).1.seen_headers [] hdr) ≡ (
        if not (has_prefix k trailer_prefix) && any_eq k (codes "Content-Type" ∷ keys w.header)
        then none
        else lookup k hdr)
trailer-value typ enc write_fails k n b w hdr name alone unsent =
    let seen = (write typ enc write_fails b w).1.seen_headers in
    ap (λ j. lookup j (trailer_from seen [] hdr)) (sym (IsTrailerName-trailer_key name))
    ∙ seen-value k seen hdr alone
    ∙ ap (λ x. if x then none else lookup k hdr) (seen-write typ enc write_fails k b w unsent)
