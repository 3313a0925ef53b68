-- ===== src/Codec/GrowcapBounds.antt =====
-- The capacity that `growcap` of larking/codec.go gives is enough.
use larking.Base.{
  ℕ, zero, suc, ◌+◌, ◌*◌, ◌/◌, ◌%◌, ◌^◌, ◌≤◌, ◌<◌, ◌≡◌, refl, false, ◌&&◌, ltb, ltb→lt,
  if◌then◌else◌, Bool-cases, inl, inr, ◌⊎◌, arith,
}
use larking.Codec.Growcap.{signed_lt, grow_from, growcap}

in_loop :
    (c want : ℕ)
    → 4 ≤ c
    → c < 2 ^ 63
    → want < 2 ^ 63
    → (signed_lt 0 c && signed_lt c want) ≡ ltb c want
in_loop c want l h w = ground arith

negative_stops : (fuel want c : ℕ) → 2 ^ 63 ≤ c → c < 2 ^ 64 → grow_from fuel want c ≡ c
unfolding grow_from
negative_stops zero want c l h = refl
negative_stops (suc fuel) want c l h =
    let stop : signed_lt 0 c ≡ false = ground arith in rw stop refl

-- A loop that starts above 3 ends at a negative capacity, or at one that is enough.
grow_from-ge :
    (fuel want c : ℕ)
    → 4 ≤ c
    → c < 2 ^ 63
    → want < 2 ^ 63
    → want < c + fuel
    → ((2 ^ 63 ≤ grow_from fuel want c) ⊎ (want ≤ grow_from fuel want c))
      × (c ≤ grow_from fuel want c)
      × (grow_from fuel want c < 2 ^ 64)
unfolding grow_from
grow_from-ge zero want c l h w f = (inr (omega arith), omega arith, omega arith)
grow_from-ge (suc fuel) want c l h w f = elim (Bool-cases (ltb c want)) [
  | inr enough ↦ rw (in_loop c want l h w, enough) (inr (ground arith), omega arith, omega arith)
  | inl short ↦
      rw (in_loop c want l h w, short)
        (elim (Bool-cases (ltb ((c + c / 4) % 2 ^ 64) (2 ^ 63))) [
          | inl fits ↦
              let small : (c + c / 4) % 2 ^ 64 < 2 ^ 63 = ltb→lt _ _ fits in
              let (p, q, r) =
                grow_from-ge fuel want ((c + c / 4) % 2 ^ 64) (omega arith) small w (omega arith) in
              (p, omega arith, r)
          | inr wraps ↦
              let big : 2 ^ 63 ≤ (c + c / 4) % 2 ^ 64 = ground arith in
              rw (negative_stops fuel want ((c + c / 4) % 2 ^ 64) big (omega arith))
                (inl big, omega arith, omega arith)
        ])
]

-- A capacity that `growcap` gives is at least the one that is wanted, and no negative int, whatever
-- overflows on the way.
pub growcap_bounds :
    (old want : ℕ)
    → old < 2 ^ 63
    → want < 2 ^ 63
    → (want ≤ growcap old want) × (growcap old want < 2 ^ 63)
unfolding growcap
growcap_bounds old want h w = elim (Bool-cases (signed_lt (old * 2 % 2 ^ 64) want)) [
  | inl jump ↦ rw jump (omega arith, w)
  | inr near ↦ elim (Bool-cases (signed_lt old 1024)) [
    | inl small ↦ rw (near, small) (ground arith, ground arith)
    | inr large ↦
        rw (near, large)
          (last_step (grow_from want want old)
            (grow_from-ge want want old (ground arith) h w (ground arith)))
  ]
]
  where
    last_step :
        (c : ℕ)
        → ((2 ^ 63 ≤ c) ⊎ (want ≤ c)) × (old ≤ c) × (c < 2 ^ 64)
        → (want ≤ (if signed_lt 0 c then c else want))
          × ((if signed_lt 0 c then c else want) < 2 ^ 63)
    last_step c e = ground arith
