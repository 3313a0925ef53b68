-- ===== src/Io/Fulfils.antt =====
-- io.ReadFull reads what it wants, if enough comes and no read fails.
use larking.Base.{
  ℕ, zero, suc, ◌+◌, ◌-◌, ◌<◌, ◌≤◌, ◌≡◌, refl, sym, ◌∙◌, ap, none, some, [], ◌∷◌, ◌++◌,
  append_assoc, List, Bytes, length, length-append, take, drop, ltb, ltb→lt, Bool-cases, inl, inr,
  arith,
}
use larking.Io.{Reader, received, AllRead, Full, full, read_full}

-- The bytes `got` and then `d` have come, `n` of the latter are taken, and no byte is lost.
pub data Fulfils (got d : Bytes) (n : ℕ) : Full → Type 0 where
  fulfils :
      {x : Bytes} {r : Reader}
      → x ++ received r ≡ got ++ d
      → length x ≡ length got + n
      → AllRead r
      → Fulfils got d n (full x r)

pub take-drop : {A : Type 0} (n : ℕ) (xs : List A) → take n xs ++ drop n xs ≡ xs
take-drop zero xs = refl
take-drop (suc n) [] = refl
take-drop (suc n) (x ∷ xs) = ap (λ t. x ∷ t) (take-drop n xs)

length-take : {A : Type 0} (n : ℕ) (xs : List A) → n ≤ length xs → length (take n xs) ≡ n
length-take zero xs h = refl
length-take (suc n) [] h = absurd (omega arith)
length-take (suc n) (x ∷ xs) h = omega (arith, length-take n xs (omega arith))

pub read_full-Fulfils :
    (n : ℕ) (got : Bytes) (r : Reader)
    → AllRead r
    → n ≤ length (received r)
    → Fulfils got (received r) n (read_full n got r)
unfolding read_full
read_full-Fulfils zero got r a h = fulfils refl (omega arith) a
read_full-Fulfils (suc n) got [] a h = absurd (omega arith)
read_full-Fulfils (suc n) got ((chunk, some x) ∷ r) a h = elim a [ ]
read_full-Fulfils (suc n) got ((chunk, none) ∷ r) a h =
    elim (Bool-cases (ltb (length chunk) (suc n))) [
      | inl less ↦
          let total = length-append chunk (received r) in
          let l : length chunk < suc n = ltb→lt _ _ less in
          rw less
            (further l (read_full-Fulfils (suc n - length chunk) (got ++ chunk) r a (omega arith)))
      | inr enough ↦
          let l : suc n ≤ length chunk = ground arith in
          rw enough (
            fulfils
              (append_assoc got (take (suc n) chunk) (drop (suc n) chunk ++ received r)
                ∙ ap (λ t. got ++ t)
                    (sym (append_assoc (take (suc n) chunk) (drop (suc n) chunk) (received r))
                      ∙ ap (λ t. t ++ received r) (take-drop (suc n) chunk)))
              (length-append got (take (suc n) chunk)
                ∙ ap (λ k. length got + k) (length-take (suc n) chunk l))
              a)
    ]
  where
    further :
        {x : Full}
        → length chunk < suc n
        → Fulfils (got ++ chunk) (received r) (suc n - length chunk) x
        → Fulfils got (chunk ++ received r) (suc n) x
    further l (fulfils e k a') =
        fulfils (e ∙ append_assoc got chunk (received r))
          (omega (arith, k, length-append got chunk)) a'
