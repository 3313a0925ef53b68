-- ===== src/Codec/JsonText.antt =====
-- A grammar of JSON objects by their braces and strings, and how `ReadNext` of larking/codec.go scans one.
use larking.Base.{
  ℕ, zero, suc, ◌+◌, ◌≢◌, ◌≡◌, refl, ap, ◌∙◌, [], ◌∷◌, ◌++◌, Bytes, length, false, true, arith,
}
use larking.Base.{sym, append_assoc, length-append}
use larking.Codec.Json.{Scan, more, step, start, close_brace}
use larking.Codec.JsonScan.{Verdict, ends, later, json_scan}

-- What stands between the quotes of a string and the quote that ends it: a backslash escapes one byte.
pub data InString : Bytes → Type 0 where
  quote : InString (b'"' ∷ [])
  escape : (c : ℕ) {t : Bytes} → InString t → InString (b'\\' ∷ c ∷ t)
  char : (c : ℕ) {t : Bytes} → c ≢ b'"' → c ≢ b'\\' → InString t → InString (c ∷ t)

-- What stands between the braces of an object: strings, nested braces and other bytes.
pub data Text : Bytes → Type 0 where
  empty : Text []
  plain : (c : ℕ) {t : Bytes} → c ≢ b'{' → c ≢ b'}' → c ≢ b'"' → Text t → Text (c ∷ t)
  quoted : {s t : Bytes} → InString s → Text t → Text (b'"' ∷ (s ++ t))
  nested : {s t : Bytes} → Text s → Text t → Text (b'{' ∷ (s ++ (b'}' ∷ t)))

-- The bytes of one object.
pub data IsObject : Bytes → Type 0 where
  braces : {s : Bytes} → Text s → IsObject (b'{' ∷ (s ++ (b'}' ∷ [])))

-- A verdict that is reached some bytes later.
abbrev laters : ℕ → Verdict → Verdict
laters zero v = v
laters (suc n) v = later (laters n v)

laters-add : (m n : ℕ) (v : Verdict) → laters (m + n) v ≡ laters m (laters n v)
laters-add zero n v = let e : 0 + n ≡ n = omega arith in ap (λ m. laters m v) e
laters-add (suc m) n v =
    let e : suc m + n ≡ suc (m + n) = omega arith in
    ap (λ k. laters k v) e ∙ ap later (laters-add m n v)

-- The scan in an object at a depth of braces, outside of a string and inside of one.
abbrev at_depth : ℕ → Scan
at_depth k = record { braces = suc k; is_string = false; is_escaped = false }

abbrev in_string : ℕ → Scan
in_string k = record { braces = suc k; is_string = true; is_escaped = false }

abbrev in_escape : ℕ → Scan
in_escape k = record { braces = suc k; is_string = true; is_escaped = true }

scan-more :
    {m : ℕ} (n : ℕ) (s s' : Scan) (c : ℕ) (d : Bytes)
    → m ≡ suc n
    → step s c ≡ more s'
    → json_scan m s (c ∷ d) ≡ later (json_scan n s' d)
unfolding json_scan
scan-more n s s' c d h e = rw (h, e, json_scan) refl

step-quote : (k : ℕ) → step (in_string k) b'"' ≡ more (at_depth k)
unfolding step
step-quote k = refl

step-backslash : (k : ℕ) → step (in_string k) b'\\' ≡ more (in_escape k)
unfolding step
step-backslash k = refl

step-escaped : (k c : ℕ) → step (in_escape k) c ≡ more (in_string k)
unfolding step
step-escaped k c = refl

step-char : (k c : ℕ) → c ≢ b'"' → c ≢ b'\\' → step (in_string k) c ≡ more (in_string k)
unfolding step
step-char k c p q = ground arith

step-plain : (k c : ℕ) → c ≢ b'{' → c ≢ b'}' → c ≢ b'"' → step (at_depth k) c ≡ more (at_depth k)
unfolding step
step-plain k c p q r = ground arith

step-open : (k : ℕ) → step (at_depth k) b'{' ≡ more (at_depth (suc k))
unfolding step
step-open k =
    ap (λ n. more (record { braces = n; is_string = false; is_escaped = false })) (omega arith)

step-close : (k : ℕ) → step (at_depth (suc k)) b'}' ≡ more (at_depth k)
unfolding step close_brace
step-close k = refl

step-string : (k : ℕ) → step (at_depth k) b'"' ≡ more (in_string k)
unfolding step
step-string k = refl

InString-json_scan :
    {s : Bytes} (k n : ℕ) (t : Bytes)
    → InString s
    → json_scan (length s + n) (in_string k) (s ++ t)
      ≡ laters (length s) (json_scan n (at_depth k) t)
InString-json_scan k n t quote =
    scan-more n (in_string k) (at_depth k) b'"' t (omega arith) (step-quote k)
InString-json_scan k n t (escape c {t = s} i) =
    scan-more (suc (length s + n)) (in_string k) (in_escape k) b'\\' (c ∷ (s ++ t)) (omega arith)
      (step-backslash k)
    ∙ ap later (
        scan-more (length s + n) (in_escape k) (in_string k) c (s ++ t) (omega arith)
          (step-escaped k c)
        ∙ ap later (InString-json_scan k n t i))
InString-json_scan k n t (char c {t = s} p q i) =
    scan-more (length s + n) (in_string k) (in_string k) c (s ++ t) (omega arith)
      (step-char k c p q)
    ∙ ap later (InString-json_scan k n t i)

-- A scan through two parts, one behind the other.
through :
    (s u t : Bytes) (n : ℕ) (a : Scan) (v w : Verdict)
    → json_scan (length s + (length u + n)) a (s ++ (u ++ t)) ≡ laters (length s) v
    → v ≡ laters (length u) w
    → json_scan (length (s ++ u) + n) a ((s ++ u) ++ t) ≡ laters (length (s ++ u)) w
through s u t n a v w e f =
    rw (length-append s u, append_assoc s u t)
      (ap (λ m. json_scan m a (s ++ (u ++ t))) (omega arith)
        ∙ e
        ∙ ap (laters (length s)) f
        ∙ sym (laters-add (length s) (length u) w))

Text-json_scan :
    {s : Bytes} (k n : ℕ) (t : Bytes)
    → Text s
    → json_scan (length s + n) (at_depth k) (s ++ t)
      ≡ laters (length s) (json_scan n (at_depth k) t)
Text-json_scan k n t empty =
    let e : 0 + n ≡ n = omega arith in ap (λ m. json_scan m (at_depth k) t) e
Text-json_scan k n t (plain c {t = s} p q r i) =
    scan-more (length s + n) (at_depth k) (at_depth k) c (s ++ t) (omega arith)
      (step-plain k c p q r)
    ∙ ap later (Text-json_scan k n t i)
Text-json_scan k n t (quoted {s} {t = u} i j) =
    scan-more (length (s ++ u) + n) (at_depth k) (in_string k) b'"' ((s ++ u) ++ t) (omega arith)
      (step-string k)
    ∙ ap later (
        through s u t n (in_string k) _ _ (InString-json_scan k (length u + n) (u ++ t) i)
          (Text-json_scan k n t j))
Text-json_scan k n t (nested {s} {t = u} i j) =
    scan-more (length (s ++ (b'}' ∷ u)) + n) (at_depth k) (at_depth (suc k)) b'{'
      ((s ++ (b'}' ∷ u)) ++ t) (omega arith) (step-open k)
    ∙ ap later (
        through s (b'}' ∷ u) t n (at_depth (suc k)) _ _
          (Text-json_scan (suc k) (length (b'}' ∷ u) + n) ((b'}' ∷ u) ++ t) i)
          (scan-more (length u + n) (at_depth (suc k)) (at_depth k) b'}' (u ++ t) (omega arith)
              (step-close k)
            ∙ ap later (Text-json_scan k n t j)))

-- The closing brace of the object ends the scan.
scan-end : json_scan 1 (at_depth 0) (b'}' ∷ []) ≡ ends 1
unfolding json_scan step close_brace
scan-end = refl

laters-ends : (m k : ℕ) → laters m (ends k) ≡ ends (m + k)
laters-ends zero k = ap ends (omega arith)
laters-ends (suc m) k =
    let e : suc (m + k) ≡ suc m + k = omega arith in ap later (laters-ends m k) ∙ ap ends e

step-start : step start b'{' ≡ more (at_depth 0)
unfolding step
step-start = refl

-- The scan of an object ends with its last byte.
pub IsObject-json_scan : {m : Bytes} → IsObject m → json_scan (length m) start m ≡ ends (length m)
IsObject-json_scan (braces {s} i) =
    let e : length (s ++ (b'}' ∷ [])) ≡ length s + 1 = length-append s (b'}' ∷ []) in
    scan-more (length (s ++ (b'}' ∷ []))) start (at_depth 0) b'{' (s ++ (b'}' ∷ [])) (omega arith)
      step-start
    ∙ rw e (
        ap later (
          Text-json_scan 0 1 (b'}' ∷ []) i
          ∙ ap (laters (length s)) scan-end
          ∙ laters-ends (length s) 1))
