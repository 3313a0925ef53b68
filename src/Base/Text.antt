-- ===== src/Base/Text.antt =====
-- Prefixes, suffixes and runs of byte strings, as in package strings.
use Prim.Native.Nat.{ℕ, ◌-◌}
use mathlib.Core.Bool.{Bool, true, false, ◌&&◌}
use mathlib.Core.List.{[], ◌∷◌}
use larking.Base.Tests.{leb, ◌==◌, if◌then◌else◌}
use larking.Base.Lists.{Bytes, length, drop, beq}

-- strings.HasPrefix
unfoldable pub has_prefix : Bytes → Bytes → Bool
has_prefix s [] = true
has_prefix [] (p ∷ ps) = false
has_prefix (c ∷ s) (p ∷ ps) = c == p && has_prefix s ps

-- strings.HasSuffix
unfoldable pub has_suffix : Bytes → Bytes → Bool
unfolding beq
has_suffix s suffix =
    leb (length suffix) (length s) && beq (drop (length s - length suffix) s) suffix

-- s[:i] and s[i:] for the least i at which `p` fails.
unfoldable pub run_of : (ℕ → Bool) → Bytes → Bytes
run_of p [] = []
run_of p (c ∷ s) = if p c then c ∷ run_of p s else []

unfoldable pub after_run : (ℕ → Bool) → Bytes → Bytes
after_run p [] = []
after_run p (c ∷ s) = if p c then after_run p s else c ∷ s
