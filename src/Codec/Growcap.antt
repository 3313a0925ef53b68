-- ===== src/Codec/Growcap.antt =====
-- `growcap` of larking/codec.go, on ints of 64 bits.
use larking.Base.{ℕ, zero, suc, ◌+◌, ◌*◌, ◌/◌, ◌%◌, ◌^◌, Bool, ◌&&◌, ltb, if◌then◌else◌}

-- An int stands as its bit pattern; this is a < b.
abbrev pub signed_lt : ℕ → ℕ → Bool
signed_lt a b = ltb ((a + 2 ^ 63) % 2 ^ 64) ((b + 2 ^ 63) % 2 ^ 64)

-- newcap + newcap/4; the loop is left as soon as newcap is not positive.
abbrev grow : ℕ → ℕ
grow c = (c + c / 4) % 2 ^ 64

-- `for 0 < newcap && newcap < wantcap`
unfoldable pub grow_from : ℕ → ℕ → ℕ → ℕ
grow_from zero want c = c
grow_from (suc fuel) want c =
    let grown = grow_from fuel want (grow c) in
    if signed_lt 0 c && signed_lt c want then grown else c

-- Each round adds 256 at least, so there are less than `want` rounds.
unfoldable pub growcap : ℕ → ℕ → ℕ
unfolding grow_from
growcap old want =
    if signed_lt (old * 2 % 2 ^ 64) want
    then want
    else if signed_lt old 1024
    then old * 2 % 2 ^ 64
    else (let c = grow_from want want old in if signed_lt 0 c then c else want)
