-- ===== src/Codec/Json.antt =====
-- `CodecJSON.ReadNext` of larking/codec.go: the end of a JSON object in a stream, by its braces.
use larking.Base.{
  ℕ, zero, suc, ◌+◌, Bool, true, false, none, some, Bytes, get_elem?, ◌==◌, if◌then◌else◌,
}
use larking.Io.{IoError, Reader, filled, failed, waits, fill}

-- braceCount, which is never below 0 between rounds, isString and isEscaped.
pub record Scan : Type 0 where
  pub braces : ℕ
  pub is_string : Bool
  pub is_escaped : Bool

pub data Step : Type 0 where
  more : Scan → Step
  closes unbalanced : Step

-- A closing brace.
unfoldable pub close_brace : ℕ → Scan → Step
close_brace zero s = unbalanced
close_brace (suc zero) s = closes
close_brace (suc (suc n)) s = more (record s { braces = suc n })

-- The switch on one byte.
unfoldable pub step : Scan → ℕ → Step
unfolding close_brace
step s c =
    if s.is_escaped
    then more (record s { is_escaped = false })
    else if s.is_string
    then (if c == b'\\'
        then more (record s { is_escaped = true })
        else if c == b'"'
        then more (record s { is_string = false })
        else more s)
    else if c == b'{'
    then more (record s { braces = s.braces + 1 })
    else if c == b'}'
    then close_brace s.braces s
    else if c == b'"'
    then more (record s { is_string = true })
    else more s

pub data ReadError : Type 0 where
  io : IoError → ReadError
  unbalanced_braces bad_varint : ReadError
  too_large : ReadError

-- `ReadNext` returns the bytes that it has read, the length of the message among them and no error, or
-- an error, or both; or it waits for a read, indexes out of range, or returns a negative length as no error: the
-- int of these 64 bits.
pub data NextRead : Type 0 where
  message : Bytes → ℕ → Reader → NextRead
  no_message : Bytes → ReadError → Reader → NextRead
  last_message : Bytes → ℕ → IoError → Reader → NextRead
  waiting : Bytes → NextRead
  negative_length : Bytes → ℕ → Reader → NextRead
  out_of_range : NextRead

-- The loop from byte `i` on, with the rounds left below the limit.
unfoldable pub json_rounds : ℕ → ℕ → Scan → Bytes → Reader → NextRead
unfolding fill step
json_rounds zero i s b r = no_message b too_large r
json_rounds (suc n) i s b r = elim (fill i b r) [
  | waits b' ↦ waiting b'
  | failed b' e r' ↦ no_message b' (io e) r'
  | filled b' r' ↦ elim (get_elem? b' i) [
    | none ↦ out_of_range
    | some c ↦ elim (step s c) [
      | closes ↦ message b' (i + 1) r'
      | unbalanced ↦ no_message b' unbalanced_braces r'
      | more s' ↦ json_rounds n (i + 1) s' b' r'
    ]
  ]
]

abbrev pub start : Scan
start = record { braces = 0; is_string = false; is_escaped = false }

unfoldable pub json_read_next : ℕ → Bytes → Reader → NextRead
unfolding json_rounds
json_read_next limit b r = json_rounds limit 0 start b r

-- `CodecJSON.WriteNext`: the bytes that it writes.
unfoldable pub json_write_next : Bytes → Bytes
json_write_next b = b
