-- ===== src/Codec/Proto.antt =====
-- `CodecProto.ReadNext` and `WriteNext` of larking/codec.go. The varints of package protowire are a
-- parameter.
use larking.Base.{
  ℕ, zero, suc, ◌+◌, ◌-◌, ◌^◌, ◌&&◌, Option, none, some, [], ◌++◌, Bytes, length, drop, get_elem?,
  ltb, if◌then◌else◌,
}
use larking.Io.{
  IoError, eof, unexpected_eof, Reader, filled, failed, waits, fill, full, fell_short, full_waits,
  read_full,
}
use larking.Codec.Json.{
  io, bad_varint, too_large, NextRead, message, no_message, waiting, negative_length, out_of_range,
}

-- protowire: the varint at the head of a text with its length, and the varint of a number.
pub record Varints : Type 0 where
  pub consume : Bytes → Option (ℕ × ℕ)
  pub append : ℕ → Bytes

-- The bytes of a varint are there, or `ReadNext` returns.
pub data Header : Type 0 where
  header : Bytes → Reader → Header
  returns : NextRead → Header

-- The loop over the bytes of the varint from `i` on, with the rounds left of the 10 that a uint64 takes.
unfoldable pub header_rounds : ℕ → ℕ → Bytes → Reader → Header
unfolding fill
header_rounds zero i b r = header b r
header_rounds (suc n) i b r = elim (fill i b r) [
  | waits b' ↦ returns (waiting b')
  | failed b' e r' ↦ returns (no_message b' (io e) r')
  | filled b' r' ↦ elim (get_elem? b' i) [
    | none ↦ returns out_of_range
    | some c ↦
        let further : Header = header_rounds n (i + 1) b' r' in
        if ltb c 0x80 then header b' r' else further
  ]
]

-- The error of the source where no byte of the message came.
abbrev pub cut_off : IoError → IoError
cut_off eof = unexpected_eof
cut_off e = e

-- The message of `n` bytes, behind its varint.
unfoldable pub sized : ℕ → Bytes → Reader → NextRead
unfolding read_full
sized n b r =
    let rest : NextRead = elim (read_full (n - length b) [] r) [
      | full got r' ↦ message (b ++ got) n r'
      | fell_short got e r' ↦ no_message b (io (cut_off e)) r'
      | full_waits got ↦ waiting b
    ] in
    if ltb (length b) n then rest else message b n r

module _ (v : Varints) where
  open v use {consume, append}

  -- `int(size)` is negative from 2 ^ 63 on: then it is not above the limit, nor is `b` shorter.
  unfoldable pub proto_body : ℕ → Bytes → Reader → NextRead
  unfolding sized
  proto_body limit b r = elim (consume b) [
    | none ↦ no_message b bad_varint r
    | some (size, n) ↦
        if ltb size (2 ^ 63)
        then (if ltb 0 limit && ltb limit size
            then no_message b too_large r
            else sized size (drop n b) r)
        else negative_length (drop n b) size r
  ]

  unfoldable pub proto_read_next : ℕ → Bytes → Reader → NextRead
  unfolding header_rounds proto_body
  proto_read_next limit b r = elim (header_rounds 10 0 b r) [
    | returns x ↦ x
    | header b' r' ↦ proto_body limit b' r'
  ]

  -- What `WriteNext` writes, in two writes.
  unfoldable pub proto_write_next : Bytes → Bytes
  proto_write_next b = append (length b) ++ b
