-- ===== src/Grpc/Frame.antt =====
-- The frames of gRPC messages, and `SendMsg` and `RecvMsg` of streamGRPC in larking/grpc.go. The codec,
-- the compressor and the connection are parameters.
use larking.Base.{
  ℕ, zero, suc, ◌+◌, ◌*◌, ◌/◌, ◌%◌, ◌^◌, ◌&&◌, Bool, true, false, Option, none, some, [], ◌∷◌, ◌++◌,
  Bytes, length, ltb, ◌==◌, if◌then◌else◌,
}
use larking.Io.{
  IoError, eof, unexpected_eof, short_write, other_error, Reader, full, fell_short, full_waits,
  read_full,
}

pub record Compression : Type 0 where
  pub compress : Bytes → Option Bytes
  pub decompress : Bytes → Option Bytes

-- The parts of a stream that do not change: codec and comp, the limit, and whether there is a handler
-- of statistics.
pub record Wire (Msg : Type 0) : Type 0 where
  pub marshal : Msg → Option Bytes
  pub unmarshal : Bytes → Option Msg
  pub comp : Option Compression
  pub max_receive : ℕ
  pub has_stats : Bool

-- binary.BigEndian.PutUint32 and Uint32
unfoldable pub put_uint32 : ℕ → Bytes
put_uint32 n = n / 2 ^ 24 % 256 ∷ n / 2 ^ 16 % 256 ∷ n / 2 ^ 8 % 256 ∷ n % 256 ∷ []

unfoldable pub uint32 : Bytes → ℕ
uint32 (a ∷ b ∷ c ∷ d ∷ []) = a * 2 ^ 24 + b * 2 ^ 16 + c * 2 ^ 8 + d
uint32 _ = 0

pub data GrpcError : Type 0 where
  done codec_failed too_large comp_failed no_decompressor : GrpcError
  canceled unavailable : GrpcError
  io_failed : IoError → GrpcError

-- `isStreamError`; context.Canceled is the error of number 0.
unfoldable pub is_stream_error : IoError → Bool
is_stream_error eof = false
is_stream_error unexpected_eof = true
is_stream_error short_write = true
is_stream_error (other_error zero) = false
is_stream_error (other_error (suc n)) = true

pub data Framed : Type 0 where
  frame : Bytes → Framed
  no_frame : GrpcError → Framed

abbrev pub header_of : Bool → ℕ → Bytes
header_of compressed size = (if compressed then 1 else 0) ∷ put_uint32 (size % 2 ^ 32)

module _ {Msg : Type 0} (w : Wire Msg) where
  open w use {marshal, unmarshal, comp, max_receive, has_stats}

  -- The bytes of `SendMsg` from the compression on.
  unfoldable pub compressed_frame : Bytes → Framed
  unfolding put_uint32
  compressed_frame b = elim comp [
    | none ↦ frame (header_of false (length b) ++ b)
    | some c ↦ elim (c.compress b) [
      | none ↦ no_frame comp_failed
      | some z ↦ frame (header_of true (length z) ++ z)
    ]
  ]

  -- `SendMsg` up to the write: the limit is that of messages received.
  unfoldable pub make_frame : Msg → Framed
  unfolding compressed_frame
  make_frame m = elim (marshal m) [
    | none ↦ no_frame codec_failed
    | some b ↦
        if ltb max_receive (length b % 2 ^ 32) then no_frame too_large else compressed_frame b
  ]

  -- `RecvMsg` returns the message, an error, or panics, and leaves the reader.
  pub data Received : Type 0 where
    received_msg : Msg → Reader → Received
    recv_error : GrpcError → Reader → Received
    recv_waits : Received
    slice_panics : Received

  -- The message is decoded; with statistics, `b[headerLen:]` is sliced from the decoded bytes, which
  -- have no header.
  unfoldable pub decode : Bytes → Reader → Received
  decode b r = elim (unmarshal b) [
    | none ↦ recv_error codec_failed r
    | some m ↦ if has_stats && ltb (length b) 5 then slice_panics else received_msg m r
  ]

  unfoldable pub decode_payload : Bool → Bytes → Reader → Received
  unfolding decode
  decode_payload false b r = decode b r
  decode_payload true b r = elim comp [
    | none ↦ recv_error no_decompressor r
    | some c ↦ elim (c.decompress b) [ none ↦ recv_error comp_failed r | some b' ↦ decode b' r ]
  ]

  -- The payload behind a header.
  unfoldable pub recv_payload : Bool → ℕ → Reader → Received
  unfolding decode_payload read_full
  recv_payload compressed size r =
      let payload : Received = elim (read_full size [] r) [
        | full b r' ↦ decode_payload compressed b r'
        | fell_short b e r' ↦ recv_error (io_failed e) r'
        | full_waits b ↦ recv_waits
      ] in
      if ltb max_receive size then recv_error too_large r else payload

  abbrev pub is_one : Bytes → Bool
  is_one [] = false
  is_one (c ∷ b) = c == 1

  abbrev pub tail : Bytes → Bytes
  tail [] = []
  tail (c ∷ b) = b

  -- `RecvMsg` behind `isDone`; a broken stream counts as canceled.
  unfoldable pub recv_frame : Reader → Received
  unfolding recv_payload read_full uint32 is_stream_error
  recv_frame r = elim (read_full 5 [] r) [
    | full h r' ↦ recv_payload (is_one h) (uint32 (tail h)) r'
    | fell_short h e r' ↦ recv_error (if is_stream_error e then canceled else io_failed e) r'
    | full_waits h ↦ recv_waits
  ]
