-- ===== src/Tests/CodecTests.antt =====
-- Runs of the codecs of larking/codec.go.
use larking.Base.{none, some, [], ◌∷◌, ◌++◌, ◌≡◌, ◌≤◌, ◌<◌, ◌^◌, inr, refl, Bytes, codes, arith}
use larking.Io.{Reader, received, eof}
use larking.Codec.Json.{
  start, json_read_next, json_write_next, message, negative_length, no_message, io,
}
use larking.Codec.JsonScan.{json_scan, Reads, json_read_next-Reads}
use larking.Codec.JsonFrames.{Delivers, json_read_next-write}
use larking.Codec.JsonText.{InString, Text, IsObject}
use larking.Codec.Growcap.{growcap}
use larking.Codec.GrowcapBounds.{growcap_bounds}
use larking.Codec.Proto.{proto_read_next, proto_write_next, proto_body}
use larking.Codec.ProtoFrames.{proto_read_next-write, proto_body-negative_length}
use larking.Tests.Varint.{base_128, base_128-IsCodec, append_from, consume}

abbrev object : Bytes
object = codes "{\"a\":\"\\\"}\"}"

-- Two reads, of a message and the head of the next.
abbrev two_reads : Reader
two_reads = (codes "{\"a\":", none) ∷ (codes "\"\\\"}\"}{", none) ∷ []

-- The bytes between the braces, with an escaped quote and a brace in the second string.
object-IsObject : IsObject object
object-IsObject = IsObject.braces (
    Text.quoted (InString.char b'a' (omega arith) (omega arith) InString.quote) (
      Text.plain b':' (omega arith) (omega arith) (omega arith) (
        Text.quoted
          (InString.escape b'"' (InString.char b'}' (omega arith) (omega arith) InString.quote))
          Text.empty)))

object_read : json_read_next 20 [] two_reads ≡ message (codes "{\"a\":\"\\\"}\"}{") 11 []
unfolding json_read_next
object_read = refl

-- A message that comes together with the end of the stream is not returned.
message_lost :
    json_read_next 20 [] ((codes "{}", some eof) ∷ []) ≡ no_message (codes "{}") (io eof) []
unfolding json_read_next
message_lost = refl

two_reads_split : received two_reads ≡ json_write_next object ++ codes "{"
unfolding json_write_next
two_reads_split = refl

json_read_next-write_example : Delivers object (codes "{") (json_read_next 20 [] two_reads)
json_read_next-write_example =
    json_read_next-write 20 object [] (codes "{") two_reads object-IsObject (omega arith) tt
      two_reads_split

json_read_next-Reads_example :
    Reads
      (received two_reads)
      0
      (json_scan 20 start (received two_reads))
      (json_read_next 20 [] two_reads)
json_read_next-Reads_example = json_read_next-Reads 20 [] two_reads tt

growcap_bounds_example : (5000 ≤ growcap 3000 5000) × (growcap 3000 5000 < 2 ^ 63)
growcap_bounds_example = growcap_bounds 3000 5000 (omega arith) (omega arith)

-- Three bytes behind their varint, and a byte of what follows.
abbrev proto_reads : Reader
proto_reads = (3 ∷ 7 ∷ [], none) ∷ (8 ∷ 9 ∷ 1 ∷ [], none) ∷ []

proto_reads_split : received proto_reads ≡ proto_write_next base_128 (7 ∷ 8 ∷ 9 ∷ []) ++ 1 ∷ []
unfolding proto_write_next append_from
proto_reads_split = refl

proto_read_next-write_example :
    Delivers (7 ∷ 8 ∷ 9 ∷ []) (1 ∷ []) (proto_read_next base_128 100 [] proto_reads)
proto_read_next-write_example =
    proto_read_next-write base_128 100 (7 ∷ 8 ∷ 9 ∷ []) [] (1 ∷ []) proto_reads base_128-IsCodec
      (omega arith) (inr (omega arith)) tt proto_reads_split

-- 2 ^ 63 as a varint.
abbrev huge : Bytes
huge = 128 ∷ 128 ∷ 128 ∷ 128 ∷ 128 ∷ 128 ∷ 128 ∷ 128 ∷ 128 ∷ 1 ∷ []

huge_read : consume huge ≡ some (2 ^ 63, 10)
unfolding consume
huge_read = refl

negative_length_run : proto_body base_128 4_194_304 huge [] ≡ negative_length [] (2 ^ 63) []
negative_length_run =
    proto_body-negative_length base_128 4_194_304 (2 ^ 63) 10 huge [] huge_read (omega arith)

abbrev body_reads : Reader
body_reads = (codes "ab", none) ∷ (codes "cd", none) ∷ (codes "e", some eof) ∷ []
