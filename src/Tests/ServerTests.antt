-- ===== src/Tests/ServerTests.antt =====
-- Runs of the status tables, the metadata, the negotiation and the entry of the mux.
use larking.Base.{
  suc, length, ℕ, List, [], ◌∷◌, ◌++◌, Option, none, true, ◌≡◌, ◌≢◌, ◌↔◌, refl, codes, Bytes,
  has_prefix, arith,
}
use larking.Base.Int.{pos}
use larking.Codes.{http_status_code, ws_status_code, status_panics_iff}
use larking.Grpc.Headers.{Header, KeysPass, new_incoming, new_incoming-KeysPass}
use larking.Grpc.Message.{
  is_special, encode_grpc_message, escape_all, IsPlain, encode_grpc_message_lem,
}
use larking.Grpc.Timeout.{
  decode_timeout, duration, second, meant, decimal, AreDigits, decode_timeout-exact,
}
use larking.Negotiate.Accept.{parse_accept, parse_specs}
use larking.Negotiate.Rounds.{parse_specs-enough}
use larking.Negotiate.Choose.{negotiate_content_type, negotiate_content_encoding}
use larking.Negotiate.Chosen.{TypeAnswer, negotiate_content_type_answer}
use larking.Negotiate.Encoding.{EncodingAnswer, negotiate_content_encoding_answer}
use larking.Mux.Options.{new_mux}
use larking.Mux.Compression.{IsCodecName, response_encoding-IsCodecName}
use larking.Mux.Handlers.{Handler, State, or_nil, handlers_of, find_conn, remove_handler}
use larking.Mux.Removal.{kept, remove_handler_lem}
use larking.Mux.Entry.{Request, serve, grpc, grpc_web, serve_lem}
use larking.Tests.Settings.{thousandths, empty_tree}

abbrev new_code : ℕ
new_code = 17

status_panics_iff_example :
    ((http_status_code new_code ≡ none) ↔ (new_code ≡ 17))
    × ((ws_status_code new_code ≡ none) ↔ (new_code ≡ 17))
status_panics_iff_example = status_panics_iff new_code

abbrev undecoded : Bytes → Option Bytes
undecoded s = none

abbrev te_header : Header
te_header = (codes "TE", codes "trailers" ∷ []) ∷ (codes "X-Id", codes "7" ∷ []) ∷ []

new_incoming-KeysPass_example : KeysPass (new_incoming undecoded te_header)
new_incoming-KeysPass_example = new_incoming-KeysPass undecoded te_header

percent-special : is_special 37 ≡ true
unfolding is_special
percent-special = refl

done-IsPlain : IsPlain (codes "ok")
unfolding is_special
done-IsPlain = (refl, (refl, tt))

encode_grpc_message_lem_example :
    (encode_grpc_message (codes "5" ++ (37 ∷ codes "ok")) ≡ escape_all (codes "5" ++ (37 ∷ [])))
    × (encode_grpc_message (codes "ok") ≡ codes "ok")
encode_grpc_message_lem_example =
    encode_grpc_message_lem (codes "5") 37 (codes "ok") percent-special done-IsPlain

ten-AreDigits : AreDigits (codes "10")
ten-AreDigits = (omega arith, omega arith, (omega arith, omega arith, tt))

decode_timeout-exact_example :
    decode_timeout (codes "10" ++ b'S' ∷ [])
    ≡ duration (pos (meant 1_000_000_000 (decimal 0 (codes "10"))))
decode_timeout-exact_example =
    decode_timeout-exact b'1' b'S' 1_000_000_000 (codes "0") ten-AreDigits (omega arith) second

abbrev accepted : List Bytes
accepted = codes "application/json;q=0.5, text/*" ∷ []

abbrev offers : List Bytes
offers = codes "application/json" ∷ codes "text/html" ∷ []

negotiate_content_type_answer_example :
    TypeAnswer thousandths
      (parse_accept thousandths accepted)
      offers
      (codes "text/plain")
      (negotiate_content_type thousandths accepted offers (codes "text/plain"))
negotiate_content_type_answer_example =
    negotiate_content_type_answer thousandths accepted offers (codes "text/plain")

abbrev encodings : List Bytes
encodings = codes "gzip, identity;q=0.5" ∷ []

negotiate_content_encoding_answer_example :
    EncodingAnswer thousandths
      (parse_accept thousandths encodings)
      (codes "gzip" ∷ [])
      (negotiate_content_encoding thousandths encodings (codes "gzip" ∷ []))
negotiate_content_encoding_answer_example =
    negotiate_content_encoding_answer thousandths encodings (codes "gzip" ∷ [])

response_encoding-IsCodecName_example :
    IsCodecName thousandths [] []
      (negotiate_content_encoding thousandths encodings (new_mux [] []).encoding_type_offers)
response_encoding-IsCodecName_example = response_encoding-IsCodecName thousandths encodings [] []

abbrev web_request : Request
web_request = record {
  proto_major = 2;
  content_type = codes "application/grpc-web";
  path = codes "/v1/shelves/7";
}

serve_lem_example :
    ((serve web_request ≡ grpc) ↔ (
      (web_request.proto_major ≡ 2)
      × (has_prefix web_request.content_type (codes "application/grpc") ≡ true)))
    × ((serve web_request ≡ grpc_web) ↔ (
        (web_request.proto_major ≢ 2)
        × (has_prefix web_request.content_type (codes "application/grpc-web") ≡ true)))
serve_lem_example = serve_lem web_request

abbrev get_book : ℕ → Handler Unit
get_book i = record {
  id = i;
  method = codes "/Library/GetBook";
  desc = codes "Library.GetBook";
  input = tt;
}

-- Two connections serve one method.
abbrev two_conns : State Bytes Unit
two_conns = record {
  path = empty_tree;
  conns = (1, get_book 10 ∷ [], []) ∷ (2, get_book 20 ∷ [], []) ∷ [];
  handlers = (codes "/Library/GetBook", get_book 10 ∷ get_book 20 ∷ []) ∷ [];
}

remove_handler_lem_example :
    handlers_of (codes "/Library/GetBook") (remove_handler 1 two_conns).0.handlers
    ≡ kept
        (codes "/Library/GetBook")
        (or_nil (find_conn 1 two_conns.conns))
        (handlers_of (codes "/Library/GetBook") two_conns.handlers)
remove_handler_lem_example = remove_handler_lem 1 (codes "/Library/GetBook") two_conns

abbrev weighted : Bytes
weighted = codes "gzip;q=0.5, br"

parse_specs-enough_example :
    parse_specs thousandths 100 weighted ≡ parse_specs thousandths (suc (length weighted)) weighted
parse_specs-enough_example = parse_specs-enough thousandths 100 weighted (omega arith)
