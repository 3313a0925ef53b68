-- ===== src/Http/Finish.antt =====
-- `serveHTTP` of larking/http.go around and behind the call of the handler.
use larking.Base.{Bool, true, false, ℕ, Option, none, some, [], ◌∷◌, Bytes, codes}
use larking.Rules.Tree.{insert}
use larking.Negotiate.Accept.{Floats}
use larking.Mux.Options.{Codec, Compressor, MuxOptions}
use larking.Grpc.Headers.{Header, set_outgoing}
use larking.Grpc.Serve.{Status}
use larking.Http.Action.{Metadata}
use larking.Http.Errors.{Responded, enc_error}

abbrev content_encoding : Bytes
content_encoding = codes "Content-Encoding"

-- The response's header before the handler is called.
unfoldable pub open_response : Option Compressor → Bytes → Header → Header
unfolding insert
open_response none accept_encoding h = h
open_response (some z) accept_encoding h = insert content_encoding (accept_encoding ∷ []) h

-- What the handler leaves: the response's header, the trailer, and whether headers were sent.
pub record Handled : Type 0 where
  pub w_header : Header
  pub trailer : Header
  pub sent_header : Bool
  pub error : Option Status

-- The header, the response to the error, and whether the compressor's writer is closed behind it.
pub record Finished : Type 0 where
  pub w_header : Header
  pub response : Option Responded
  pub closes : Bool

module _ (code_name : ℕ → Bytes) (marshal : Codec → Status → Option Bytes) (f : Floats)
    (opts : MuxOptions) (md : Metadata) where
  -- The trailer is written with a handler of statistics only.
  unfoldable pub with_trailer : Bool → Handled → Header
  unfolding set_outgoing
  with_trailer false s = s.w_header
  with_trailer true s = set_outgoing md.encode md.canonical s.w_header s.trailer

  abbrev pub error_header : Bool → Header → Header
  error_header true h = h
  error_header false h = insert content_encoding (codes "identity" ∷ []) h

  abbrev pub is_installed : Option Compressor → Bool
  is_installed none = false
  is_installed (some z) = true

  unfoldable pub finish_http : Bool → Option Compressor → Header → Handled → Finished
  unfolding with_trailer enc_error insert
  finish_http has_stats compressor request s = elim s.error [
    | none ↦ record {
      w_header = with_trailer has_stats s;
      response = none;
      closes = is_installed compressor;
    }
    | some e ↦ record {
      w_header = error_header s.sent_header (with_trailer has_stats s);
      response = some (enc_error code_name marshal f opts request e);
      closes = is_installed compressor;
    }
  ]
