-- ===== src/Web/Writer.antt =====
-- The functions of larking/web.go. The connection's writes, the text of a header (http.Header.Write)
-- and strings.EqualFold are parameters; a write says whether it failed.
use larking.Base.{
  ℕ, ◌+◌, ◌%◌, ◌^◌, ◌&&◌, ◌||◌, not, Bool, true, false, Option, none, some, List, [], ◌∷◌, ◌++◌,
  Bytes, codes, beq, map, length, drop, if◌then◌else◌, has_prefix,
}
use larking.Rules.Tree.{insert}
use larking.Mux.Options.{keys}
use larking.Mux.Handlers.{remove_key}
use larking.Grpc.Headers.{Header, to_lower, any_eq}
use larking.Grpc.Frame.{put_uint32}
use larking.Grpc.Serve.{GrpcRequest, get_header, cut_plus, or_proto, grpc_base}

abbrev pub grpc_web : Bytes
grpc_web = codes "application/grpc-web"

abbrev pub grpc_web_text : Bytes
grpc_web_text = codes "application/grpc-web-text"

-- `isWebRequest`: the type and the encoding of a gRPC-web request.
unfoldable pub is_web_request : GrpcRequest → Option (Bytes × Bytes)
unfolding get_header has_prefix cut_plus
is_web_request r =
    let ct = get_header (codes "Content-Type") r.header in
    let (typ, enc) = cut_plus ct in
    if not (has_prefix ct grpc_web) || not (beq r.method (codes "POST"))
    then none
    else if beq typ grpc_web || beq typ grpc_web_text
    then some (typ, or_proto enc)
    else none

-- A webWriter, with the response behind it: the header that handlers write, what was written, the
-- statuses, and how often it was flushed. No method sets `wroteResp`.
pub record WebWriter : Type 0 where
  pub header : Header
  pub seen_headers : List Bytes
  pub wrote_header : Bool
  pub written : List Bytes
  pub statuses : List ℕ
  pub flushes : ℕ

-- http.TrailerPrefix
abbrev pub trailer_prefix : Bytes
trailer_prefix = codes "Trailer:"

unfoldable pub not_trailers : List Bytes → List Bytes
unfolding has_prefix
not_trailers [] = []
not_trailers (k ∷ ks) =
    let rest = not_trailers ks in if has_prefix k trailer_prefix then rest else k ∷ rest

-- strings.TrimPrefix
unfoldable pub trim_prefix : Bytes → Bytes → Bytes
unfolding has_prefix
trim_prefix s prefix = if has_prefix s prefix then drop (length prefix) s else s

unfoldable pub trailer_key : Bytes → Bytes
unfolding trim_prefix to_lower
trailer_key k = map to_lower (trim_prefix k trailer_prefix)

-- The loop of `writeTrailer`, with the trailer so far.
unfoldable pub trailer_from : List Bytes → Header → Header → Header
unfolding any_eq trailer_key insert
trailer_from seen tr [] = tr
trailer_from seen tr ((k, vs) ∷ hdr) =
    let kept = trailer_from seen (insert (trailer_key k) vs tr) hdr in
    let skipped = trailer_from seen tr hdr in if any_eq k seen then skipped else kept

-- The head of the frame of trailers.
unfoldable pub trailer_head : ℕ → Bytes
unfolding put_uint32
trailer_head n = 128 ∷ put_uint32 (n % 2 ^ 32)

module _ (typ enc : Bytes) (write_fails : Bytes → Bool) where
  unfoldable pub see_headers : WebWriter → WebWriter
  unfolding insert keys not_trailers
  see_headers w =
      let hdr = insert (codes "Content-Type") ((typ ++ b'+' ∷ enc) ∷ []) w.header in
      record w { header = hdr; seen_headers = not_trailers (keys hdr); wrote_header = true }

  -- A write to the response; `true` is an error.
  unfoldable pub respond : Bytes → WebWriter → Bool × WebWriter
  respond b w =
      if write_fails b then (true, w) else (false, record w { written = w.written ++ b ∷ [] })

  unfoldable pub write : Bytes → WebWriter → Bool × WebWriter
  unfolding see_headers respond
  write b w = respond b (if w.wrote_header then w else see_headers w)

  unfoldable pub write_header : ℕ → WebWriter → WebWriter
  unfolding see_headers
  write_header code w = let s = see_headers w in record s { statuses = s.statuses ++ code ∷ [] }

  -- The response behind the writer may be no http.Flusher.
  unfoldable pub flush : Bool → WebWriter → WebWriter
  flush is_flusher w =
      if w.wrote_header && is_flusher then record w { flushes = w.flushes + 1 } else w

  module _ (header_text : Header → Option Bytes) where
    -- `writeTrailer`; `true` is an error.
    unfoldable pub write_trailer : WebWriter → Bool × WebWriter
    unfolding trailer_from trailer_head write
    write_trailer w = elim (header_text (trailer_from w.seen_headers [] w.header)) [
      | none ↦ (true, w)
      | some text ↦
          let (failed, w') = write (trailer_head (length text)) w in
          if failed then (true, w') else write text w'
    ]

    unfoldable pub flush_with_trailer : Bool → WebWriter → WebWriter
    unfolding write_trailer flush
    flush_with_trailer is_flusher w =
        let (failed, w') = write_trailer w in
        if not w.wrote_header
        then flush is_flusher w
        else if failed
        then w'
        else flush is_flusher w'

pub data WebServed : Type 0 where
  refuses_web : ℕ → WebServed
  as_grpc : GrpcRequest → (is_text : Bool) → WebServed

-- `serveGRPCWeb` up to `serveGRPC`: the request that is served as gRPC, whose body is in base 64 if the
-- type says so.
unfoldable pub serve_grpc_web : (Bytes → Bytes → Bool) → GrpcRequest → WebServed
unfolding is_web_request get_header insert remove_key
serve_grpc_web equal_fold r = elim (is_web_request r) [
  | none ↦ refuses_web 400
  | some (typ, enc) ↦
      let hdr =
        insert (codes "Content-Type") ((grpc_base ++ b'+' ∷ enc) ∷ [])
          (remove_key (codes "Content-Length") r.header) in
      if equal_fold (get_header (codes "Upgrade") r.header) (codes "websocket")
      then refuses_web 500
      else as_grpc (record r { proto_major = 2; header = hdr }) (beq typ grpc_web_text)
]
