-- ===== src/Mux/Entry.antt =====
-- `ServeHTTP` of larking/mux.go: which server takes a request, and the path that the router sees.
use larking.Base.{
  ℕ, ◌-◌, ◌≡◌, ◌↔◌, ◌≢◌, Bool, true, false, ◌&&◌, [], ◌∷◌, ◌++◌, refl, length, take, ◌==◌,
  if◌then◌else◌, Bytes, codes, has_prefix, has_suffix, arith,
}

pub record Request : Type 0 where
  pub proto_major : ℕ
  pub content_type : Bytes
  pub path : Bytes

pub data Server : Type 0 where
  grpc grpc_web : Server
  http : Bytes → Server

-- strings.TrimSuffix
unfoldable pub trim_suffix : Bytes → Bytes → Bytes
unfolding has_suffix
trim_suffix s suffix = if has_suffix s suffix then take (length s - length suffix) s else s

unfoldable pub route_path : Bytes → Bytes
unfolding trim_suffix has_prefix
route_path path =
    trim_suffix (if has_prefix path (codes "/") then path else b'/' ∷ path) (codes "/")

unfoldable pub serve : Request → Server
unfolding has_prefix route_path
serve r =
    if r.proto_major == 2 && has_prefix r.content_type (codes "application/grpc")
    then grpc
    else if has_prefix r.content_type (codes "application/grpc-web")
    then grpc_web
    else http (route_path r.path)

has_prefix-append : (s p q : Bytes) → has_prefix s (p ++ q) ≡ true → has_prefix s p ≡ true
unfolding has_prefix
has_prefix-append s [] q h = ground arith
has_prefix-append [] (c ∷ p) q h = cc
has_prefix-append (d ∷ s) (c ∷ p) q h = ground (arith, has_prefix-append s p q)

serve_choice :
    (v : ℕ) (g w : Bool) (p : Bytes)
    → (w ≡ true → g ≡ true)
    → (((if v == 2 && g then grpc else if w then grpc_web else http p) ≡ grpc)
        ↔ ((v ≡ 2) × (g ≡ true)))
      × (((if v == 2 && g then grpc else if w then grpc_web else http p) ≡ grpc_web)
          ↔ ((v ≢ 2) × (w ≡ true)))
serve_choice v true true p h = (ground arith, ground arith)
serve_choice v true false p h = (ground arith, ground arith)
serve_choice v false true p h = cc (h refl)
serve_choice v false false p h = (ground arith, ground arith)

-- A request is served as gRPC if it came over HTTP/2 with a content type that begins with
-- "application/grpc", as gRPC-web content types do too; as gRPC-web if it came by another version
-- with a gRPC-web content type.
pub serve_lem :
    (r : Request)
    → ((serve r ≡ grpc)
        ↔ ((r.proto_major ≡ 2) × (has_prefix r.content_type (codes "application/grpc") ≡ true)))
      × ((serve r ≡ grpc_web) ↔ (
          (r.proto_major ≢ 2) × (has_prefix r.content_type (codes "application/grpc-web") ≡ true)))
unfolding serve
serve_lem r =
    serve_choice r.proto_major _ _ (route_path r.path)
      (has_prefix-append r.content_type (codes "application/grpc") (codes "-web"))
