-- ===== src/Web.antt =====
-- larking/web.go: gRPC-web requests, and the writer that sends their trailers in the body.
pub mod Writer
pub mod TrailerNames
pub mod Trailers
