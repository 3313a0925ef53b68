-- ===== src/Mux/Proxy.antt =====
-- larking/mux.go: the handlers that forward a call to a connection.
pub mod Forward
pub mod InOrder
pub mod Invariant
pub mod Unary
