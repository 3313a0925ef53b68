-- ===== src/Grpc.antt =====
-- larking/grpc.go: header names, messages and timeouts of gRPC over HTTP/2.
pub mod Headers
pub mod Message
pub mod Timeout
pub mod Frame
pub mod FrameLaws
pub mod Sequence
pub mod Serve
pub mod Status
