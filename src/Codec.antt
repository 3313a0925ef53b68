-- ===== src/Codec.antt =====
-- larking/codec.go: the capacity of buffers, and the framing of messages in a stream.
pub mod Json
pub mod JsonScan
pub mod JsonText
pub mod JsonFrames
pub mod Growcap
pub mod GrowcapBounds
pub mod Proto
pub mod ProtoFrames
pub mod Body
pub mod BodyLimits
