-- ===== src/Protocol.antt =====
-- protocol/: the wire formats of a batch of events.
pub mod Protobuf
pub mod Line
pub mod Decoder
pub mod Compression
