-- ===== src/Protocol.antt =====
-- protocol/message.go: the wire format of one message.
pub mod Header
pub mod Metadata
pub mod Message
