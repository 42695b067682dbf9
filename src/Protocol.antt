-- ===== src/Protocol.antt =====
-- packages/protocol: the binary document codec and the wire frames.
pub mod BigEndian
pub mod Number
pub mod Utf8
pub mod Errors
pub mod Writer
pub mod Reader
pub mod Document
pub mod Encoder
pub mod Decoder
pub mod Canonical
pub mod Frame
pub mod Message
pub mod Stream
pub mod CustomId
pub mod RequestId
mod Tests
