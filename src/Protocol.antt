-- ===== src/Protocol.antt =====
-- protocol.py: the binary encoding of fields (Fields).
pub mod Fields
pub mod Base64
pub mod Frames
pub mod Json
