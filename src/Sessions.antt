-- ===== src/Sessions.antt =====
-- sessions.py: payloads (Payload), frames and nonces (Frames), the channel (Channel) and the
-- handshake (Handshake).
pub mod Types
pub mod Payload
pub mod Frames
pub mod Verification
pub mod Channel
pub mod Handshake
pub mod Conversation
