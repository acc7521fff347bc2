-- ===== src/Hub.antt =====
-- hub.py: the board store (Store), and the keys and associated data of its messages (Messages).
pub mod Store
pub mod Messages
