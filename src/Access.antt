-- ===== src/Access.antt =====
-- access.py: display ids (Display) and the access generation with its proofs (Proof).
pub mod Display
pub mod Proof
