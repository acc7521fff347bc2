-- ===== src/Tests.antt =====
-- The theorems at concrete inputs: a toy instance of the primitives (Toy), sessions (Session), the
-- access exchange (Admission) and the encodings (Encoding).
mod Toy
mod Session
mod Admission
mod Encoding
mod Relay
