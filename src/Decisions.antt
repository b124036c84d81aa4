-- ===== src/Decisions.antt =====
-- src/fava_trails/decisions.py: one question to the Decisions API.
pub mod Endpoint
pub mod Answer
pub mod Client
