-- ===== src/Review.antt =====
-- src/fava_trails/trust_gate.py: the review of a thought that is to be promoted.
pub mod Prompts
pub mod Payload
pub mod Verdict
pub mod Extraction
pub mod Failures
pub mod Oneshot
pub mod Decide
pub mod Address
pub mod Egress
pub mod Promoted
