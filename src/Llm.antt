-- ===== src/Llm.antt =====
-- src/fava_trails/llm: the client that sends a chat to a provider.
pub mod Sanitize
pub mod Retry
pub mod Registry
pub mod Completion
pub mod Client
