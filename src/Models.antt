-- ===== src/Models.antt =====
-- src/fava_trails/models.py: the thought records and their enums.
pub mod Enums
pub mod Thought
pub mod Hooks
pub mod Markdown
pub mod Config
