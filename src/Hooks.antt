-- ===== src/Hooks.antt =====
-- The lifecycle hooks (src/fava_trails/hook_types.py, src/fava_trails/hook_pipeline.py).
pub mod Actions
pub mod Feedback
pub mod Pipeline
pub mod Interpolation
pub mod Registry
