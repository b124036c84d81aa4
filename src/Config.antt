-- ===== src/Config.antt =====
-- src/fava_trails/config.py.
pub mod Scope
