-- ===== src/Governance.antt =====
-- src/fava_trails/governance.py: who may see which thoughts.
pub mod Visibility
pub mod Index
pub mod Privilege
pub mod Reading
pub mod Arguments
