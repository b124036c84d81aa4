-- ===== src/Trail.antt =====
-- src/fava_trails/trail.py: the thoughts of one trail.
pub mod Paths
pub mod Review
pub mod Promotion
pub mod Filter
pub mod Order
pub mod Recall
pub mod Updates
pub mod Saving
