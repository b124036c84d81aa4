-- ===== src/Transactions.antt =====
-- src/fava_trails/transactions.py: governance changes of several files, published at once.
pub mod Disk
pub mod Journal
pub mod Snapshot
pub mod Persist
