-- ===== src/Tests.antt =====
-- Runs of the definitions at concrete inputs.
mod Samples
mod Transactions
mod Governance
mod Trails
mod Hooks
mod Recalls
mod Preflights
mod Decides
mod Reviews
mod Chats
mod Registries
mod Configs
mod Secrets
mod Markdowns
mod Promotions
