-- ===== src/Tests.antt =====
-- Concrete task lists, attempts, patches and ledgers, and what the theorems say of them.
mod Samples
mod Planning
mod Gates
mod Handoffs
mod Patches
mod Ledgers
mod Attempts
mod Campaigns
mod Identities
