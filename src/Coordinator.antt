-- ===== src/Coordinator.antt =====
-- src/unrest_harness/coordinator.py: which task runs next, what a gate decides, and what a handoff
-- changes.
pub mod Search
pub mod Runnable
pub mod Gates
pub mod Attention
pub mod Collect
