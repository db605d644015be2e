-- ===== src/Model.antt =====
-- src/unrest_harness/models.py: the records of the program and the checks that their schemas make.
-- Texts are native strings; a text that a message is built into is left out of a record only where
-- the file says so.
pub mod Names
pub mod Task
pub mod Handoff
pub mod Attention
