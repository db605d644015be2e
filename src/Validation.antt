-- ===== src/Validation.antt =====
-- src/unrest_harness/task_validation.py: the structural checks of a task list.
-- An error keeps its code and the values that its message is made of. Sets are lists read by
-- membership; a message that sorts its names keeps them in the order of the list.
pub mod Errors
pub mod Fields
pub mod Graph
pub mod Coverage
pub mod Submission
pub mod Navigation
