-- ===== src/Validation/Coverage.antt =====
-- src/unrest_harness/task_validation.py: `check_coverage`, one active work task for each assertion.
pub mod Exact
use unrest.Base.{
  ℕ, Bool, not, ◌&&◌, List, [], ◌∷◌, ◌++◌, String, Option, none, some, if◌then◌else◌, contains,
  is_empty, length, ltb, foldl, concat_map, Dict, find_or, put, modify, keys,
}
use unrest.Model.Task.{Task, TaskStatus, TaskList, TaskStateFile, is_work, is_superseded, status_of}
use unrest.Validation.Errors.{ValidationError}
use unrest.Validation.Fields.{error_if}

-- The status of a task, "pending" where no state is given.
unfoldable pub status_in : Option TaskStateFile → String → TaskStatus
status_in none id = TaskStatus.pending
status_in (some ts) id = status_of ts id

unfoldable pub unknown_targets : List String → Task → List ValidationError
unknown_targets contract_ids task =
    concat_map
      (λ tgt.
        error_if (not (contains tgt contract_ids))
          (ValidationError.task_targets_unknown_assertion task.id tgt))
      task.targets

-- `coverers[tgt].append(task.id)`; `modify` leaves a dict without the key as it is.
unfoldable pub append_coverer : String → Dict (List String) → String → Dict (List String)
append_coverer id coverers tgt = modify tgt (λ l. l ++ id ∷ []) coverers

-- The test of a task that covers its targets.
abbrev pub is_active_work : Option TaskStateFile → Task → Bool
is_active_work ts task = is_work task.type && not (is_superseded (status_in ts task.id))

unfoldable pub cover : Option TaskStateFile → Dict (List String) → Task → Dict (List String)
unfolding append_coverer status_in
cover ts coverers task =
    if is_active_work ts task
    then foldl (append_coverer task.id) coverers task.targets
    else coverers

unfoldable pub coverers_of : List String → Option TaskStateFile → List Task → Dict (List String)
unfolding cover
coverers_of contract_ids ts tasks =
    foldl (cover ts) (foldl (λ d a. put a [] d) [] contract_ids) tasks

-- The body of the last loop.
unfoldable pub assertion_errors : String → List String → List ValidationError
assertion_errors assertion tasks =
    if is_empty tasks
    then ValidationError.uncovered_assertion assertion ∷ []
    else error_if (ltb 1 (length tasks)) (ValidationError.over_covered_assertion assertion tasks)

unfoldable pub check_coverage : List String → TaskList → Option TaskStateFile → List ValidationError
unfolding unknown_targets coverers_of assertion_errors
check_coverage contract_ids tl ts =
    let coverers = coverers_of contract_ids ts tl.tasks in
    concat_map (unknown_targets contract_ids) tl.tasks
    ++ concat_map (λ a. assertion_errors a (find_or [] a coverers)) (keys coverers)
