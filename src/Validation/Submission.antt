-- ===== src/Validation/Submission.antt =====
-- src/unrest_harness/task_validation.py: `validate_task_list_submission`, the checks in their order.
pub mod Exact
use unrest.Base.{List, [], ◌∷◌, String, none, is_empty, if◌then◌else◌}
use unrest.Model.Task.{TaskList}
use unrest.Validation.Errors.{ValidationError}
use unrest.Validation.Fields.{check_task_ids, check_task_shape, check_deps_resolve}
use unrest.Validation.Graph.{check_acyclic}
use unrest.Validation.Coverage.{check_coverage}

-- `errs = …; if errs: return errs` before the rest.
abbrev pub or_next : List ValidationError → List ValidationError → List ValidationError
or_next [] rest = rest
or_next (e ∷ errs) rest = e ∷ errs

unfoldable pub validate_task_list_submission : List String → TaskList → List ValidationError
validate_task_list_submission contract_ids tl =
    if is_empty contract_ids
    then ValidationError.empty_contract ∷ []
    else if is_empty tl.tasks
    then ValidationError.empty_task_list ∷ []
    else or_next (check_task_ids tl) (
        or_next (check_task_shape tl) (
          or_next (check_deps_resolve tl)
            (or_next (check_acyclic tl) (check_coverage contract_ids tl none))))
