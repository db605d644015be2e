-- ===== src/Validation/Fields.antt =====
-- src/unrest_harness/task_validation.py: the contract directory, task ids, the fields of each type
-- of task, and the references between tasks.
pub mod Exact
use unrest.Base.{
  ℕ, Bool, true, false, not, ◌&&◌, ◌||◌, List, [], ◌∷◌, ◌++◌, map, String, Option, none, some, ◌==◌,
  if◌then◌else◌, contains, is_empty, is_some, concat_map,
}
use unrest.Model.Names.{matches_assertion_id, matches_task_id, has_text}
use unrest.Model.Task.{Task, TaskType, TaskList, is_gate, is_validate}
use unrest.Validation.Errors.{ValidationError}

-- One error if the test holds.
abbrev pub error_if : Bool → ValidationError → List ValidationError
error_if b e = if b then e ∷ [] else []

-- The loop over the sorted `*.md` entries, by their stems.
unfoldable pub parse_stems :
    List String → List String → List ValidationError → List String × List ValidationError
parse_stems [] ids errors = (ids, errors)
parse_stems (stem ∷ stems) ids errors =
    let readme = parse_stems stems ids errors in
    let invalid =
      parse_stems stems ids (errors ++ ValidationError.invalid_assertion_filename stem ∷ []) in
    let duplicate =
      parse_stems stems ids (errors ++ ValidationError.duplicate_assertion_filename stem ∷ []) in
    let added = parse_stems stems (ids ++ stem ∷ []) errors in
    if stem == "README"
    then readme
    else if not (matches_assertion_id stem)
    then invalid
    else if contains stem ids
    then duplicate
    else added

-- The argument is the directory's listing: `none` where it is missing or no directory, otherwise
-- the stems of the `*.md` entries in sorted order.
unfoldable pub parse_contract_dir : Option (List String) → List String × List ValidationError
unfolding parse_stems
parse_contract_dir none = ([], ValidationError.contract_dir_missing ∷ [])
parse_contract_dir (some stems) = parse_stems stems [] []

-- The loop of `check_task_ids`, with the ids seen so far.
unfoldable pub check_ids_from : List String → List Task → List ValidationError
check_ids_from seen [] = []
check_ids_from seen (task ∷ tasks) =
    error_if (not (matches_task_id task.id)) (ValidationError.invalid_task_id task.id)
    ++ (error_if (contains task.id seen) (ValidationError.duplicate_task_id task.id)
        ++ check_ids_from (task.id ∷ seen) tasks)

unfoldable pub check_task_ids : TaskList → List ValidationError
unfolding check_ids_from
check_task_ids tl = check_ids_from [] tl.tasks

-- The truth value of `task.skill`.
abbrev pub has_skill : Option String → Bool
has_skill none = false
has_skill (some s) = not (s == "")

-- The body of the loop of `check_task_shape`.
unfoldable pub shape_errors : Task → List ValidationError
shape_errors task =
    if is_gate task.type
    then error_if (is_some task.skill) (ValidationError.gate_with_skill task.id)
      ++ (error_if (has_text task.body) (ValidationError.gate_with_body task.id)
          ++ error_if (is_empty task.targets) (ValidationError.empty_targets task.id))
    else error_if (not (has_skill task.skill))
        (ValidationError.non_gate_without_skill task.id task.type)
      ++ (error_if (not (has_text task.body)) (ValidationError.missing_body task.id)
          ++ error_if (is_validate task.type && is_empty task.targets)
              (ValidationError.empty_targets task.id))

unfoldable pub check_task_shape : TaskList → List ValidationError
unfolding shape_errors
check_task_shape tl = concat_map shape_errors tl.tasks

abbrev pub ids_of : List Task → List String
ids_of tasks = map (λ t. t.id) tasks

-- The body of the inner loop of `check_deps_resolve`.
unfoldable pub dep_errors : List String → String → String → List ValidationError
dep_errors ids task_id dep =
    if dep == task_id
    then ValidationError.self_loop task_id ∷ []
    else error_if (not (contains dep ids)) (ValidationError.dep_unknown_task task_id dep)

unfoldable pub check_deps_resolve : TaskList → List ValidationError
unfolding dep_errors
check_deps_resolve tl =
    concat_map (λ task. concat_map (dep_errors (ids_of tl.tasks) task.id) task.depends_on) tl.tasks
