-- ===== src/Patch.antt =====
-- src/unrest_harness/task_list_patch.py: a patch of the task list, applied as a whole or refused.
-- A result's task state is the object that the code returns, with what was written to the entries that it
-- shares with the patched state.
pub mod Refusal
pub mod Statuses
pub mod Rewriting
pub mod Atomic
pub mod Stranded
use unrest.Base.{
  Bool, true, false, not, ◌&&◌, ◌||◌, List, [], ◌∷◌, ◌++◌, map, String, Option, none, some, ◌==◌,
  if◌then◌else◌, contains, minus, union, is_empty, is_none, select, foldl, concat_map, Dict, find,
  keys,
}
use unrest.Model.Names.{matches_assertion_id}
use unrest.Model.Task.{
  Task, TaskList, TaskListPatch, TaskStatus, TaskStateFile, TaskStateEntry, is_gate, is_cleared,
  is_running, is_pending, is_failed, is_empty_patch, status_of, set_status,
}
use unrest.Validation.Errors.{ValidationError, RetireOp}
use unrest.Validation.Fields.{error_if, ids_of}
use unrest.Validation.Navigation.{upstream_closure}
use unrest.Validation.Submission.Exact.{five_checks}

-- The gates that are cleared.
unfoldable pub cleared_gates : TaskList → TaskStateFile → List String
cleared_gates tl ts =
    ids_of (select (λ t. is_gate t.type && is_cleared (status_of ts t.id)) tl.tasks)

unfoldable pub sealed_task_ids : TaskList → TaskStateFile → List String
unfolding cleared_gates
sealed_task_ids tl ts =
    let gates = cleared_gates tl ts in
    if is_empty gates then [] else upstream_closure tl.tasks gates

-- `supersede.get(dep, dep)`
unfoldable pub mapped : Dict String → String → String
mapped supersede dep = elim (find dep supersede) [ none ↦ dep | some new ↦ new ]

-- The inner loop of `_rewrite_depends_on`, with `new_deps`.
unfoldable pub rewrite_deps : Dict String → List String → List String → List String → List String
unfolding mapped
rewrite_deps supersede cancel new_deps [] = new_deps
rewrite_deps supersede cancel new_deps (dep ∷ deps) =
    rewrite_deps supersede cancel
      (if contains dep cancel
        then new_deps
        else if contains (mapped supersede dep) new_deps
        then new_deps
        else new_deps ++ mapped supersede dep ∷ [])
      deps

-- The code keeps the object where the list did not change; the value is the same.
abbrev pub rewrite_task : Dict String → List String → Task → Task
rewrite_task supersede cancel t = record t {
  depends_on = rewrite_deps supersede cancel [] t.depends_on;
}

unfoldable pub rewrite_depends_on : Dict String → List String → List Task → List Task
unfolding rewrite_deps
rewrite_depends_on supersede cancel tasks = map (rewrite_task supersede cancel) tasks

-- What `_check_retirable` appends.
unfoldable pub check_retirable :
    TaskStateFile → List String → String → RetireOp → List ValidationError
check_retirable ts sealed old_id op =
    let cur_status = status_of ts old_id in
    if is_cleared cur_status
    then ValidationError.cleared_task op old_id ∷ []
    else if is_running cur_status
    then ValidationError.status_invalid op old_id cur_status ∷ []
    else error_if (not (is_pending cur_status || is_failed cur_status))
        (ValidationError.status_invalid op old_id cur_status)
      ++ error_if (contains old_id sealed) (ValidationError.inside_sealed_subgraph op old_id)

-- Step 2: one id of `add_items`, and the files that no id declares.
unfoldable pub item_errors : List String → Option (List String) → String → List ValidationError
item_errors contract_ids on_disk aid =
    error_if (not (matches_assertion_id aid)) (ValidationError.invalid_assertion_id aid)
    ++ (error_if (contains aid contract_ids) (ValidationError.duplicate_assertion aid)
        ++ elim on_disk [
          | none ↦ []
          | some files ↦
              error_if (not (contains aid files)) (ValidationError.assertion_file_missing aid)
        ])

unfoldable pub orphan_errors : List String → Option (List String) → List ValidationError
orphan_errors declared none = []
orphan_errors declared (some files) =
    map (λ o. ValidationError.undeclared_new_assertion o) (minus files declared)

-- Step 3: the loop over `add`, with the ids seen so far.
unfoldable pub add_errors : List String → List String → List Task → List ValidationError
add_errors existing seen [] = []
add_errors existing seen (t ∷ ts) =
    error_if (contains t.id existing) (ValidationError.task_id_collision t.id)
    ++ (error_if (contains t.id seen) (ValidationError.duplicate_add_task t.id)
        ++ add_errors existing (t.id ∷ seen) ts)

-- Step 4: one pair of `supersede`.
unfoldable pub supersede_errors :
    TaskStateFile
    → List String
    → List String
    → List String
    → List String
    → String × String
    → List ValidationError
unfolding check_retirable
supersede_errors ts sealed existing all_ids cancel (old_id, new_id) =
    error_if (old_id == new_id) (ValidationError.supersede_self old_id)
    ++ (if not (contains old_id existing)
        then ValidationError.unknown_supersede_target old_id ∷ []
        else check_retirable ts sealed old_id RetireOp.supersede
          ++ (if not (contains new_id all_ids)
              then ValidationError.supersede_new_id_unknown old_id new_id ∷ []
              else error_if (contains new_id cancel)
                  (ValidationError.supersede_target_cancelled old_id new_id)))

-- Step 4: one id of `cancel`.
unfoldable pub cancel_errors :
    TaskStateFile → List String → List String → String → List ValidationError
unfolding check_retirable
cancel_errors ts sealed existing old_id =
    if not (contains old_id existing)
    then ValidationError.unknown_cancel_target old_id ∷ []
    else check_retirable ts sealed old_id RetireOp.cancel

unfoldable pub overlap_errors : List String → List String → List ValidationError
overlap_errors cancel superseded =
    let overlap = select (λ id. contains id superseded) cancel in
    error_if (not (is_empty overlap)) (ValidationError.cancel_supersede_overlap overlap)

unfoldable pub retire_errors : TaskList → TaskStateFile → TaskListPatch → List ValidationError
unfolding sealed_task_ids overlap_errors supersede_errors cancel_errors
retire_errors tl ts patch =
    let existing = ids_of tl.tasks in
    let all_ids = existing ++ ids_of patch.add in
    let sealed = sealed_task_ids tl ts in
    overlap_errors patch.cancel (keys patch.supersede)
    ++ (concat_map (supersede_errors ts sealed existing all_ids patch.cancel) patch.supersede
        ++ concat_map (cancel_errors ts sealed existing) patch.cancel)

-- Step 5: the patched list, statuses and contract.
unfoldable pub patched_list : TaskList → TaskListPatch → TaskList
unfolding rewrite_depends_on
patched_list tl patch = record {
  tasks = rewrite_depends_on patch.supersede patch.cancel (tl.tasks ++ patch.add);
}

unfoldable pub set_all : TaskStatus → TaskStateFile → List String → TaskStateFile
set_all status ts ids = foldl (λ s id. set_status s id status) ts ids

unfoldable pub patched_state : TaskStateFile → TaskListPatch → TaskStateFile
unfolding set_all
patched_state ts patch =
    set_all TaskStatus.pending
      (set_all TaskStatus.superseded (set_all TaskStatus.superseded ts (keys patch.supersede))
        patch.cancel)
      (ids_of patch.add)

-- The entries of the state that was passed in, once `patched_state` is made: its dict is a copy, but the
-- entries are the same objects, so that their status has changed too.
unfoldable pub entries_after : TaskStateFile → Dict TaskStateEntry → Dict TaskStateEntry
entries_after patched entries =
    map (λ p. (p.0, record p.1 { status = status_of patched p.0 })) entries

unfoldable pub shared_state : TaskStateFile → TaskListPatch → TaskStateFile
unfolding entries_after patched_state
shared_state ts patch = record { tasks = entries_after (patched_state ts patch) ts.tasks }

pub record PatchResult : Type 0 where
  pub task_list : TaskList
  pub task_state : TaskStateFile
  pub contract_ids : List String
  pub errors : List ValidationError

-- `if errors: return tl, task_state, contract_ids, errors`
abbrev pub unless_errors : PatchResult → List ValidationError → PatchResult → PatchResult
unless_errors before [] next = next
unless_errors before (e ∷ es) next = record before { errors = e ∷ es }

unfoldable pub apply_patch :
    TaskList → TaskStateFile → List String → TaskListPatch → Option (List String) → PatchResult
unfolding item_errors orphan_errors add_errors retire_errors shared_state
apply_patch tl ts contract_ids patch on_disk =
    let before : PatchResult = record {
      task_list = tl;
      task_state = ts;
      contract_ids = contract_ids;
      errors = [];
    } in
    let after : PatchResult = record {
      task_list = patched_list tl patch;
      task_state = patched_state ts patch;
      contract_ids = union contract_ids patch.add_items;
      errors = [];
    } in
    if is_empty_patch patch
    then record before { errors = ValidationError.empty_patch ∷ [] }
    else unless_errors before
        (concat_map (item_errors contract_ids on_disk) patch.add_items
          ++ orphan_errors patch.add_items on_disk)
        (unless_errors before (add_errors (ids_of tl.tasks) [] patch.add) (
          unless_errors before (retire_errors tl ts patch) (
            unless_errors (record before { task_state = shared_state ts patch })
              (five_checks after.contract_ids after.task_list (some after.task_state)) after)))
