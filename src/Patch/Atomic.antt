-- ===== src/Patch/Atomic.antt =====
-- src/unrest_harness/task_list_patch.py: what a refused patch leaves of its arguments.
use unrest.Base.{
  ◌≡◌, ◌≢◌, inl, inr, sym, ap, ◌∙◌, Bool, true, false, not, ◌&&◌, ◌||◌, List, [], ◌++◌, String,
  Option, some, arith, contains, keys, find, is_some, concat_map, union,
}
use unrest.Model.Task.{
  TaskList, TaskListPatch, TaskStateFile, TaskStatus, is_empty_patch, status_of,
}
use unrest.Validation.Fields.{ids_of}
use unrest.Validation.Submission.Exact.{five_checks}
use unrest.Patch.{
  item_errors, orphan_errors, add_errors, retire_errors, patched_list, patched_state, PatchResult,
  apply_patch,
}
use unrest.Patch.Refusal.{apply_patch-cases, apply_patch-last, status_of-shared_state}
use unrest.Patch.Statuses.{status_of-patched_state}

-- The task is named by no operation of the patch.
abbrev pub untouched : TaskListPatch → String → Bool
untouched patch x =
    not (contains x (ids_of patch.add))
    && not (contains x (keys patch.supersede) || contains x patch.cancel)

-- A patch with any error leaves the task list and the contract as they were, and the status of every
-- task that none of its operations names.
pub apply_patch-Refused :
    (tl : TaskList) (ts : TaskStateFile) (c : List String) (patch : TaskListPatch)
    (on_disk : Option (List String))
    → (apply_patch tl ts c patch on_disk).errors ≢ []
    → ((apply_patch tl ts c patch on_disk).task_list ≡ tl)
      × ((apply_patch tl ts c patch on_disk).contract_ids ≡ c)
      × ((x : String)
          → untouched patch x ≡ true
          → status_of (apply_patch tl ts c patch on_disk).task_state x ≡ status_of ts x)
apply_patch-Refused tl ts c patch on_disk n = elim (apply_patch-cases tl ts c patch on_disk) [
  | inl (e, _) ↦ absurd (n e)
  | inr (_, r) ↦ (
    r.list_kept,
    r.contract_kept,
    λ x u. elim r.state_kept [
      | inl same ↦ ap (λ (s : TaskStateFile). status_of s x) same
      | inr shared ↦
          ap (λ (s : TaskStateFile). status_of s x) shared
          ∙ ground (arith, status_of-shared_state ts patch x, status_of-patched_state ts patch x)
    ],
  )
]

-- A patch whose operations pass, and whose patched list then fails a check of the task list, is
-- refused, but the state that it returns, which is the object that was passed in, holds a superseded
-- status for each task with an entry that the patch would have retired.
pub apply_patch-shared :
    (tl : TaskList) (ts : TaskStateFile) (c : List String) (patch : TaskListPatch)
    (on_disk : Option (List String)) (x : String)
    → is_empty_patch patch ≡ false
    → concat_map (item_errors c on_disk) patch.add_items ++ orphan_errors patch.add_items on_disk
      ≡ []
    → add_errors (ids_of tl.tasks) [] patch.add ≡ []
    → retire_errors tl ts patch ≡ []
    → five_checks (union c patch.add_items) (patched_list tl patch) (some (patched_state ts patch))
      ≢ []
    → is_some (find x ts.tasks) ≡ true
    → contains x (ids_of patch.add) ≡ false
    → (contains x (keys patch.supersede) || contains x patch.cancel) ≡ true
    → ((apply_patch tl ts c patch on_disk).errors ≢ [])
      × (status_of (apply_patch tl ts c patch on_disk).task_state x ≡ TaskStatus.superseded)
apply_patch-shared tl ts c patch on_disk x e i a r f k n m =
    let whole = apply_patch-last tl ts c patch on_disk e i a r f in
    (
      λ h. f (sym (ap (λ (p : PatchResult). p.errors) whole) ∙ h),
      ap (λ (p : PatchResult). status_of p.task_state x) whole
          ∙ ground (
            arith,
            k,
            n,
            m,
            status_of-shared_state ts patch x,
            status_of-patched_state ts patch x,
          ),
    )
