-- ===== src/Tests/Patches.antt =====
-- Patches of the small mission: one that repairs it, one that is refused, one that is refused after
-- it has changed its argument, and one that strands a task.
use unrest.Base.{
  ◌≡◌, ◌≢◌, refl, true, false, ◌||◌, [], ◌∷◌, ◌++◌, map, String, some, if◌then◌else◌, contains,
  keys, find, put, modify, is_some, concat_map, union, All,
}
use unrest.Model.Task.{
  TaskList, TaskListPatch, TaskStatus, is_cleared, is_running, is_empty_patch, status_of,
  set_status,
}
use unrest.Model.Names.{matches_task_id, has_text}
use unrest.Validation.Fields.{ids_of, check_task_ids, check_task_shape, check_deps_resolve}
use unrest.Validation.Graph.{check_acyclic}
use unrest.Validation.Coverage.{check_coverage}
use unrest.Validation.Submission.Exact.{IsRunnable, five_checks}
use unrest.Patch.{
  sealed_task_ids, retire_errors, patched_list, patched_state, rewrite_task, apply_patch,
  item_errors, orphan_errors, add_errors,
}
use unrest.Patch.Refusal.{apply_patch-IsRunnable}
use unrest.Patch.Atomic.{untouched, apply_patch-Refused, apply_patch-shared}
use unrest.Patch.Statuses.{Retirable, apply_patch_statuses, apply_patch-Retirable}
use unrest.Patch.Rewriting.{MayStand, apply_patch-MayStand}
use unrest.Patch.Stranded.{apply_patch-stranded}
use unrest.Coordinator.Runnable.{is_ready}
use unrest.Tests.Samples.{
  contract, worker, validator, last_gate, plan, failed_state, untouched_state,
}

-- The failed worker is replaced by a new one.
abbrev repair : TaskListPatch
repair = record {
  add_items = [];
  add = worker "build2" contract [] ∷ [];
  supersede = ("build", "build2") ∷ [];
  cancel = [];
}

repair-accepted : (apply_patch plan failed_state contract repair (some [])).errors ≡ []
unfolding apply_patch is_empty_patch status_of find check_task_ids patched_list matches_task_id
    check_task_shape has_text check_deps_resolve check_acyclic keys modify put check_coverage
    set_status
repair-accepted = refl

apply_patch-IsRunnable_example :
    IsRunnable
      (apply_patch plan failed_state contract repair (some [])).contract_ids
      (apply_patch plan failed_state contract repair (some [])).task_list
      (some (apply_patch plan failed_state contract repair (some [])).task_state)
apply_patch-IsRunnable_example =
    apply_patch-IsRunnable plan failed_state contract repair (some []) refl repair-accepted

apply_patch_statuses_example :
    (contains "build" (ids_of plan.tasks) ≡ true
      → status_of (apply_patch plan failed_state contract repair (some [])).task_state "build" ≡ (
          if contains "build" (keys repair.supersede) || contains "build" repair.cancel
          then TaskStatus.superseded
          else status_of failed_state "build"))
    × (contains "build" (ids_of repair.add) ≡ true
        → (contains "build" (ids_of plan.tasks) ≡ false)
          × (status_of (apply_patch plan failed_state contract repair (some [])).task_state "build"
              ≡ TaskStatus.pending))
apply_patch_statuses_example =
    apply_patch_statuses plan failed_state contract repair (some []) "build" repair-accepted

apply_patch-Retirable_example :
    ((contains "build" (keys repair.supersede) || contains "build" repair.cancel) ≡ true
      → Retirable plan failed_state "build")
    × (contains "build" (ids_of plan.tasks) ≡ true
        → (is_cleared (status_of failed_state "build")
            || (is_running (status_of failed_state "build")
                || contains "build" (sealed_task_ids plan failed_state)))
          ≡ true
        → status_of (apply_patch plan failed_state contract repair (some [])).task_state "build"
          ≡ status_of failed_state "build")
apply_patch-Retirable_example =
    apply_patch-Retirable plan failed_state contract repair (some []) "build" repair-accepted

apply_patch-MayStand_example :
    All
      (λ t. (x : String) → contains x t.depends_on ≡ true → MayStand plan failed_state repair x)
      (apply_patch plan failed_state contract repair (some [])).task_list.tasks
apply_patch-MayStand_example =
    apply_patch-MayStand plan failed_state contract repair (some []) repair-accepted

-- The worker is cancelled, which leaves its assertion without an owner.
abbrev gap : TaskListPatch
gap = record { add_items = []; add = []; supersede = []; cancel = "build" ∷ [] }

gap-refused : (apply_patch plan failed_state contract gap (some [])).errors ≢ []
unfolding apply_patch is_empty_patch status_of find check_task_ids patched_list matches_task_id
    check_task_shape has_text check_deps_resolve check_acyclic keys modify put check_coverage
    set_status
gap-refused h = cc

apply_patch-Refused_example :
    ((apply_patch plan failed_state contract gap (some [])).task_list ≡ plan)
    × ((apply_patch plan failed_state contract gap (some [])).contract_ids ≡ contract)
    × ((x : String)
        → untouched gap x ≡ true
        → status_of (apply_patch plan failed_state contract gap (some [])).task_state x
          ≡ status_of failed_state x)
apply_patch-Refused_example =
    apply_patch-Refused plan failed_state contract gap (some []) gap-refused

gap-retires : retire_errors plan failed_state gap ≡ []
unfolding retire_errors keys status_of find
gap-retires = refl

gap-fails :
    five_checks
      (union contract gap.add_items)
      (patched_list plan gap)
      (some (patched_state failed_state gap))
    ≢ []
unfolding patched_state status_of find check_task_ids patched_list matches_task_id check_task_shape
    has_text check_deps_resolve check_acyclic keys modify put check_coverage set_status
gap-fails h = cc

gap-empty : is_empty_patch gap ≡ false
unfolding is_empty_patch
gap-empty = refl

gap-items :
    concat_map (item_errors contract (some [])) gap.add_items
      ++ orphan_errors gap.add_items (some [])
    ≡ []
unfolding orphan_errors
gap-items = refl

gap-adds : add_errors (ids_of plan.tasks) [] gap.add ≡ []
unfolding add_errors
gap-adds = refl

build-entry : is_some (find "build" failed_state.tasks) ≡ true
unfolding find
build-entry = refl

gap-names : (contains "build" (keys gap.supersede) || contains "build" gap.cancel) ≡ true
unfolding keys
gap-names = refl

apply_patch-shared_example :
    ((apply_patch plan failed_state contract gap (some [])).errors ≢ [])
    × (status_of (apply_patch plan failed_state contract gap (some [])).task_state "build"
        ≡ TaskStatus.superseded)
apply_patch-shared_example =
    apply_patch-shared plan failed_state contract gap (some []) "build" gap-empty gap-items gap-adds
      gap-retires gap-fails build-entry refl gap-names

-- Two workers and a validator of the first one's work.
abbrev long_plan : TaskList
long_plan = record {
  tasks =
      worker "first" contract []
      ∷ worker "second" [] []
      ∷ validator "check" ("first" ∷ [])
      ∷ last_gate
      ∷ [];
}

-- The first worker is replaced by the second, which is itself replaced by a new one.
abbrev chain : TaskListPatch
chain = record {
  add_items = [];
  add = worker "third" contract [] ∷ [];
  supersede = ("first", "second") ∷ ("second", "third") ∷ [];
  cancel = [];
}

chain-accepted : (apply_patch long_plan untouched_state contract chain (some [])).errors ≡ []
unfolding apply_patch is_empty_patch status_of find check_task_ids patched_list matches_task_id
    check_task_shape has_text check_deps_resolve check_acyclic keys modify put check_coverage
    set_status
chain-accepted = refl

chain-superseded :
    status_of (apply_patch long_plan untouched_state contract chain (some [])).task_state "second"
    ≡ TaskStatus.superseded
unfolding apply_patch is_empty_patch status_of find check_task_ids patched_list matches_task_id
    check_task_shape has_text check_deps_resolve check_acyclic keys modify put check_coverage
    set_status
chain-superseded = refl

chain-first : find "first" chain.supersede ≡ some "second"
unfolding find
chain-first = refl

apply_patch-stranded_example :
    ((apply_patch long_plan untouched_state contract chain (some [])).task_list.tasks
      ≡ map (rewrite_task chain.supersede chain.cancel) (long_plan.tasks ++ chain.add))
    × (contains "second"
          (rewrite_task chain.supersede chain.cancel (validator "check" ("first" ∷ []))).depends_on
        ≡ true)
    × (is_ready
          (apply_patch long_plan untouched_state contract chain (some [])).task_state
          (rewrite_task chain.supersede chain.cancel (validator "check" ("first" ∷ [])))
        ≡ false)
apply_patch-stranded_example =
    apply_patch-stranded long_plan untouched_state contract chain (some []) "first" "second"
      (validator "check" ("first" ∷ [])) chain-accepted chain-first refl chain-superseded refl
