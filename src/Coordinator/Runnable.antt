-- ===== src/Coordinator/Runnable.antt =====
-- src/unrest_harness/coordinator.py: runnable tasks, and the batch that is dispatched.
mod Batch
pub mod Dispatch
use unrest.Base.{
  ℕ, suc, ◌≤◌, Bool, true, false, not, ◌&&◌, ◌||◌, List, [], ◌∷◌, String, Option, none, some,
  if◌then◌else◌, contains, leb, ltb, is_empty, length, take, select, all, any, max,
}
use unrest.Model.Task.{
  Task, TaskList, TaskStateFile, is_gate, is_work, is_validate, is_pending, is_cleared, status_of,
}
use unrest.Validation.Fields.{ids_of}
use unrest.Validation.Navigation.{task_by_id, gates_in_order}

-- `all(task_state.status_of(dep) == "cleared" for dep in task.depends_on)`
unfoldable pub deps_cleared : TaskStateFile → Task → Bool
deps_cleared ts task = all (λ dep. is_cleared (status_of ts dep)) task.depends_on

-- The tests in the loop of `_all_runnable_tasks`.
unfoldable pub is_ready : TaskStateFile → Task → Bool
unfolding deps_cleared
is_ready ts task =
    not (is_gate task.type) && (is_pending (status_of ts task.id) && deps_cleared ts task)

unfoldable pub all_runnable_tasks : TaskList → TaskStateFile → List Task
unfolding is_ready
all_runnable_tasks tl ts = select (is_ready ts) tl.tasks

unfoldable pub next_runnable_task : TaskList → TaskStateFile → Option Task
unfolding all_runnable_tasks
next_runnable_task tl ts = elim (all_runnable_tasks tl ts) [ [] ↦ none | t ∷ rest ↦ some t ]

-- `by_id.get(dep_id) is not None and by_id[dep_id].type == "validate"`
unfoldable pub is_validator_id : List Task → String → Bool
is_validator_id tasks id = elim (task_by_id id tasks) [ none ↦ false | some t ↦ is_validate t.type ]

-- `deps_ready` of one dependency.
unfoldable pub dep_ready : TaskList → TaskStateFile → List String → String → Bool
unfolding is_validator_id
dep_ready tl ts runnable_validators dep =
    if is_validator_id tl.tasks dep
    then is_cleared (status_of ts dep) || contains dep runnable_validators
    else is_cleared (status_of ts dep)

-- The tests by which the loop over the gates passes a gate over, or returns at it.
unfoldable pub lane_ready : TaskList → TaskStateFile → List String → Task → Bool
unfolding dep_ready is_validator_id
lane_ready tl ts runnable_validators gate =
    is_pending (status_of ts gate.id)
    && (not (is_empty (select (is_validator_id tl.tasks) gate.depends_on))
        && all (dep_ready tl ts runnable_validators) gate.depends_on)

-- The first gate of a list with a ready lane.
unfoldable pub first_lane : TaskList → TaskStateFile → List String → List Task → Option Task
unfolding lane_ready
first_lane tl ts runnable_validators [] = none
first_lane tl ts runnable_validators (gate ∷ gates) =
    let rest = first_lane tl ts runnable_validators gates in
    if lane_ready tl ts runnable_validators gate then some gate else rest

-- The runnable validators of the gate's lane.
unfoldable pub lane_batch : TaskList → List String → List Task → Option Task → List Task
unfolding is_validator_id
lane_batch tl runnable_validators runnable none = []
lane_batch tl runnable_validators runnable (some gate) =
    select
      (λ t.
        contains t.id runnable_validators
        && contains t.id (select (is_validator_id tl.tasks) gate.depends_on))
      runnable

unfoldable pub validator_batch_for_pending_gate : TaskList → TaskStateFile → List Task → List Task
unfolding first_lane lane_batch
validator_batch_for_pending_gate tl ts runnable =
    let runnable_validators = ids_of (select (λ t. is_validate t.type) runnable) in
    lane_batch tl runnable_validators runnable
      (first_lane tl ts runnable_validators (gates_in_order tl))

-- `isolated` stands for `_isolated_work_supported`, which asks the dispatcher, the write scopes and
-- the workspace's version control. `max_parallel_nodes` is the configured number.
module _ (isolated : List Task → Bool) (max_parallel_nodes : ℕ) where
  abbrev pub capacity : ℕ
  capacity = max 1 max_parallel_nodes

  unfoldable pub select_dispatch_tasks : TaskList → TaskStateFile → List Task → List Task
  unfolding validator_batch_for_pending_gate
  select_dispatch_tasks tl ts runnable =
      let validator_batch = validator_batch_for_pending_gate tl ts runnable in
      let candidate_batch = take capacity runnable in
      let work_batch = select (λ t. is_work t.type) candidate_batch in
      if not (is_empty validator_batch)
      then take capacity validator_batch
      else if not (is_empty work_batch)
      then (if leb 2 (length work_batch) && isolated work_batch
          then work_batch
          else take 1 candidate_batch)
      else candidate_batch

  -- The tests with which `_dispatch_batch` begins: `true` where neither raises.
  unfoldable pub batch_allowed : List Task → Bool
  batch_allowed batch =
      if any (λ t. is_work t.type) batch
      then all (λ t. is_work t.type) batch && not (ltb (length batch) 2 || not (isolated batch))
      else true
