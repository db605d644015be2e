-- ===== src/Coordinator/Collect/Outcome.antt =====
-- src/unrest_harness/coordinator.py: `_apply_handoff_collect` and the statuses.
use unrest.Base.{
  ◌≡◌, refl, not, ◌&&◌, ◌||◌, String, Option, none, some, arith, ◌==◌, if◌then◌else◌, is_none,
  is_some,
}
use unrest.Model.Task.{
  Task, TaskList, TaskType, TaskStatus, is_gate, status_of, status_of-set_status,
}
use unrest.Model.Handoff.{NodeHandoff, is_done}
use unrest.Coordinator.Attention.{Snapshot}
use unrest.Coordinator.Collect.{
  Cursor, collect_work, collect_validate, collect_by_type, apply_handoff_collect, bound_handoff,
  blocked_handoff,
}

-- The status that the task has afterwards, where it is no gate or was stopped.
abbrev pub outcome : NodeHandoff → Option String → Option Snapshot → TaskStatus
outcome h block stopped =
    if is_none stopped && (is_none block && is_done h)
    then TaskStatus.cleared
    else TaskStatus.failed

module _ (new_id : String → String) where
  by_type-status :
      (type : TaskType) (mid : String) (tl : TaskList) (cursor : Cursor) (task : Task)
      (h : NodeHandoff) (j : String)
      → status_of (collect_by_type new_id type mid tl cursor task h).0.task_state j ≡ (
          if task.id == j && not (is_gate type)
          then (if is_done h then TaskStatus.cleared else TaskStatus.failed)
          else status_of cursor.task_state j)
  unfolding collect_by_type collect_work collect_validate
  by_type-status TaskType.work mid tl cursor task (NodeHandoff.work h) j = ground (
    arith,
    status_of-set_status cursor.task_state task.id j TaskStatus.cleared,
    status_of-set_status cursor.task_state task.id j TaskStatus.failed,
  )
  by_type-status TaskType.work mid tl cursor task (NodeHandoff.validate h) j = ground (
    arith,
    status_of-set_status cursor.task_state task.id j TaskStatus.cleared,
    status_of-set_status cursor.task_state task.id j TaskStatus.failed,
  )
  by_type-status TaskType.validate mid tl cursor task (NodeHandoff.work h) j = ground (
    arith,
    status_of-set_status cursor.task_state task.id j TaskStatus.cleared,
    status_of-set_status cursor.task_state task.id j TaskStatus.failed,
  )
  by_type-status TaskType.validate mid tl cursor task (NodeHandoff.validate h) j = ground (
    arith,
    status_of-set_status cursor.task_state task.id j TaskStatus.cleared,
    status_of-set_status cursor.task_state task.id j TaskStatus.failed,
  )
  by_type-status TaskType.gate mid tl cursor task h j = ground arith

  done-bound :
      (h : NodeHandoff) (block : Option String) (a : String)
      → is_done (bound_handoff new_id h block a) ≡ (is_none block && is_done h)
  unfolding bound_handoff blocked_handoff
  done-bound (NodeHandoff.work h) none a = refl
  done-bound (NodeHandoff.work h) (some r) a = refl
  done-bound (NodeHandoff.validate h) none a = refl
  done-bound (NodeHandoff.validate h) (some r) a = refl

  -- Collecting a handoff sets the status of its task alone: to cleared where the attempt was neither
  -- stopped nor blocked and the handoff is done, and to failed otherwise. A gate's own status is set only
  -- where its attempt was stopped.
  pub apply_handoff_collect-status :
      (mid : String) (tl : TaskList) (cursor : Cursor) (task : Task) (h : NodeHandoff)
      (block : Option String) (stopped : Option Snapshot) (spawn_ts j : String)
      → status_of
          (apply_handoff_collect new_id mid tl cursor task h block stopped spawn_ts).0.task_state
          j
        ≡ (if task.id == j && (is_some stopped || not (is_gate task.type))
            then outcome h block stopped
            else status_of cursor.task_state j)
  unfolding apply_handoff_collect
  apply_handoff_collect-status mid tl cursor task h block none spawn_ts j = ground (
    arith,
    by_type-status task.type mid tl cursor task (bound_handoff new_id h block spawn_ts) j,
    done-bound h block spawn_ts,
  )
  apply_handoff_collect-status mid tl cursor task h block (some s) spawn_ts j =
      ground (arith, status_of-set_status cursor.task_state task.id j TaskStatus.failed)
