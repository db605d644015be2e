-- ===== src/Coordinator/Collect/Heard.antt =====
-- src/unrest_harness/coordinator.py: `_apply_handoff_collect` on a validation that did not pass.
use unrest.Base.{
  ◌≡◌, ◌⊎◌, inl, inr, Bool-cases, true, false, not, [], String, Option, none, some, arith, select,
  contains, find, contains-select, none-contains,
}
use unrest.Model.Task.{Task, TaskList, TaskType, TaskStatus, TaskStateFile}
use unrest.Model.Handoff.{NodeHandoff, ValidateHandoff}
use unrest.Coordinator.Search.{downstream_of}
use unrest.Coordinator.Search.Exact.{Reached, search_down_exact}
use unrest.Coordinator.Collect.{
  Cursor, collect_validate, collect_by_type, apply_handoff_collect, bound_handoff, blocked_handoff,
  validate_failure_needs_attention, returned_verdicts, not_true, is_pending_gate_for,
  has_pending_downstream_gate_covering, with_status,
}

-- The target passed by the last item of the handoff that names it, or some pending gate that names it
-- stands down the graph from the task.
abbrev pub Settled : TaskList → TaskStateFile → Task → ValidateHandoff → String → Type 0
Settled tl ts task h target =
    (not_true (find target (returned_verdicts task [] h.items)) ≡ false)
    ⊎ ((gate : String) × Reached tl.tasks (λ id. false) (is_pending_gate_for tl ts target)
          (downstream_of tl.tasks task.id) gate
        × (is_pending_gate_for tl ts target gate ≡ true))

quiet :
    (tl : TaskList) (ts : TaskStateFile) (task : Task) (h : ValidateHandoff) (target : String)
    → validate_failure_needs_attention tl ts task h ≡ false
    → contains target task.targets ≡ true
    → not_true (find target (returned_verdicts task [] h.items)) ≡ true
    → has_pending_downstream_gate_covering tl ts task.id target ≡ true
unfolding validate_failure_needs_attention
quiet tl ts task h target q c n =
    let returned = returned_verdicts task [] h.items in
    let lacks = λ (t : String). not_true (find t returned) in
    let deaf = λ (t : String). not (has_pending_downstream_gate_covering tl ts task.id t) in
    ground (
      arith,
      contains-select lacks task.targets target,
      none-contains deaf (select lacks task.targets) target,
    )

settled :
    (tl : TaskList) (ts : TaskStateFile) (task : Task) (h : ValidateHandoff) (target : String)
    → validate_failure_needs_attention tl ts task h ≡ false
    → contains target task.targets ≡ true
    → Settled tl ts task h target
unfolding has_pending_downstream_gate_covering
settled tl ts task h target q c =
    elim (Bool-cases (not_true (find target (returned_verdicts task [] h.items)))) [
      | inl lacks ↦ inr (
          (search_down_exact tl.tasks (λ id. false) (is_pending_gate_for tl ts target)
              (downstream_of tl.tasks task.id)).0
            (quiet tl ts task h target q c lacks))
      | inr passed ↦ inl passed
    ]

-- A collected `ValidateHandoff` of a validation task, whose attempt was not stopped, that raises no
-- attention is done and asks for none, and each target of the task either passed by the last item that names it or is left to a pending gate that
-- names it and stands down the graph from the task.
pub apply_handoff_collect-heard :
    (new_id : String → String) (mid : String) (tl : TaskList) (cursor : Cursor) (task : Task)
    (h : ValidateHandoff) (block : Option String) (spawn_ts : String)
    → task.type ≡ TaskType.validate
    → (apply_handoff_collect new_id mid tl cursor task
        (NodeHandoff.validate h)
        block
        none
        spawn_ts).1
      ≡ some []
    → (h.done ≡ true)
      × (h.request_attention ≡ false)
      × ((target : String)
          → contains target task.targets ≡ true
          → Settled tl (with_status cursor task TaskStatus.cleared).task_state task h target)
unfolding apply_handoff_collect collect_by_type collect_validate bound_handoff blocked_handoff
apply_handoff_collect-heard new_id mid tl cursor task h none spawn_ts v q =
    let h' : ValidateHandoff = record h { attempt_id = some spawn_ts } in
    let cleared = (with_status cursor task TaskStatus.cleared).task_state in
    let silent : validate_failure_needs_attention tl cleared task h' ≡ false =
      ground (arith, v, q) in
    (
      ground (arith, v, q),
      ground (arith, v, q),
      λ target c. settled tl cleared task h' target silent c,
    )
apply_handoff_collect-heard new_id mid tl cursor task h (some r) spawn_ts v q = ground (arith, v, q)
