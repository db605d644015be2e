-- ===== src/Coordinator/Collect.antt =====
-- src/unrest_harness/coordinator.py: what the coordinator does with a handoff that it collects, and
-- with the result of a gate.
-- The files of the store are a record that the functions return again. A result `none` in place of
-- the attention items is an exception, which the code raises after it has saved the files.
pub mod Verdicts
pub mod Binding
pub mod Outcome
pub mod Answers
pub mod Heard
pub mod GateStep
use unrest.Base.{
  Bool, true, false, not, ◌&&◌, ◌||◌, List, [], ◌∷◌, ◌++◌, String, Option, none, some, ◌==◌,
  if◌then◌else◌, contains, is_empty, select, all, any, Dict, find, put,
}
use unrest.Model.Task.{
  Task, TaskList, TaskType, TaskStatus, TaskStateFile, is_gate, is_validate, is_pending, status_of,
  set_status,
}
use unrest.Model.Handoff.{
  NodeHandoff, WorkHandoff, ValidateHandoff, ValidationItem, AssertionStatus, ContractState,
  is_passed, node_id_of, attempt_id_of, is_done, requests_attention, with_attempt,
}
use unrest.Model.Attention.{AttentionItem}
use unrest.Validation.Navigation.{task_by_id}
use unrest.Coordinator.Search.{downstream_of, search_down}
use unrest.Coordinator.Attention.{Snapshot, node_failed, node_attention, cooperative_stop}
use unrest.Coordinator.Gates.{GateEvent, GateResult}

-- src/unrest_harness/provider_review.py: `blocked_handoff`; `report` is the explanation with the
-- block's reason.
unfoldable pub blocked_handoff : NodeHandoff → String → String → NodeHandoff
blocked_handoff (NodeHandoff.work h) report attempt_id =
    let blocked : WorkHandoff = record {
      node_id = h.node_id;
      attempt_id = some attempt_id;
      done = false;
      report = report;
      request_attention = true;
    } in
    NodeHandoff.work blocked
blocked_handoff (NodeHandoff.validate h) report attempt_id =
    let blocked : ValidateHandoff = record {
      node_id = h.node_id;
      attempt_id = some attempt_id;
      done = false;
      report = report;
      items = [];
      passed = false;
      request_attention = true;
    } in
    NodeHandoff.validate blocked

unfoldable pub synthesize_handoff : Task → String → NodeHandoff
synthesize_handoff task report =
    let empty : ValidateHandoff = record {
      node_id = task.id;
      attempt_id = none;
      done = false;
      report = report;
      items = [];
      passed = false;
      request_attention = false;
    } in
    let failed : WorkHandoff = record {
      node_id = task.id;
      attempt_id = none;
      done = false;
      report = report;
      request_attention = false;
    } in
    if is_validate task.type then NodeHandoff.validate empty else NodeHandoff.work failed

unfoldable pub bind_dispatched_handoff : Task → NodeHandoff → String → NodeHandoff
unfolding synthesize_handoff
bind_dispatched_handoff task handoff spawn_ts =
    let foreign = synthesize_handoff task "Dispatcher returned a handoff for a different task." in
    let null =
      synthesize_handoff task "Dispatcher returned a handoff with a null attempt identity." in
    let stale = synthesize_handoff task "Dispatcher returned a handoff for a stale generation." in
    if not (node_id_of handoff == task.id)
    then with_attempt foreign (some spawn_ts)
    else elim (attempt_id_of handoff) [
      | none ↦ with_attempt null (some spawn_ts)
      | some a ↦
          if a == spawn_ts
          then with_attempt handoff (some spawn_ts)
          else with_attempt stale (some spawn_ts)
    ]

-- `items.setdefault(item_id, ContractStateEntry())`
abbrev pub status_or_pending : Option AssertionStatus → AssertionStatus
status_or_pending none = AssertionStatus.pending
status_or_pending (some s) = s

-- The verdicts of one handoff, put into the contract's state.
unfoldable pub merge_verdicts : ContractState → List ValidationItem → ContractState
merge_verdicts items [] = items
merge_verdicts items (item ∷ rest) =
    let status = status_or_pending (find item.item_id items) in
    let merged =
      if item.passed
      then AssertionStatus.passed
      else if is_passed status
      then status
      else AssertionStatus.failed in
    merge_verdicts (put item.item_id merged items) rest

-- `returned`: the last item of a target wins.
unfoldable pub returned_verdicts : Task → Dict Bool → List ValidationItem → Dict Bool
returned_verdicts task returned [] = returned
returned_verdicts task returned (item ∷ rest) =
    returned_verdicts task
      (if contains item.item_id task.targets
        then put item.item_id item.passed returned
        else returned)
      rest

-- `value is not True`
abbrev pub not_true : Option Bool → Bool
not_true none = true
not_true (some b) = not b

-- Whether a task that the search meets is a pending gate that names the target.
abbrev pub is_pending_gate_for : TaskList → TaskStateFile → String → String → Bool
is_pending_gate_for tl ts target id = elim (task_by_id id tl.tasks) [
  | none ↦ false
  | some t ↦ is_gate t.type && (contains target t.targets && is_pending (status_of ts t.id))
]

unfoldable pub has_pending_downstream_gate_covering :
    TaskList → TaskStateFile → String → String → Bool
has_pending_downstream_gate_covering tl ts task_id target =
    search_down tl.tasks (λ id. false) (is_pending_gate_for tl ts target)
      (downstream_of tl.tasks task_id)

unfoldable pub validate_failure_needs_attention :
    TaskList → TaskStateFile → Task → ValidateHandoff → Bool
unfolding returned_verdicts has_pending_downstream_gate_covering
validate_failure_needs_attention tl ts task handoff =
    let returned = returned_verdicts task [] handoff.items in
    let needing = select (λ target. not_true (find target returned)) task.targets in
    let unheard = any (λ target. not (has_pending_downstream_gate_covering tl ts task.id target)) in
    if is_empty needing && handoff.passed
    then false
    else if is_empty needing
    then unheard task.targets
    else unheard needing

-- What the function reads and saves of the store.
pub record Cursor : Type 0 where
  pub task_state : TaskStateFile
  pub contract_state : ContractState

-- `attention.append(item)`, under a condition; the item is `none` where making it raises.
abbrev pub append_attention :
    List AttentionItem → Bool → Option AttentionItem → Option (List AttentionItem)
append_attention items false item = some items
append_attention items true none = none
append_attention items true (some item) = some (items ++ item ∷ [])

-- The cursor once the task has a status.
abbrev pub with_status : Cursor → Task → TaskStatus → Cursor
with_status cursor task status = record cursor {
  task_state = set_status cursor.task_state task.id status;
}

module _ (new_id : String → String) where
  -- A work task: done, or failed with one item. A validation handoff of one fails the assertion on its
  -- class.
  unfoldable pub collect_work :
      String → Cursor → Task → NodeHandoff → Cursor × Option (List AttentionItem)
  unfolding node_failed node_attention
  collect_work mid cursor task (NodeHandoff.work h) =
      let failed = append_attention [] true (node_failed new_id mid task h) in
      let asked =
        append_attention [] h.request_attention
          (node_attention new_id mid task (NodeHandoff.work h)) in
      if h.done
      then (with_status cursor task TaskStatus.cleared, asked)
      else (with_status cursor task TaskStatus.failed, failed)
  collect_work mid cursor task (NodeHandoff.validate h) =
      let asked =
        append_attention [] h.request_attention
          (node_attention new_id mid task (NodeHandoff.validate h)) in
      if h.done
      then (with_status cursor task TaskStatus.cleared, asked)
      else (with_status cursor task TaskStatus.failed, none)

  -- A validation task: its verdicts are merged, and what no pending gate will say is said now.
  unfoldable pub collect_validate :
      String → TaskList → Cursor → Task → NodeHandoff → Cursor × Option (List AttentionItem)
  unfolding node_attention merge_verdicts validate_failure_needs_attention
  collect_validate mid tl cursor task (NodeHandoff.work h) =
      let item = node_attention new_id mid task (NodeHandoff.work h) in
      if h.done
      then (
        with_status cursor task TaskStatus.cleared,
        append_attention [] h.request_attention item,
      )
      else (with_status cursor task TaskStatus.failed, append_attention [] true item)
  collect_validate mid tl cursor task (NodeHandoff.validate h) =
      let item = node_attention new_id mid task (NodeHandoff.validate h) in
      let cleared = with_status cursor task TaskStatus.cleared in
      let merged = record cleared {
        contract_state = merge_verdicts cursor.contract_state h.items;
      } in
      let first =
        append_attention [] (validate_failure_needs_attention tl cleared.task_state task h) item in
      if h.done
      then (
        merged,
        elim first [ none ↦ none | some items ↦ append_attention items h.request_attention item ],
      )
      else (with_status cursor task TaskStatus.failed, append_attention [] true item)

  -- A handoff of a task of another type changes no file.
  unfoldable pub collect_by_type :
      TaskType
      → String
      → TaskList
      → Cursor
      → Task
      → NodeHandoff
      → Cursor × Option (List AttentionItem)
  unfolding collect_work collect_validate node_attention
  collect_by_type TaskType.work mid tl cursor task h = collect_work mid cursor task h
  collect_by_type TaskType.validate mid tl cursor task h = collect_validate mid tl cursor task h
  collect_by_type TaskType.gate mid tl cursor task h =
      (cursor, append_attention [] (requests_attention h) (node_attention new_id mid task h))

  -- The handoff under its attempt, blocked where a review of the provider blocked the attempt.
  unfoldable pub bound_handoff : NodeHandoff → Option String → String → NodeHandoff
  unfolding blocked_handoff
  bound_handoff handoff none spawn_ts = with_attempt handoff (some spawn_ts)
  bound_handoff handoff (some report) spawn_ts =
      with_attempt (blocked_handoff handoff report spawn_ts) (some spawn_ts)

  -- `block` is the report of the provider's review, where the store holds one of the attempt; `stopped`
  -- is the snapshot of `finalize_supervision_attempt`, where the attempt was stopped.
  unfoldable pub apply_handoff_collect :
      String
      → TaskList
      → Cursor
      → Task
      → NodeHandoff
      → Option String
      → Option Snapshot
      → String
      → Cursor × Option (List AttentionItem)
  unfolding bound_handoff collect_by_type cooperative_stop
  apply_handoff_collect mid tl cursor task handoff block none spawn_ts =
      collect_by_type task.type mid tl cursor task (bound_handoff handoff block spawn_ts)
  apply_handoff_collect mid tl cursor task handoff block (some snapshot) spawn_ts =
      let text : String = "Attempt stopped cooperatively at a semantic checkpoint." in
      (with_status cursor task TaskStatus.failed, some (cooperative_stop new_id snapshot text ∷ []))

-- The files of the store that a gate's result changes. `rendered` is the item that
-- `_bounded_gate_attention` makes of the event.
pub record Board : Type 0 where
  pub task_state : TaskStateFile
  pub attention : List AttentionItem

unfoldable pub raise_attention : Board → List AttentionItem → Board
raise_attention board items = record board { attention = board.attention ++ items }

unfoldable pub apply_gate_event : Board → GateEvent → AttentionItem → Board
unfolding raise_attention
apply_gate_event board event rendered =
    let status = if event.result.cleared then TaskStatus.cleared else TaskStatus.failed in
    raise_attention (record board { task_state = set_status board.task_state event.gate.id status })
      (rendered ∷ [])
