-- ===== src/Coordinator/Collect/Verdicts.antt =====
-- src/unrest_harness/coordinator.py: `_apply_handoff_collect` and the state of the contract.
use unrest.Base.{
  ◌≡◌, refl, ap, Bool, true, false, ◌&&◌, ◌||◌, List, [], ◌∷◌, String, Option, none, some, arith,
  ◌==◌, eq_iff, if◌then◌else◌, any, find, find-put, put,
}
use unrest.Model.Task.{Task, TaskList, TaskType}
use unrest.Model.Handoff.{NodeHandoff, ValidationItem, AssertionStatus, ContractState, is_passed}
use unrest.Coordinator.Attention.{Snapshot}
use unrest.Coordinator.Gates.Verdict.{mentions}
use unrest.Coordinator.Collect.{
  Cursor, merge_verdicts, status_or_pending, collect_work, collect_validate, collect_by_type,
  apply_handoff_collect, bound_handoff,
}

-- Some item of the handoff says that the assertion passed.
abbrev pub some_passed : String → List ValidationItem → Bool
some_passed id items = any (λ i. i.item_id == id && i.passed) items

passed_status : (s : AssertionStatus) → is_passed s ≡ true → s ≡ AssertionStatus.passed
passed_status AssertionStatus.pending h = cc
passed_status AssertionStatus.passed h = refl
passed_status AssertionStatus.failed h = cc

passed-mentions :
    (id : String) (items : List ValidationItem)
    → mentions id items ≡ false
    → some_passed id items ≡ false
passed-mentions id [] h = refl
passed-mentions id (i ∷ items) h = ground (arith, passed-mentions id items)

-- After a handoff is merged, an assertion that it names is passed if it was passed before or some item
-- of the handoff passes it, and failed otherwise; an assertion that it does not name is as it was.
pub merge_verdicts_exact :
    (c : ContractState) (items : List ValidationItem) (id : String)
    → find id (merge_verdicts c items) ≡ (
        if mentions id items
        then some (
            if is_passed (status_or_pending (find id c)) || some_passed id items
            then AssertionStatus.passed
            else AssertionStatus.failed)
        else find id c)
unfolding merge_verdicts
merge_verdicts_exact c [] id = refl
merge_verdicts_exact c (i ∷ items) id =
    let status = status_or_pending (find i.item_id c) in
    let merged =
      if i.passed
      then AssertionStatus.passed
      else if is_passed status
      then status
      else AssertionStatus.failed in
    ground (
      arith,
      merge_verdicts_exact (put i.item_id merged c) items id,
      find-put i.item_id id merged c,
      eq_iff i.item_id id,
      passed_status status,
      passed-mentions id items,
      ap (λ (s : String). find s c),
    )

merge-keeps_passed :
    (c : ContractState) (items : List ValidationItem) (id : String)
    → find id c ≡ some AssertionStatus.passed
    → find id (merge_verdicts c items) ≡ some AssertionStatus.passed
merge-keeps_passed c items id h = ground (arith, h, merge_verdicts_exact c items id)

module _ (new_id : String → String) where
  by_type-keeps_passed :
      (type : TaskType) (mid : String) (tl : TaskList) (cursor : Cursor) (task : Task)
      (h : NodeHandoff) (id : String)
      → find id cursor.contract_state ≡ some AssertionStatus.passed
      → find id (collect_by_type new_id type mid tl cursor task h).0.contract_state
        ≡ some AssertionStatus.passed
  unfolding collect_by_type collect_work collect_validate
  by_type-keeps_passed TaskType.work mid tl cursor task (NodeHandoff.work h) id p =
      ground (arith, p)
  by_type-keeps_passed TaskType.work mid tl cursor task (NodeHandoff.validate h) id p =
      ground (arith, p)
  by_type-keeps_passed TaskType.validate mid tl cursor task (NodeHandoff.work h) id p =
      ground (arith, p)
  by_type-keeps_passed TaskType.validate mid tl cursor task (NodeHandoff.validate h) id p =
      ground (arith, p, merge-keeps_passed cursor.contract_state h.items id)
  by_type-keeps_passed TaskType.gate mid tl cursor task h id p = p

  -- An assertion that has passed stays passed, whatever handoff is collected.
  pub apply_handoff_collect-keeps_passed :
      (mid : String) (tl : TaskList) (cursor : Cursor) (task : Task) (h : NodeHandoff)
      (block : Option String) (stopped : Option Snapshot) (spawn_ts id : String)
      → find id cursor.contract_state ≡ some AssertionStatus.passed
      → find id
          (apply_handoff_collect new_id mid tl cursor task h block stopped
            spawn_ts).0.contract_state
        ≡ some AssertionStatus.passed
  unfolding apply_handoff_collect
  apply_handoff_collect-keeps_passed mid tl cursor task h block none spawn_ts id p =
      by_type-keeps_passed task.type mid tl cursor task (bound_handoff new_id h block spawn_ts) id p
  apply_handoff_collect-keeps_passed mid tl cursor task h block (some s) spawn_ts id p = p
