-- ===== src/Tests/Handoffs.antt =====
-- Handoffs of the small mission.
use unrest.Base.{
  ◌≡◌, refl, true, false, not, ◌&&◌, ◌||◌, [], String, none, some, ◌==◌, if◌then◌else◌, contains,
  find, put,
}
use unrest.Model.Names.{matches_task_id, matches_identity}
use unrest.Model.Task.{TaskStatus, is_gate, status_of, set_status}
use unrest.Model.Handoff.{
  NodeHandoff, AssertionStatus, node_id_of, attempt_id_of, is_done, is_passed,
}
use unrest.Validation.Navigation.{task_by_id}
use unrest.Coordinator.Gates.Verdict.{mentions}
use unrest.Coordinator.Search.{search_down}
use unrest.Coordinator.Collect.{
  apply_handoff_collect, bind_dispatched_handoff, merge_verdicts, status_or_pending, with_status,
}
use unrest.Coordinator.Collect.Verdicts.{
  some_passed, merge_verdicts_exact, apply_handoff_collect-keeps_passed,
}
use unrest.Coordinator.Collect.Binding.{bind_dispatched_handoff-binds}
use unrest.Coordinator.Collect.Outcome.{outcome, apply_handoff_collect-status}
use unrest.Coordinator.Collect.Answers.{well_formed, apply_handoff_collect-answers}
use unrest.Coordinator.Collect.Heard.{Settled, apply_handoff_collect-heard}
use unrest.Tests.Samples.{plan, checker, cursor, verdict, new_id, passed_contract}

abbrev failing : NodeHandoff
failing = NodeHandoff.validate (verdict false)

merge_verdicts_exact_example : find "A-1" (merge_verdicts passed_contract (verdict false).items) ≡ (
    if mentions "A-1" (verdict false).items
    then some (
        if is_passed (status_or_pending (find "A-1" passed_contract))
          || some_passed "A-1" (verdict false).items
        then AssertionStatus.passed
        else AssertionStatus.failed)
    else find "A-1" passed_contract)
merge_verdicts_exact_example = merge_verdicts_exact passed_contract (verdict false).items "A-1"

once-passed : find "A-1" passed_contract ≡ some AssertionStatus.passed
unfolding find
once-passed = refl

apply_handoff_collect-keeps_passed_example :
    find "A-1"
      (apply_handoff_collect new_id "m-1" plan cursor checker failing none none
        "t2").0.contract_state
    ≡ some AssertionStatus.passed
apply_handoff_collect-keeps_passed_example =
    apply_handoff_collect-keeps_passed new_id "m-1" plan cursor checker failing none none "t2" "A-1"
      once-passed

bind_dispatched_handoff-binds_example :
    (node_id_of (bind_dispatched_handoff checker failing "t3") ≡ "check")
    × (attempt_id_of (bind_dispatched_handoff checker failing "t3") ≡ some "t3")
    × (is_done (bind_dispatched_handoff checker failing "t3") ≡ true
        → bind_dispatched_handoff checker failing "t3" ≡ failing)
bind_dispatched_handoff-binds_example = bind_dispatched_handoff-binds checker failing "t3"

apply_handoff_collect-status_example :
    status_of
      (apply_handoff_collect new_id "m-1" plan cursor checker failing none none "t2").0.task_state
      "check"
    ≡ (if checker.id == "check" && not (is_gate checker.type)
        then outcome failing none none
        else status_of cursor.task_state "check")
apply_handoff_collect-status_example =
    apply_handoff_collect-status new_id "m-1" plan cursor checker failing none none "t2" "check"

check-matches : matches_task_id "check" ≡ true
unfolding matches_task_id
check-matches = refl

attempt-matches : matches_identity "t2" ≡ true
unfolding matches_identity
attempt-matches = refl

apply_handoff_collect-answers_example :
    well_formed (apply_handoff_collect new_id "m-1" plan cursor checker failing none none "t2").1
    ≡ true
apply_handoff_collect-answers_example =
    apply_handoff_collect-answers new_id "m-1" plan cursor checker failing none "t2" check-matches
      attempt-matches refl

-- The gate is pending, so that the failed validation raises nothing.
failing-quiet :
    (apply_handoff_collect new_id "m-1" plan cursor checker failing none none "t2").1 ≡ some []
unfolding apply_handoff_collect find put search_down task_by_id status_of set_status
failing-quiet = refl

apply_handoff_collect-heard_example :
    ((verdict false).done ≡ true)
    × ((verdict false).request_attention ≡ false)
    × ((target : String)
        → contains target checker.targets ≡ true
        → Settled plan
            (with_status cursor checker TaskStatus.cleared).task_state
            checker
            (verdict false)
            target)
apply_handoff_collect-heard_example =
    apply_handoff_collect-heard new_id "m-1" plan cursor checker (verdict false) none "t2" refl
      failing-quiet
