-- ===== src/Tests/Gates.antt =====
-- The gate of the small mission.
use unrest.Base.{
  ◌≡◌, ◌↔◌, refl, true, false, [], ◌∷◌, String, some, ◌==◌, if◌then◌else◌, contains, all, is_empty,
  find, put, keys, modify,
}
use unrest.Model.Task.{TaskStatus, status_of}
use unrest.Model.Attention.{AttentionItem}
use unrest.Validation.Graph.{check_acyclic}
use unrest.Validation.Navigation.{gates_in_order, upstream_closure, task_by_id}
use unrest.Coordinator.Runnable.{deps_cleared}
use unrest.Coordinator.Attention.{gate_checkpoint}
use unrest.Coordinator.Gates.{
  GateEvent, candidates, current_validators, evaluate_gate, try_evaluate_a_gate,
}
use unrest.Coordinator.Gates.Semantics.{target_clears, evaluate_gate-cleared}
use unrest.Coordinator.Gates.Currency.{
  Overtaken, current_validators_exact, current_validators-is_empty,
}
use unrest.Coordinator.Collect.{apply_gate_event}
use unrest.Coordinator.Collect.GateStep.{is_due, apply_gate_event-settles}
use unrest.Tests.Samples.{plan, last_gate, validated_state, attempts, new_id}

evaluate_gate-cleared_example :
    (evaluate_gate attempts plan validated_state last_gate).cleared
    ≡ all (target_clears attempts plan validated_state last_gate) last_gate.targets
evaluate_gate-cleared_example = evaluate_gate-cleared attempts plan validated_state last_gate

current_validators_exact_example :
    (contains "check" (current_validators plan validated_state last_gate "A-1") ≡ true) ↔ (
      (contains "check" (candidates plan validated_state last_gate "A-1") ≡ true)
      × ¬ (Overtaken plan validated_state last_gate "A-1" "check"))
current_validators_exact_example =
    current_validators_exact plan validated_state last_gate "A-1" "check"

gate_plan-acyclic : check_acyclic plan ≡ []
unfolding check_acyclic keys modify put find
gate_plan-acyclic = refl

check-candidate : contains "check" (candidates plan validated_state last_gate "A-1") ≡ true
unfolding candidates status_of find upstream_closure task_by_id
check-candidate = refl

current_validators-is_empty_example :
    is_empty (current_validators plan validated_state last_gate "A-1") ≡ false
current_validators-is_empty_example =
    current_validators-is_empty plan validated_state last_gate "A-1" "check" refl gate_plan-acyclic
      check-candidate

abbrev event : GateEvent
event = record { gate = last_gate; result = evaluate_gate attempts plan validated_state last_gate }

abbrev rendered : AttentionItem
rendered = gate_checkpoint new_id "m-1" last_gate []

gate-event : try_evaluate_a_gate attempts plan validated_state ≡ some event
unfolding try_evaluate_a_gate gates_in_order status_of find deps_cleared
gate-event = refl

apply_gate_event-settles_example :
    (is_due validated_state last_gate ≡ true)
    × ((j : String)
        → status_of
            (apply_gate_event
              (record { task_state = validated_state; attention = [] })
              event
              rendered).task_state
            j
          ≡ (if last_gate.id == j
              then (if all (target_clears attempts plan validated_state last_gate) last_gate.targets
                  then TaskStatus.cleared
                  else TaskStatus.failed)
              else status_of validated_state j))
    × ((apply_gate_event
          (record { task_state = validated_state; attention = [] })
          event
          rendered).attention
        ≡ rendered ∷ [])
apply_gate_event-settles_example =
    apply_gate_event-settles attempts plan validated_state event [] rendered gate-event
