-- ===== src/Tests/Attempts.antt =====
-- A supervised attempt that waits at a checkpoint and is stopped.
use unrest.Base.{ℕ, false, ◌≡◌, refl, ◌-◌, ◌%◌, ◌≤◌, ◌<◌, true, List, [], ◌∷◌, String, none, some}
use unrest.Supervision.{
  ActiveAttemptSnapshot, SupervisionRole, SupervisionPhase, ScopeStatus, SupervisionStatus,
  is_monotonic_update, partitions_targets,
}
use unrest.Supervision.Updates.{is_monotonic_update_trans}
use unrest.Supervision.Policy.{
  CheckpointPolicyState, initial_checkpoint_policy, evaluate_checkpoint_policy, poll_nanoseconds,
  max_checkpoint_requests,
}
use unrest.Supervision.Receipts.{
  Action, Actor, DeliveryStatus, SteeringBinding, SupervisionReceipt, validate_receipt_transitions,
}
use unrest.Supervision.Receipts.Once.{pending_count, validate_receipt_transitions-once}
use unrest.Supervision.Policy.Bounds.{IsDue, evaluate_checkpoint_policy-IsDue}

abbrev targets : List String
targets = "A-1" ∷ "A-2" ∷ []

abbrev working : ActiveAttemptSnapshot
working = record {
  attempt_id = "t1";
  blocker_code = none;
  checkpoint_requests = 0;
  checkpoint_sequence = 0;
  completed_target_ids = [];
  elapsed_nanoseconds = 100;
  last_effect_sequence = 0;
  mission_id = "m1";
  node_id = some "build";
  phase = SupervisionPhase.active;
  project_id = "p1";
  remaining_target_ids = targets;
  role = SupervisionRole.worker;
  scope_status = ScopeStatus.in_scope;
  supervision_status = SupervisionStatus.running;
  terminal_review_id = none;
}

abbrev waiting : ActiveAttemptSnapshot
waiting = record working {
  checkpoint_sequence = 1;
  completed_target_ids = "A-1" ∷ [];
  remaining_target_ids = "A-2" ∷ [];
  elapsed_nanoseconds = 200;
  phase = SupervisionPhase.waiting_at_checkpoint;
  supervision_status = SupervisionStatus.waiting;
}

abbrev stopping : ActiveAttemptSnapshot
stopping = record waiting {
  phase = SupervisionPhase.stopping;
  supervision_status = SupervisionStatus.stop_requested;
}

reaches-waiting : is_monotonic_update working waiting targets ≡ true
unfolding is_monotonic_update
reaches-waiting = refl

reaches-stopping : is_monotonic_update waiting stopping targets ≡ true
unfolding is_monotonic_update
reaches-stopping = refl

is_monotonic_update_trans_example : is_monotonic_update working stopping targets ≡ true
is_monotonic_update_trans_example =
    is_monotonic_update_trans working waiting stopping targets reaches-waiting reaches-stopping

stopping-partitions : partitions_targets stopping targets ≡ true
unfolding partitions_targets
stopping-partitions = refl

-- The attempt is silent for 900 seconds.
abbrev policy : CheckpointPolicyState
policy = initial_checkpoint_policy 0 0

silent-due : (evaluate_checkpoint_policy working policy 900000000000).checkpoint_due ≡ true
unfolding evaluate_checkpoint_policy initial_checkpoint_policy
silent-due = refl

evaluate_checkpoint_policy-IsDue_example :
    (policy.attempt_started_nanoseconds ≤ 900000000000)
    × ((900000000000 - policy.attempt_started_nanoseconds) % poll_nanoseconds ≡ 0)
    × ((evaluate_checkpoint_policy working policy 900000000000).state.checkpoint_requests
        < max_checkpoint_requests)
    × IsDue working (evaluate_checkpoint_policy working policy 900000000000).state 900000000000
evaluate_checkpoint_policy-IsDue_example =
    evaluate_checkpoint_policy-IsDue working policy 900000000000 silent-due

abbrev checkpoint : ℕ → SteeringBinding
checkpoint n = record {
  project_id = "p";
  mission_id = "m";
  node_id = some "build";
  terminal_review_id = none;
  attempt_id = "t1";
  checkpoint_sequence = n;
}

abbrev nudge_receipt : ℕ → ℕ → DeliveryStatus → SupervisionReceipt
nudge_receipt n at status = record {
  binding = checkpoint at;
  receipt_sequence = n;
  action = Action.nudge;
  actor = Actor.maintainer;
  body_byte_count = 5;
  body_sha256 = some "sha";
  delivery_status = status;
}

abbrev receipts : List SupervisionReceipt
receipts =
    nudge_receipt 1 1 DeliveryStatus.pending
    ∷ nudge_receipt 2 1 DeliveryStatus.delivered
    ∷ nudge_receipt 3 1 DeliveryStatus.consumed
    ∷ nudge_receipt 4 2 DeliveryStatus.delivery_blocked
    ∷ []

receipts-accepted : validate_receipt_transitions receipts ≡ true
unfolding validate_receipt_transitions
receipts-accepted = refl

-- A second nudge of the attempt at another checkpoint.
twice-refused :
    validate_receipt_transitions
      (nudge_receipt 1 1 DeliveryStatus.pending ∷ nudge_receipt 2 2 DeliveryStatus.pending ∷ [])
    ≡ false
unfolding validate_receipt_transitions
twice-refused = refl

-- A nudge that is consumed before it is delivered.
undelivered-refused :
    validate_receipt_transitions
      (nudge_receipt 1 1 DeliveryStatus.pending ∷ nudge_receipt 2 1 DeliveryStatus.consumed ∷ [])
    ≡ false
unfolding validate_receipt_transitions
undelivered-refused = refl

validate_receipt_transitions-once_example : pending_count (checkpoint 7) receipts ≤ 1
validate_receipt_transitions-once_example =
    validate_receipt_transitions-once receipts (checkpoint 7) receipts-accepted
