-- ===== src/Supervision/Policy.antt =====
-- src/unrest_harness/supervision.py: the policy of checkpoints, over observations of a monotonic clock.
pub mod Bounds
use unrest.Base.{
  ℕ, zero, suc, ◌+◌, ◌-◌, ◌*◌, ◌%◌, min, max, Bool, true, false, not, ◌&&◌, ◌||◌, List, [], ◌∷◌,
  Option, none, some, if◌then◌else◌, is_some, ltb, leb, eqb, foldl,
}
use unrest.Supervision.{ActiveAttemptSnapshot, ScopeStatus}

abbrev pub poll_nanoseconds : ℕ
poll_nanoseconds = 30000000000

abbrev pub first_checkpoint_nanoseconds : ℕ
first_checkpoint_nanoseconds = 900000000000

abbrev pub silence_nanoseconds : ℕ
silence_nanoseconds = 600000000000

abbrev pub max_checkpoint_requests : ℕ
max_checkpoint_requests = 2

-- `BACKOFF_MULTIPLIERS[i]`, for the indices 0, 1 and 2.
abbrev pub backoff_multiplier : ℕ → ℕ
backoff_multiplier zero = 1
backoff_multiplier (suc zero) = 2
backoff_multiplier (suc (suc n)) = 4

pub record CheckpointPolicyState : Type 0 where
  pub attempt_started_nanoseconds : ℕ
  pub backoff_index : ℕ
  pub checkpoint_requests : ℕ
  pub last_effect_nanoseconds : ℕ
  pub last_effect_sequence : ℕ
  pub latest_request_nanoseconds : Option ℕ

pub data Reason : Type 0 where
  early_signal normal_threshold not_poll_tick too_early silence_below_threshold : Reason
  request_cap invalid_monotonic_time regressive_effect_time : Reason

pub record CheckpointEvaluation : Type 0 where
  pub checkpoint_due : Bool
  pub reason : Reason
  pub state : CheckpointPolicyState

unfoldable pub initial_checkpoint_policy : ℕ → ℕ → CheckpointPolicyState
initial_checkpoint_policy started sequence = record {
  attempt_started_nanoseconds = started;
  backoff_index = 0;
  checkpoint_requests = 0;
  last_effect_nanoseconds = started;
  last_effect_sequence = sequence;
  latest_request_nanoseconds = none;
}

abbrev pub is_out_of_scope : ScopeStatus → Bool
is_out_of_scope ScopeStatus.in_scope = false
is_out_of_scope _ = true

-- `max(anchor, latest_request)`, where there is a request.
abbrev pub anchor_of : ℕ → Option ℕ → ℕ
anchor_of effect none = effect
anchor_of effect (some request) = max effect request

-- The end of `evaluate_checkpoint_policy`, once the state has taken in the snapshot's effect.
unfoldable pub evaluate_silence :
    ActiveAttemptSnapshot → CheckpointPolicyState → ℕ → CheckpointEvaluation
evaluate_silence snapshot next now =
    let answer : Bool → Reason → CheckpointEvaluation =
      λ due reason. record { checkpoint_due = due; reason = reason; state = next } in
    let anchor = anchor_of next.last_effect_nanoseconds next.latest_request_nanoseconds in
    let required = silence_nanoseconds * backoff_multiplier next.backoff_index in
    if leb max_checkpoint_requests next.checkpoint_requests
    then answer false Reason.request_cap
    else if is_some snapshot.blocker_code || is_out_of_scope snapshot.scope_status
    then answer true Reason.early_signal
    else if ltb now (next.attempt_started_nanoseconds + first_checkpoint_nanoseconds)
    then answer false Reason.too_early
    else if ltb now (anchor + required)
    then answer false Reason.silence_below_threshold
    else answer true Reason.normal_threshold

-- The state once a new effect is taken in.
unfoldable pub with_effect : ActiveAttemptSnapshot → CheckpointPolicyState → CheckpointPolicyState
with_effect snapshot state = record state {
  last_effect_sequence = snapshot.last_effect_sequence;
  last_effect_nanoseconds = state.attempt_started_nanoseconds + snapshot.elapsed_nanoseconds;
  backoff_index = min 2 (state.backoff_index + 1);
}

unfoldable pub evaluate_checkpoint_policy :
    ActiveAttemptSnapshot → CheckpointPolicyState → ℕ → CheckpointEvaluation
unfolding evaluate_silence with_effect
evaluate_checkpoint_policy snapshot state now =
    let refused : Reason → CheckpointEvaluation =
      λ reason. record { checkpoint_due = false; reason = reason; state = state } in
    let effect_time = state.attempt_started_nanoseconds + snapshot.elapsed_nanoseconds in
    if ltb now state.attempt_started_nanoseconds
    then refused Reason.invalid_monotonic_time
    else if not (eqb ((now - state.attempt_started_nanoseconds) % poll_nanoseconds) 0)
    then refused Reason.not_poll_tick
    else if not (ltb state.last_effect_sequence snapshot.last_effect_sequence)
    then evaluate_silence snapshot state now
    else if ltb now effect_time
    then refused Reason.invalid_monotonic_time
    else if ltb effect_time state.last_effect_nanoseconds
    then refused Reason.regressive_effect_time
    else evaluate_silence snapshot (with_effect snapshot state) now

-- `none` where the request raises.
unfoldable pub record_checkpoint_request : CheckpointEvaluation → ℕ → Option CheckpointPolicyState
record_checkpoint_request evaluation now =
    let state = evaluation.state in
    if not evaluation.checkpoint_due || leb max_checkpoint_requests state.checkpoint_requests
    then none
    else some (record state {
      checkpoint_requests = suc state.checkpoint_requests;
      latest_request_nanoseconds = some now;
    })
