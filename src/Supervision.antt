-- ===== src/Supervision.antt =====
-- src/unrest_harness/supervision.py and models.py: the snapshot of an active attempt, which updates of it
-- are accepted, and when a checkpoint is asked for.
-- A check is `true` where the code does not raise. Times are natural numbers of nanoseconds.
pub mod Updates
pub mod Policy
pub mod Receipts
use unrest.Base.{
  ℕ, suc, ◌+◌, ◌-◌, ◌*◌, ◌%◌, min, max, Bool, true, false, not, ◌&&◌, ◌||◌, List, [], ◌∷◌, ◌++◌,
  String, Option, none, some, ◌==◌, if◌then◌else◌, contains, distinct, subset, select, all, is_some,
  is_none, ltb, leb, eqb,
}
use unrest.Model.Names.{matches_identity, matches_assertion_id}

pub data SupervisionRole : Type 0 where
  worker validator terminal_reviewer : SupervisionRole

pub data SupervisionPhase : Type 0 where
  active waiting_at_checkpoint stopping terminal : SupervisionPhase

pub data ScopeStatus : Type 0 where
  in_scope uncertain violation : ScopeStatus

pub data SupervisionStatus : Type 0 where
  running checkpoint_due waiting nudge_pending stop_requested terminal : SupervisionStatus

pub data SupervisionBlockerCode : Type 0 where
  dependency_unavailable scope_ambiguous scope_violation : SupervisionBlockerCode
  integrity_refusal authority_required delivery_blocked : SupervisionBlockerCode

pub record ActiveAttemptSnapshot : Type 0 where
  pub attempt_id : String
  pub blocker_code : Option SupervisionBlockerCode
  pub checkpoint_requests : ℕ
  pub checkpoint_sequence : ℕ
  pub completed_target_ids : List String
  pub elapsed_nanoseconds : ℕ
  pub last_effect_sequence : ℕ
  pub mission_id : String
  pub node_id : Option String
  pub phase : SupervisionPhase
  pub project_id : String
  pub remaining_target_ids : List String
  pub role : SupervisionRole
  pub scope_status : ScopeStatus
  pub supervision_status : SupervisionStatus
  pub terminal_review_id : Option String

-- The order of a constructor among those of its type, by which two of them are compared.
abbrev pub role_index : SupervisionRole → ℕ
role_index SupervisionRole.worker = 0
role_index SupervisionRole.validator = 1
role_index SupervisionRole.terminal_reviewer = 2

abbrev pub scope_index : ScopeStatus → ℕ
scope_index ScopeStatus.in_scope = 0
scope_index ScopeStatus.uncertain = 1
scope_index ScopeStatus.violation = 2

abbrev pub blocker_index : Option SupervisionBlockerCode → ℕ
blocker_index none = 0
blocker_index (some SupervisionBlockerCode.dependency_unavailable) = 1
blocker_index (some SupervisionBlockerCode.scope_ambiguous) = 2
blocker_index (some SupervisionBlockerCode.scope_violation) = 3
blocker_index (some SupervisionBlockerCode.integrity_refusal) = 4
blocker_index (some SupervisionBlockerCode.authority_required) = 5
blocker_index (some SupervisionBlockerCode.delivery_blocked) = 6

-- `phase_rank` and `status_rank`
abbrev pub phase_rank : SupervisionPhase → ℕ
phase_rank SupervisionPhase.active = 0
phase_rank SupervisionPhase.waiting_at_checkpoint = 0
phase_rank SupervisionPhase.stopping = 1
phase_rank SupervisionPhase.terminal = 2

abbrev pub status_rank : SupervisionStatus → ℕ
status_rank SupervisionStatus.stop_requested = 1
status_rank SupervisionStatus.terminal = 2
status_rank _ = 0

abbrev pub is_active_phase : SupervisionPhase → Bool
is_active_phase SupervisionPhase.active = true
is_active_phase _ = false

abbrev pub is_waiting_phase : SupervisionPhase → Bool
is_waiting_phase SupervisionPhase.waiting_at_checkpoint = true
is_waiting_phase _ = false

abbrev pub eq_option : Option String → Option String → Bool
eq_option none none = true
eq_option (some a) (some b) = a == b
eq_option _ _ = false

abbrev pub eq_list : List String → List String → Bool
eq_list [] [] = true
eq_list (x ∷ xs) (y ∷ ys) = x == y && eq_list xs ys
eq_list _ _ = false

-- The immutable fields agree.
unfoldable pub same_attempt : ActiveAttemptSnapshot → ActiveAttemptSnapshot → Bool
same_attempt current candidate =
    current.attempt_id == candidate.attempt_id
    && (current.mission_id == candidate.mission_id
        && (eq_option current.node_id candidate.node_id
            && (current.project_id == candidate.project_id
                && (eqb (role_index current.role) (role_index candidate.role)
                    && eq_option current.terminal_review_id candidate.terminal_review_id))))

-- The three tests of the checkpoint sequence.
unfoldable pub checkpoint_advances : ActiveAttemptSnapshot → ActiveAttemptSnapshot → Bool
checkpoint_advances current candidate =
    let same = eqb candidate.checkpoint_sequence current.checkpoint_sequence in
    not (ltb candidate.checkpoint_sequence current.checkpoint_sequence)
    && (not (is_active_phase current.phase && (is_waiting_phase candidate.phase && same))
        && not (
            same
            && (not
                  (eqb (blocker_index candidate.blocker_code) (blocker_index current.blocker_code))
                || not
                    (eqb (scope_index candidate.scope_status) (scope_index current.scope_status)))))

unfoldable pub counts_advance : ActiveAttemptSnapshot → ActiveAttemptSnapshot → Bool
counts_advance current candidate =
    not (ltb candidate.elapsed_nanoseconds current.elapsed_nanoseconds)
    && (not (ltb candidate.checkpoint_requests current.checkpoint_requests)
        && not (ltb candidate.last_effect_sequence current.last_effect_sequence))

unfoldable pub targets_advance : ActiveAttemptSnapshot → ActiveAttemptSnapshot → Bool
targets_advance current candidate =
    subset current.completed_target_ids candidate.completed_target_ids
    && subset candidate.remaining_target_ids current.remaining_target_ids

unfoldable pub ranks_advance : ActiveAttemptSnapshot → ActiveAttemptSnapshot → Bool
ranks_advance current candidate = not (
    ltb (phase_rank candidate.phase) (phase_rank current.phase)
    || ltb (status_rank candidate.supervision_status) (status_rank current.supervision_status))

-- `_validate_target_partition`
unfoldable pub partitions_targets : ActiveAttemptSnapshot → List String → Bool
partitions_targets snapshot assigned =
    let completed = snapshot.completed_target_ids in
    let remaining = snapshot.remaining_target_ids in
    distinct assigned
    && ((subset (completed ++ remaining) assigned && subset assigned (completed ++ remaining))
        && (eq_list completed (select (λ target. contains target completed) assigned)
            && eq_list remaining (select (λ target. contains target remaining) assigned)))

-- `_validate_monotonic_update`
unfoldable pub is_monotonic_update :
    ActiveAttemptSnapshot → ActiveAttemptSnapshot → List String → Bool
unfolding same_attempt checkpoint_advances counts_advance targets_advance ranks_advance
    partitions_targets
is_monotonic_update current candidate assigned =
    same_attempt current candidate
    && (checkpoint_advances current candidate
        && (counts_advance current candidate
            && (targets_advance current candidate
                && (ranks_advance current candidate && partitions_targets candidate assigned))))

-- `terminal_snapshot`
unfoldable pub terminal_snapshot : ActiveAttemptSnapshot → ActiveAttemptSnapshot
terminal_snapshot snapshot = record snapshot {
  phase = SupervisionPhase.terminal;
  supervision_status = SupervisionStatus.terminal;
}
