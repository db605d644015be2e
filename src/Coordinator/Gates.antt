-- ===== src/Coordinator/Gates.antt =====
-- src/unrest_harness/coordinator.py: which validators are current for a gate, what their evidence
-- says, and whether the gate clears.
-- The text of a result's reason and the paths of its evidence are left out; the lists that the reason
-- is made of are kept.
pub mod Verdict
pub mod Semantics
pub mod Currency
use unrest.Base.{
  Bool, true, false, not, ◌&&◌, ◌||◌, List, [], ◌∷◌, ◌++◌, map, String, Option, none, some, ◌==◌,
  if◌then◌else◌, contains, is_empty, is_none, select, all, any, concat_map, Dict, find, find_or,
  put, keys, minus, unique,
}
use unrest.Model.Task.{
  Task, TaskList, TaskStatus, TaskStateFile, is_gate, is_validate, is_pending, is_superseded,
  status_of, set_status, last_attempt_of,
}
use unrest.Model.Handoff.{NodeHandoff, ValidationItem, ValidateHandoff}
use unrest.Validation.Navigation.{upstream_closure, gates_in_order}
use unrest.Validation.Fields.{ids_of}
use unrest.Coordinator.Search.{downstream_of, search_down}
use unrest.Coordinator.Runnable.{deps_cleared}

-- `candidates[target]`: validators upstream of the gate that name the target and are not superseded.
unfoldable pub candidates : TaskList → TaskStateFile → Task → String → List String
candidates tl ts gate target = ids_of (
    select
      (λ t.
        contains t.id (upstream_closure tl.tasks gate.depends_on)
        && (is_validate t.type
            && (contains target t.targets && not (is_superseded (status_of ts t.id)))))
      tl.tasks)

-- Whether the search from a validator finds another one of the same target on the way to the gate.
unfoldable pub dominated : TaskList → Task → List String → String → Bool
dominated tl gate covering validator_id =
    search_down tl.tasks (λ current. current == gate.id) (λ current. contains current covering)
      (downstream_of tl.tasks validator_id)

-- `_current_validators_by_target(…)[target]`
unfoldable pub current_validators : TaskList → TaskStateFile → Task → String → List String
unfolding candidates dominated
current_validators tl ts gate target =
    let covering = candidates tl ts gate target in
    select (λ id. contains id covering && not (dominated tl gate covering id)) (ids_of tl.tasks)

-- What `read_attempt` gives for a generation of a task: an exception, nothing, or a handoff.
pub data Attempt : Type 0 where
  rejected absent : Attempt
  handed : NodeHandoff → Attempt

-- `verdicts` and `returned_ids` after the loop over the items of a handoff.
unfoldable pub item_verdicts :
    List String → List ValidationItem → Dict Bool → List String → Dict Bool × List String
item_verdicts expected [] verdicts returned = (verdicts, returned)
item_verdicts expected (item ∷ items) verdicts returned =
    item_verdicts expected items
      (if contains item.item_id expected
        then put item.item_id (if contains item.item_id returned then false else item.passed)
            verdicts
        else verdicts)
      (item.item_id ∷ returned)

-- `{t: False for t in ids}`, put into a dict.
unfoldable pub all_false : Dict Bool → List String → Dict Bool
all_false verdicts [] = verdicts
all_false verdicts (t ∷ ts) = all_false (put t false verdicts) ts

pub record Evidence : Type 0 where
  pub verdicts : Dict Bool
  pub missing : List String
  pub is_rejected : Bool

-- The evidence of one validator: without a generation, with a rejected attempt, without a validation
-- handoff, or with the items of one.
unfoldable pub evidence_of : List String → Option Attempt → Evidence
unfolding item_verdicts all_false
evidence_of expected none = record {
  verdicts = all_false [] expected;
  missing = expected;
  is_rejected = false;
}
evidence_of expected (some Attempt.rejected) = record {
  verdicts = all_false [] expected;
  missing = expected;
  is_rejected = true;
}
evidence_of expected (some Attempt.absent) = record {
  verdicts = all_false [] expected;
  missing = expected;
  is_rejected = false;
}
evidence_of expected (some (Attempt.handed (NodeHandoff.work h))) = record {
  verdicts = all_false [] expected;
  missing = expected;
  is_rejected = false;
}
evidence_of expected (some (Attempt.handed (NodeHandoff.validate h))) =
    let (verdicts, returned) = item_verdicts expected h.items [] [] in
    let missing = minus expected returned in
    record { verdicts = all_false verdicts missing; missing = missing; is_rejected = false }

pub record GateResult : Type 0 where
  pub cleared : Bool
  pub failed_items : List String
  pub validator_verdicts : Dict (Dict Bool)
  pub missing_items : Dict (List String)
  pub rejected_evidence : List String

pub record GateEvent : Type 0 where
  pub gate : Task
  pub result : GateResult

-- `read_attempt generation task_id` is the attempt on disk.
module _ (read_attempt : String → String → Attempt) where
  -- The attempt of a task's current generation, `none` where it has none.
  unfoldable pub current_attempt : TaskStateFile → String → Option Attempt
  current_attempt ts task_id = elim (last_attempt_of ts task_id) [
    | none ↦ none
    | some generation ↦ some (read_attempt generation task_id)
  ]

  -- `expected_by_validator[id]`
  unfoldable pub expected_of : TaskList → TaskStateFile → Task → String → List String
  unfolding current_validators
  expected_of tl ts gate id =
      select (λ target. contains id (current_validators tl ts gate target)) gate.targets

  -- The keys of `expected_by_validator`: the current validators in authored order.
  unfoldable pub expected_validators : TaskList → TaskStateFile → Task → List String
  unfolding current_validators
  expected_validators tl ts gate =
      select (λ id. any (λ target. contains id (current_validators tl ts gate target)) gate.targets)
        (ids_of tl.tasks)

  -- The evidence by validator. The ids of a validated list are distinct, so that each is a key.
  unfoldable pub all_evidence : TaskList → TaskStateFile → Task → List (String × Evidence)
  unfolding expected_validators expected_of evidence_of current_attempt
  all_evidence tl ts gate =
      map (λ id. (id, evidence_of (expected_of tl ts gate id) (current_attempt ts id)))
        (expected_validators tl ts gate)

  -- The validators whose verdicts name the target.
  unfoldable pub covering_evidence : List (String × Evidence) → String → List (String × Evidence)
  covering_evidence evidence target = select (λ p. contains target (keys p.1.verdicts)) evidence

  -- `item_passed[target]`
  unfoldable pub item_passed : List (String × Evidence) → String → Bool
  unfolding covering_evidence
  item_passed evidence target =
      all (λ p. find_or false target p.1.verdicts) (covering_evidence evidence target)

  unfoldable pub evaluate_gate : TaskList → TaskStateFile → Task → GateResult
  unfolding all_evidence item_passed
  evaluate_gate tl ts gate =
      let evidence = all_evidence tl ts gate in
      let verdicts = map (λ p. (p.0, p.1.verdicts)) evidence in
      let missing =
        map (λ p. (p.0, p.1.missing)) (select (λ p. not (is_empty p.1.missing)) evidence) in
      let rejected = map (λ p. p.0) (select (λ p. p.1.is_rejected) evidence) in
      let uncovered = select (λ t. is_empty (covering_evidence evidence t)) gate.targets in
      let failed = select (λ t. not (item_passed evidence t)) (unique gate.targets) in
      let result = λ (cleared : Bool) (items : List String).
        let r : GateResult = record {
          cleared = cleared;
          failed_items = items;
          validator_verdicts = verdicts;
          missing_items = missing;
          rejected_evidence = rejected;
        } in
        r in
      if not (is_empty uncovered)
      then result false uncovered
      else if is_empty failed && is_empty rejected
      then result true []
      else result false failed

  -- The loop of `_try_evaluate_a_gate` over the gates in authored order.
  unfoldable pub first_gate_event : TaskList → TaskStateFile → List Task → Option GateEvent
  unfolding evaluate_gate
  first_gate_event tl ts [] = none
  first_gate_event tl ts (gate ∷ gates) =
      let rest = first_gate_event tl ts gates in
      if is_pending (status_of ts gate.id) && deps_cleared ts gate
      then some (record { gate = gate; result = evaluate_gate tl ts gate })
      else rest

  unfoldable pub try_evaluate_a_gate : TaskList → TaskStateFile → Option GateEvent
  unfolding first_gate_event
  try_evaluate_a_gate tl ts = first_gate_event tl ts (gates_in_order tl)
