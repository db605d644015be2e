-- ===== src/Model/Handoff.antt =====
-- src/unrest_harness/models.py: what a worker and a validator hand back, and the verdict of each
-- assertion.
use unrest.Base.{Bool, List, String, Option, Dict, false, true}

pub record WorkHandoff : Type 0 where
  pub node_id : String
  pub attempt_id : Option String
  pub done : Bool
  pub report : String
  pub request_attention : Bool

pub record ValidationItem : Type 0 where
  pub item_id : String
  pub passed : Bool

pub record ValidateHandoff : Type 0 where
  pub node_id : String
  pub attempt_id : Option String
  pub done : Bool
  pub report : String
  pub items : List ValidationItem
  pub passed : Bool
  pub request_attention : Bool

-- src/unrest_harness/dispatcher.py: `NodeHandoff = WorkHandoff | ValidateHandoff`
pub data NodeHandoff : Type 0 where
  work : WorkHandoff → NodeHandoff
  validate : ValidateHandoff → NodeHandoff

pub record TerminalReviewHandoff : Type 0 where
  pub done : Bool
  pub report : String

abbrev pub node_id_of : NodeHandoff → String
node_id_of (NodeHandoff.work h) = h.node_id
node_id_of (NodeHandoff.validate h) = h.node_id

abbrev pub attempt_id_of : NodeHandoff → Option String
attempt_id_of (NodeHandoff.work h) = h.attempt_id
attempt_id_of (NodeHandoff.validate h) = h.attempt_id

abbrev pub is_done : NodeHandoff → Bool
is_done (NodeHandoff.work h) = h.done
is_done (NodeHandoff.validate h) = h.done

abbrev pub requests_attention : NodeHandoff → Bool
requests_attention (NodeHandoff.work h) = h.request_attention
requests_attention (NodeHandoff.validate h) = h.request_attention

-- `handoff.model_copy(update={"attempt_id": spawn_ts})`
abbrev pub with_attempt : NodeHandoff → Option String → NodeHandoff
with_attempt (NodeHandoff.work h) a = NodeHandoff.work (record h { attempt_id = a })
with_attempt (NodeHandoff.validate h) a = NodeHandoff.validate (record h { attempt_id = a })

pub data AssertionStatus : Type 0 where
  pending passed failed : AssertionStatus

abbrev pub is_passed : AssertionStatus → Bool
is_passed AssertionStatus.passed = true
is_passed _ = false

-- `ContractStateFile.items`, each entry by its status.
abbrev pub ContractState : Type 0
ContractState = Dict AssertionStatus
