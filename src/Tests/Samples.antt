-- ===== src/Tests/Samples.antt =====
-- A small mission: one assertion, a worker, a validator and a gate.
use unrest.Base.{Bool, true, false, List, [], ◌∷◌, String, none, some, ◌==◌, if◌then◌else◌}
use unrest.Model.Task.{Task, TaskType, TaskList, TaskStatus, TaskStateFile, TaskStateEntry}
use unrest.Model.Handoff.{NodeHandoff, ValidateHandoff, ContractState, AssertionStatus}
use unrest.Coordinator.Gates.{Attempt}
use unrest.Coordinator.Collect.{Cursor}

abbrev pub contract : List String
contract = "A-1" ∷ []

abbrev pub worker : String → List String → List String → Task
worker id targets depends_on = record {
  id = id;
  type = TaskType.work;
  body = "make it";
  targets = targets;
  skill = some "writing";
  auto_merge = true;
  depends_on = depends_on;
}

abbrev pub validator : String → List String → Task
validator id depends_on = record {
  id = id;
  type = TaskType.validate;
  body = "check it";
  targets = contract;
  skill = some "checking";
  auto_merge = true;
  depends_on = depends_on;
}

abbrev pub last_gate : Task
last_gate = record {
  id = "gate";
  type = TaskType.gate;
  body = "";
  targets = contract;
  skill = none;
  auto_merge = true;
  depends_on = "check" ∷ [];
}

abbrev pub checker : Task
checker = validator "check" ("build" ∷ [])

abbrev pub plan : TaskList
plan = record { tasks = worker "build" contract [] ∷ checker ∷ last_gate ∷ [] }

abbrev pub untouched_state : TaskStateFile
untouched_state = record { tasks = [] }

abbrev pub entry : TaskStatus → String → TaskStateEntry
entry status attempt = record { status = status; last_attempt = some attempt }

-- The worker and the validator are done.
abbrev pub validated_state : TaskStateFile
validated_state = record {
  tasks = ("build", entry TaskStatus.cleared "t1") ∷ ("check", entry TaskStatus.cleared "t2") ∷ [];
}

-- The worker failed.
abbrev pub failed_state : TaskStateFile
failed_state = record { tasks = ("build", entry TaskStatus.failed "t1") ∷ [] }

abbrev pub verdict : Bool → ValidateHandoff
verdict passed = record {
  node_id = "check";
  attempt_id = some "t2";
  done = true;
  report = "looked";
  items = record { item_id = "A-1"; passed = passed } ∷ [];
  passed = passed;
  request_attention = false;
}

abbrev pub attempts : String → String → Attempt
attempts generation id =
    if id == "check" then Attempt.handed (NodeHandoff.validate (verdict true)) else Attempt.absent

abbrev pub passed_contract : ContractState
passed_contract = ("A-1", AssertionStatus.passed) ∷ []

abbrev pub cursor : Cursor
cursor = record { task_state = validated_state; contract_state = passed_contract }

abbrev pub new_id : String → String
new_id prefix = prefix
