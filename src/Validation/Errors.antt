-- ===== src/Validation/Errors.antt =====
-- src/unrest_harness/task_validation.py and task_list_patch.py: the codes of their errors, each with
-- the values that its detail is made of.
use unrest.Base.{String, List}
use unrest.Model.Task.{TaskType, TaskStatus}

-- The `op` of `_check_retirable`, which prefixes the code.
pub data RetireOp : Type 0 where
  supersede cancel : RetireOp

pub data ValidationError : Type 0 where
  contract_dir_missing : ValidationError
  invalid_assertion_filename duplicate_assertion_filename : String → ValidationError
  invalid_task_id duplicate_task_id : String → ValidationError
  gate_with_skill gate_with_body empty_targets missing_body : String → ValidationError
  non_gate_without_skill : String → TaskType → ValidationError
  self_loop : String → ValidationError
  dep_unknown_task : String → String → ValidationError
  cycle_detected : List String → ValidationError
  task_targets_unknown_assertion : String → String → ValidationError
  uncovered_assertion : String → ValidationError
  over_covered_assertion : String → List String → ValidationError
  empty_contract empty_task_list : ValidationError
  empty_patch : ValidationError
  invalid_assertion_id duplicate_assertion assertion_file_missing : String → ValidationError
  undeclared_new_assertion : String → ValidationError
  task_id_collision duplicate_add_task : String → ValidationError
  cancel_supersede_overlap : List String → ValidationError
  supersede_self unknown_supersede_target unknown_cancel_target : String → ValidationError
  supersede_new_id_unknown supersede_target_cancelled : String → String → ValidationError
  cleared_task : RetireOp → String → ValidationError
  status_invalid : RetireOp → String → TaskStatus → ValidationError
  inside_sealed_subgraph : RetireOp → String → ValidationError
