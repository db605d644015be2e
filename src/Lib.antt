-- ===== src/Lib.antt =====
-- The planning and coordination core of the unrest harness.
--
-- A mission is a task list (work, validation and gate tasks with dependencies) over a contract of
-- assertions. A plan is validated when it is submitted; a coordinator then dispatches runnable tasks,
-- collects their handoffs, merges the verdicts into the contract's state and evaluates the gates, and
-- raises attention for the orchestrator, which may answer with a patch of the task list. A patch is
-- applied as a whole and checked by the same checks as a submission. The gates read, through the task
-- list, which validators are current, and the attempts that these left on disk.
--
-- Files, and the code they model (paths from the root, src/unrest_harness/):
--   Base: names passed on, and lists, texts and Python's dicts as association lists.
--   Model: models.py. Names are the patterns of ids; Task is a task list, its patch and the status
--     cursor (status_of, set_status); Handoff is what workers and validators return; Attention is
--     the attention items with the check _closed_kind_identity.
--   Validation: task_validation.py. Fields (parse_contract_dir, check_task_ids, check_task_shape,
--     check_deps_resolve), Graph (check_acyclic), Coverage (check_coverage), Submission
--     (validate_task_list_submission), Navigation (upstream_tasks and its kind). Their child modules
--     hold the proofs.
--   Patch: task_list_patch.py, apply_patch stage by stage.
--   Coordinator: coordinator.py. Runnable (runnable tasks, validator lanes, the batch to dispatch),
--     Search (the search down the graph), Gates (current validators, evidence, evaluation), Collect
--     (_apply_handoff_collect, _bind_dispatched_handoff, _apply_gate_event) and Attention, the makers
--     of attention.py. blocked_handoff of provider_review.py stands in Collect.
--   Ledger: PilotLedger of experimental_lease.py; Turns hands out the turns, Budget is the
--     invariant, Steps its runs, Spending and Paying say what a turn costs.
--   Supervision: supervision.py, the snapshot of an active attempt and its accepted updates; Policy is
--     the policy of checkpoints, Receipts is _validate_receipt_transitions.
--   Lanes: experimental_model.py. Admission is admit; Steps has the ready order (Ready) and
--     reserve_next; Progress has transmission, complete, advance, stop, restart and recover_fresh;
--     Sound is the invariant and Lifecycle the life of a lane, each with its proofs below it.
--   Identity: canonical_identity.py on texts. Validate is validate_canonical_value, Encode is
--     canonical_json_bytes, Parse is strict_parse_json over json.loads and
--     verify_canonical_json_bytes; Canon is the value that an encoding stands for, and the other
--     children are proofs.
--   Tests: a small mission, and each theorem at it.
--
-- State: the store's files are values that a function takes and returns. The status entries that
-- apply_patch shares between the caller's state and the patched one are modelled by what the caller's
-- object holds afterwards. An exception is a value none, or in Lanes the constructor err with the
-- message of the ValueError. A session of Lanes is the parts of the text that names it.
--
-- Fuel: check_acyclic gets as many rounds as there are tasks, since each round takes a task out of the
-- queue that never returns to it. The parser of JSON gets twice the length of the text, and one round
-- more, since every round but those that begin a list of items or fields reads a character. The walks
-- up and down the graph get a round for each id on the stack at the start and for each dependency that
-- may still be pushed.
--
-- Parameters: read_attempt (an attempt on disk), isolated (whether a batch of work can run in separate
-- workspaces), new_id (a random id), the clock and the journal of the ledger, normalize (the normal
-- form NFC of a text).
--
-- Not modelled: the store, locks, threads, workspaces and processes, which are input and output; the
-- text of reports and error details; the rest of the steering, the envelope, the controller's
-- transactions, the schemas, catalog and digests of the identities, and the experiments around the
-- ledger and the lane scheduler. In Identity the interpreter's limit on recursion is left out, since
-- it depends on the stack in use. The owner of a halt in the ledger is left out, since no count
-- depends on it.
pub mod Base
pub mod Model
pub mod Validation
pub mod Patch
pub mod Coordinator
pub mod Ledger
pub mod Lanes
pub mod Identity
pub mod Supervision
pub mod Tests
