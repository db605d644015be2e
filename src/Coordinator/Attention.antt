-- ===== src/Coordinator/Attention.antt =====
-- src/unrest_harness/attention.py: the makers of attention items.
-- `none` is the ValueError of `_require_attempt_id`. `new_id prefix` stands for `_new_id(prefix)`, whose
-- token is random.
use unrest.Base.{Bool, true, false, List, [], String, Option, none, some, if◌then◌else◌, Dict, ◌==◌}
use unrest.Model.Names.{matches_identity}
use unrest.Model.Task.{Task}
use unrest.Model.Handoff.{NodeHandoff, WorkHandoff, TerminalReviewHandoff, attempt_id_of}
use unrest.Model.Attention.{AttentionKind, AttentionItem, Report}

-- What a cooperative stop reads of a retained snapshot.
pub record Snapshot : Type 0 where
  pub is_terminal_reviewer : Bool
  pub mission_id : String
  pub node_id : Option String
  pub attempt_id : Option String
  pub terminal_review_id : Option String

-- `_require_attempt_id`
unfoldable pub require_attempt_id : Option String → Option String
require_attempt_id none = none
require_attempt_id (some a) = if matches_identity a then some a else none

module _ (new_id : String → String) where
  -- The item of `node_failed` and `node_attention`, once the attempt id is known.
  unfoldable pub node_item : AttentionKind → String → Task → NodeHandoff → String → AttentionItem
  node_item kind mission_id task handoff attempt_id = record {
    id = new_id task.id;
    report = Report.handoff_report task handoff;
    kind = kind;
    mission_id = mission_id;
    node_id = some task.id;
    attempt_id = some attempt_id;
    terminal_review_id = none;
  }

  unfoldable pub node_failed : String → Task → WorkHandoff → Option AttentionItem
  unfolding require_attempt_id node_item
  node_failed mission_id task handoff = elim (require_attempt_id handoff.attempt_id) [
    | none ↦ none
    | some a ↦
        some (node_item AttentionKind.node_failed mission_id task (NodeHandoff.work handoff) a)
  ]

  unfoldable pub node_attention : String → Task → NodeHandoff → Option AttentionItem
  unfolding require_attempt_id node_item
  node_attention mission_id task handoff = elim (require_attempt_id (attempt_id_of handoff)) [
    | none ↦ none
    | some a ↦ some (node_item AttentionKind.node_attention mission_id task handoff a)
  ]

  unfoldable pub gate_failed :
      String → Task → List String → Dict (Dict Bool) → Dict (List String) → AttentionItem
  gate_failed mission_id gate failed_items verdicts missing = record {
    id = new_id gate.id;
    report = Report.gate_report gate false failed_items verdicts missing;
    kind = AttentionKind.gate_failed;
    mission_id = mission_id;
    node_id = some gate.id;
    attempt_id = none;
    terminal_review_id = none;
  }

  unfoldable pub gate_checkpoint : String → Task → Dict (Dict Bool) → AttentionItem
  gate_checkpoint mission_id gate verdicts = record {
    id = new_id gate.id;
    report = Report.gate_report gate true [] verdicts [];
    kind = AttentionKind.gate_checkpoint;
    mission_id = mission_id;
    node_id = some gate.id;
    attempt_id = none;
    terminal_review_id = none;
  }

  unfoldable pub terminal_review : String → TerminalReviewHandoff → Option String → AttentionItem
  terminal_review mission_id review terminal_review_id = record {
    id = new_id "terminal-review";
    report = Report.text_report (if review.report == "" then "(empty)" else review.report);
    kind = AttentionKind.terminal_review;
    mission_id = mission_id;
    node_id = none;
    attempt_id = none;
    terminal_review_id = terminal_review_id;
  }

  -- `snapshot.node_id or "attempt"`
  abbrev stop_prefix : Option String → String
  stop_prefix none = "attempt"
  stop_prefix (some node_id) = if node_id == "" then "attempt" else node_id

  -- The snapshot is terminal, as both callers make it.
  unfoldable pub cooperative_stop : Snapshot → String → AttentionItem
  cooperative_stop snapshot safe_handoff =
      let review : AttentionItem = record {
        id = new_id "terminal-review";
        report = Report.text_report safe_handoff;
        kind = AttentionKind.terminal_review;
        mission_id = snapshot.mission_id;
        node_id = none;
        attempt_id = none;
        terminal_review_id = snapshot.terminal_review_id;
      } in
      let node : AttentionItem = record {
        id = new_id (stop_prefix snapshot.node_id);
        report = Report.text_report safe_handoff;
        kind = AttentionKind.node_attention;
        mission_id = snapshot.mission_id;
        node_id = snapshot.node_id;
        attempt_id = snapshot.attempt_id;
        terminal_review_id = none;
      } in
      if snapshot.is_terminal_reviewer then review else node
