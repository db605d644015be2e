-- ===== src/Model/Attention.antt =====
-- src/unrest_harness/models.py: attention items and the check of their identity.
-- A report is kept as the values that its text is made of.
use unrest.Base.{Bool, false, not, ◌&&◌, ◌||◌, List, String, Option, none, some, is_some, Dict}
use unrest.Model.Names.{has_text}
use unrest.Model.Task.{Task}
use unrest.Model.Handoff.{NodeHandoff}

pub data AttentionKind : Type 0 where
  node_failed node_attention gate_failed gate_checkpoint terminal_review : AttentionKind

pub data Report : Type 0 where
  -- The lines of `_handoff_report`.
  handoff_report : Task → NodeHandoff → Report
  -- The lines of `_gate_report`: the gate, whether it cleared, the failed items, the verdicts and
  -- the missing items of each validator.
  gate_report : Task → Bool → List String → Dict (Dict Bool) → Dict (List String) → Report
  -- A text from elsewhere.
  text_report : String → Report

pub record AttentionItem : Type 0 where
  pub id : String
  pub report : Report
  pub kind : AttentionKind
  pub mission_id : String
  pub node_id : Option String
  pub attempt_id : Option String
  pub terminal_review_id : Option String

-- `value is not None and bool(value.strip())`
abbrev pub present : Option String → Bool
present none = false
present (some value) = has_text value

-- What `_closed_kind_identity` accepts, by the kind.
unfoldable pub closed_kind : AttentionKind → AttentionItem → Bool
closed_kind AttentionKind.node_failed item =
    not (not (present item.node_id) || is_some item.terminal_review_id)
    && not (is_some item.attempt_id && not (present item.attempt_id))
closed_kind AttentionKind.node_attention item =
    not (not (present item.node_id) || is_some item.terminal_review_id)
    && not (is_some item.attempt_id && not (present item.attempt_id))
closed_kind AttentionKind.gate_failed item =
    not (not (present item.node_id) || (is_some item.attempt_id || is_some item.terminal_review_id))
closed_kind AttentionKind.gate_checkpoint item =
    not (not (present item.node_id) || (is_some item.attempt_id || is_some item.terminal_review_id))
closed_kind AttentionKind.terminal_review item =
    not (not (present item.terminal_review_id) || (is_some item.node_id || is_some item.attempt_id))

unfoldable pub closed_kind_identity : AttentionItem → Bool
unfolding closed_kind
closed_kind_identity item = closed_kind item.kind item
