-- ===== src/Coordinator/Collect/Answers.antt =====
-- src/unrest_harness/coordinator.py: `_apply_handoff_collect`, its exceptions and its attention items.
use unrest.Base.{
  ◌≡◌, refl, ◌∙◌, Bool, true, false, List, [], String, Option, none, some, arith, all,
}
use unrest.Model.Names.{
  matches_identity, has_text, matches_task_id, is_space, is_upper, is_lower, is_digit,
  is_identity_char, is_task_char,
}
use unrest.Model.Task.{Task, TaskList, TaskType}
use unrest.Model.Handoff.{NodeHandoff, WorkHandoff, attempt_id_of}
use unrest.Model.Attention.{AttentionItem, AttentionKind, closed_kind, closed_kind_identity}
use unrest.Coordinator.Attention.{node_failed, node_attention, node_item, require_attempt_id}
use unrest.Coordinator.Collect.{
  Cursor, collect_work, collect_validate, collect_by_type, apply_handoff_collect, bound_handoff,
  blocked_handoff, append_attention,
}

identity_text : (s : String) → matches_identity s ≡ true → has_text s ≡ true
unfolding matches_identity has_text is_space is_upper is_lower is_digit is_identity_char
identity_text s h = ground arith

task_text : (s : String) → matches_task_id s ≡ true → has_text s ≡ true
unfolding matches_task_id has_text is_space is_upper is_lower is_digit is_task_char
task_text s h = ground arith

-- Whether a handoff is of the class that its task's type asks for.
abbrev pub fits : TaskType → NodeHandoff → Bool
fits TaskType.work (NodeHandoff.validate h) = false
fits _ _ = true

-- The function returned, and each item passes the check of its identity.
abbrev pub well_formed : Option (List AttentionItem) → Bool
well_formed none = false
well_formed (some items) = all closed_kind_identity items

module _ (new_id : String → String) where
  node_item-closed :
      (kind : AttentionKind) (mid : String) (task : Task) (h : NodeHandoff) (a : String)
      → matches_task_id task.id ≡ true
      → matches_identity a ≡ true
      → (closed_kind AttentionKind.node_failed (node_item new_id kind mid task h a) ≡ true)
        × (closed_kind AttentionKind.node_attention (node_item new_id kind mid task h a) ≡ true)
  unfolding node_item closed_kind
  node_item-closed kind mid task h a m i = (
    ground (arith, m, i, task_text task.id, identity_text a),
    ground (arith, m, i, task_text task.id, identity_text a),
  )

  node_attention-closed :
      (mid : String) (task : Task) (h : NodeHandoff) (a : String)
      → matches_task_id task.id ≡ true
      → matches_identity a ≡ true
      → attempt_id_of h ≡ some a
      → (well_formed (append_attention [] true (node_attention new_id mid task h)) ≡ true)
        × (node_attention new_id mid task h
            ≡ some (node_item new_id AttentionKind.node_attention mid task h a))
  unfolding node_attention require_attempt_id closed_kind_identity node_item
  node_attention-closed mid task h a m i e =
      let c = node_item-closed AttentionKind.node_attention mid task h a m i in
      (ground (arith, e, i, c), ground (arith, e, i, c))

  node_failed-closed :
      (mid : String) (task : Task) (h : WorkHandoff) (a : String)
      → matches_task_id task.id ≡ true
      → matches_identity a ≡ true
      → h.attempt_id ≡ some a
      → (well_formed (append_attention [] true (node_failed new_id mid task h)) ≡ true)
        × (node_failed new_id mid task h
            ≡ some (node_item new_id AttentionKind.node_failed mid task (NodeHandoff.work h) a))
  unfolding node_failed require_attempt_id closed_kind_identity node_item
  node_failed-closed mid task h a m i e =
      let c = node_item-closed AttentionKind.node_failed mid task (NodeHandoff.work h) a m i in
      (ground (arith, e, i, c), ground (arith, e, i, c))

  by_type-answers :
      (type : TaskType) (mid : String) (tl : TaskList) (cursor : Cursor) (task : Task)
      (h : NodeHandoff) (a : String)
      → matches_task_id task.id ≡ true
      → matches_identity a ≡ true
      → attempt_id_of h ≡ some a
      → fits type h ≡ true
      → well_formed (collect_by_type new_id type mid tl cursor task h).1 ≡ true
  unfolding collect_by_type collect_work collect_validate
  by_type-answers TaskType.work mid tl cursor task (NodeHandoff.work h) a m i e f = ground (
    arith,
    node_attention-closed mid task (NodeHandoff.work h) a m i e,
    node_failed-closed mid task h a m i e,
  )
  by_type-answers TaskType.work mid tl cursor task (NodeHandoff.validate h) a m i e f = cc
  by_type-answers TaskType.validate mid tl cursor task (NodeHandoff.work h) a m i e f =
      ground (arith, node_attention-closed mid task (NodeHandoff.work h) a m i e)
  by_type-answers TaskType.validate mid tl cursor task (NodeHandoff.validate h) a m i e f =
      ground (arith, node_attention-closed mid task (NodeHandoff.validate h) a m i e)
  by_type-answers TaskType.gate mid tl cursor task h a m i e f =
      ground (arith, node_attention-closed mid task h a m i e)

  bound_attempt :
      (h : NodeHandoff) (block : Option String) (a : String)
      → attempt_id_of (bound_handoff new_id h block a) ≡ some a
  unfolding bound_handoff blocked_handoff
  bound_attempt (NodeHandoff.work h) none a = refl
  bound_attempt (NodeHandoff.work h) (some r) a = refl
  bound_attempt (NodeHandoff.validate h) none a = refl
  bound_attempt (NodeHandoff.validate h) (some r) a = refl

  bound_fits :
      (type : TaskType) (h : NodeHandoff) (block : Option String) (a : String)
      → fits type (bound_handoff new_id h block a) ≡ fits type h
  unfolding bound_handoff blocked_handoff
  bound_fits TaskType.work (NodeHandoff.work h) none a = refl
  bound_fits TaskType.work (NodeHandoff.work h) (some r) a = refl
  bound_fits TaskType.work (NodeHandoff.validate h) none a = refl
  bound_fits TaskType.work (NodeHandoff.validate h) (some r) a = refl
  bound_fits TaskType.validate h block a = refl
  bound_fits TaskType.gate h block a = refl

  -- For a task with a valid id, an attempt with a valid identity that was not stopped and a handoff of
  -- the class that the task asks for, collecting the handoff raises no exception, and each attention
  -- item that it raises passes the check of its identity.
  pub apply_handoff_collect-answers :
      (mid : String) (tl : TaskList) (cursor : Cursor) (task : Task) (h : NodeHandoff)
      (block : Option String) (spawn_ts : String)
      → matches_task_id task.id ≡ true
      → matches_identity spawn_ts ≡ true
      → fits task.type h ≡ true
      → well_formed (apply_handoff_collect new_id mid tl cursor task h block none spawn_ts).1 ≡ true
  unfolding apply_handoff_collect
  apply_handoff_collect-answers mid tl cursor task h block spawn_ts m i f =
      by_type-answers task.type mid tl cursor task (bound_handoff new_id h block spawn_ts) spawn_ts
        m i (bound_attempt h block spawn_ts) (bound_fits task.type h block spawn_ts ∙ f)
