-- ===== src/Coordinator/Collect/Binding.antt =====
-- src/unrest_harness/coordinator.py: `_bind_dispatched_handoff`.
use unrest.Base.{◌≡◌, sym, ap, Bool, true, false, String, Option, none, some, arith, ◌==◌, eq_iff}
use unrest.Model.Task.{Task}
use unrest.Model.Handoff.{NodeHandoff, node_id_of, attempt_id_of, is_done, with_attempt}
use unrest.Coordinator.Collect.{bind_dispatched_handoff, synthesize_handoff}

rebind : (h : NodeHandoff) (a : Option String) → attempt_id_of h ≡ a → with_attempt h a ≡ h
rebind (NodeHandoff.work h) a e =
    sym (ap (λ (x : Option String). NodeHandoff.work (record h { attempt_id = x })) e)
rebind (NodeHandoff.validate h) a e =
    sym (ap (λ (x : Option String). NodeHandoff.validate (record h { attempt_id = x })) e)

abbrev is_this : Option String → String → Bool
is_this none a = false
is_this (some x) a = x == a

this : (o : Option String) (a : String) → is_this o a ≡ true → o ≡ some a
this none a e = cc
this (some x) a e = ap some ((eq_iff x a).0 e)

own :
    (h : NodeHandoff) (a : String)
    → is_this (attempt_id_of h) a ≡ true
    → with_attempt h (some a) ≡ h
own h a e = rebind h (some a) (this (attempt_id_of h) a e)

-- A bound handoff names its task and the generation that was dispatched, and one that is done is the
-- dispatcher's own: a handoff for another task, for another generation or for none is replaced by one
-- that is not done.
pub bind_dispatched_handoff-binds :
    (task : Task) (h : NodeHandoff) (spawn_ts : String)
    → (node_id_of (bind_dispatched_handoff task h spawn_ts) ≡ task.id)
      × (attempt_id_of (bind_dispatched_handoff task h spawn_ts) ≡ some spawn_ts)
      × (is_done (bind_dispatched_handoff task h spawn_ts) ≡ true
          → bind_dispatched_handoff task h spawn_ts ≡ h)
unfolding bind_dispatched_handoff synthesize_handoff
bind_dispatched_handoff-binds task (NodeHandoff.work h) spawn_ts =
    ground (arith, eq_iff h.node_id task.id, own (NodeHandoff.work h) spawn_ts)
bind_dispatched_handoff-binds task (NodeHandoff.validate h) spawn_ts =
    ground (arith, eq_iff h.node_id task.id, own (NodeHandoff.validate h) spawn_ts)
