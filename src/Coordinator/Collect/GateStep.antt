-- ===== src/Coordinator/Collect/GateStep.antt =====
-- src/unrest_harness/coordinator.py: `_try_evaluate_a_gate` and `_apply_gate_event` together.
use unrest.Base.{
  ◌≡◌, refl, ap, ◌∙◌, subst, Bool, inl, inr, ◌⊎◌, true, false, ◌&&◌, List, [], ◌∷◌, ◌++◌, String,
  Option, some, any, arith, ◌==◌, if◌then◌else◌, all, is_some,
}
use unrest.Model.Task.{
  Task, TaskList, TaskStatus, TaskStateFile, is_pending, status_of, status_of-set_status,
}
use unrest.Model.Attention.{AttentionItem}
use unrest.Validation.Navigation.{gates_in_order}
use unrest.Coordinator.Runnable.{deps_cleared}
use unrest.Coordinator.Gates.{
  Attempt, GateEvent, GateResult, evaluate_gate, first_gate_event, try_evaluate_a_gate,
}
use unrest.Coordinator.Gates.Semantics.{target_clears, evaluate_gate-cleared}
use unrest.Coordinator.Collect.{raise_attention, apply_gate_event}

-- A gate that is evaluated may be.
abbrev pub is_due : TaskStateFile → Task → Bool
is_due ts gate = is_pending (status_of ts gate.id) && deps_cleared ts gate

pick :
    (b : Bool) (here : GateEvent) (rest : Option GateEvent) (event : GateEvent)
    → (if b then some here else rest) ≡ some event
    → ((b ≡ true) × (here ≡ event)) ⊎ (rest ≡ some event)
pick true here rest event e = inl (refl, cc)
pick false here rest event e = inr e

module _ (read_attempt : String → String → Attempt) (tl : TaskList) (ts : TaskStateFile) where
  first-due :
      (gates : List Task) (event : GateEvent)
      → first_gate_event read_attempt tl ts gates ≡ some event
      → (is_due ts event.gate ≡ true) × (event.result ≡ evaluate_gate read_attempt tl ts event.gate)
  unfolding first_gate_event
  first-due [] event e = cc
  first-due (g ∷ gs) event e =
      let here : GateEvent = record { gate = g; result = evaluate_gate read_attempt tl ts g } in
      elim (pick (is_due ts g) here (first_gate_event read_attempt tl ts gs) event e) [
        | inl (due, same) ↦
            subst
              (λ ev.
                (is_due ts ev.gate ≡ true) × (ev.result ≡ evaluate_gate read_attempt tl ts ev.gate))
              same (due, refl)
        | inr later ↦ first-due gs event later
      ]

  first-any :
      (gates : List Task)
      → is_some (first_gate_event read_attempt tl ts gates) ≡ any (is_due ts) gates
  unfolding first_gate_event
  first-any [] = refl
  first-any (g ∷ gs) = ground (arith, first-any gs)

  -- A gate is evaluated exactly where some gate is pending with all its dependencies cleared.
  pub try_evaluate_a_gate-due :
      is_some (try_evaluate_a_gate read_attempt tl ts) ≡ any (is_due ts) (gates_in_order tl)
  unfolding try_evaluate_a_gate
  try_evaluate_a_gate-due = first-any (gates_in_order tl)

  -- The gate that is evaluated was pending with all its dependencies cleared. Afterwards it is cleared
  -- where each of its targets has a current validator and every one of these approves of it, and failed
  -- otherwise; no other task's status changes, and the item of the event is the one that is added to the
  -- attention.
  pub apply_gate_event-settles :
      (event : GateEvent) (attention : List AttentionItem) (rendered : AttentionItem)
      → try_evaluate_a_gate read_attempt tl ts ≡ some event
      → (is_due ts event.gate ≡ true)
        × ((j : String)
            → status_of
                (apply_gate_event
                  (record { task_state = ts; attention = attention })
                  event
                  rendered).task_state
                j
              ≡ (if event.gate.id == j
                  then (if all (target_clears read_attempt tl ts event.gate) event.gate.targets
                      then TaskStatus.cleared
                      else TaskStatus.failed)
                  else status_of ts j))
        × ((apply_gate_event
              (record { task_state = ts; attention = attention })
              event
              rendered).attention
            ≡ attention ++ rendered ∷ [])
  unfolding try_evaluate_a_gate apply_gate_event raise_attention
  apply_gate_event-settles event attention rendered e =
      let due = first-due (gates_in_order tl) event e in
      let status = if event.result.cleared then TaskStatus.cleared else TaskStatus.failed in
      let verdict =
        ap (λ (r : GateResult). r.cleared) (due.1)
        ∙ evaluate_gate-cleared read_attempt tl ts event.gate in
      (due.0, λ j. ground (arith, verdict, status_of-set_status ts event.gate.id j status), refl)
