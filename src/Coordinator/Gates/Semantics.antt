-- ===== src/Coordinator/Gates/Semantics.antt =====
-- src/unrest_harness/coordinator.py: `_evaluate_gate` against a description of a cleared gate.
use unrest.Base.{
  contains-select, all-on, select_self, empty-select, is_empty-not, is_empty-map, all-both,
  any-contains, all-contains, ◌≡◌, refl, sym, ap, ◌∙◌, subst, Bool, true, false, not, ◌&&◌, List,
  [], ◌∷◌, map, String, Option, none, some, arith, if◌then◌else◌, contains, is_empty, select, all,
  any, find, find_or, keys, contains-keys, unique, all-unique, all-select,
}
use unrest.Model.Task.{Task, TaskList, TaskStateFile}
use unrest.Validation.Fields.{ids_of}
use unrest.Coordinator.Gates.{
  Attempt, Evidence, evidence_of, current_validators, current_attempt, expected_of,
  expected_validators, all_evidence, covering_evidence, item_passed, evaluate_gate,
}
use unrest.Coordinator.Gates.Verdict.{approved, find-evidence_of, rejected-approved}

-- The evidence of a family of current validators, `cv target`, with an attempt each.
module _ (cv : String → List String) (attempt : String → Option Attempt)
    (targets : List String) where
  abbrev expects : String → List String
  expects id = select (λ t. contains id (cv t)) targets

  abbrev cited : String → Bool
  cited id = any (λ t. contains id (cv t)) targets

  abbrev evidence : String → String × Evidence
  evidence id = (id, evidence_of (expects id) (attempt id))

  verdict :
      (t id : String)
      → contains t targets ≡ true
      → find t (evidence id).1.verdicts
        ≡ (if contains id (cv t) then some (approved (attempt id) t) else none)
  verdict t id c = ground (
    arith,
    c,
    find-evidence_of (expects id) (attempt id) t,
    contains-select (λ t. contains id (cv t)) targets t,
  )

  covers :
      (t : String) (xs : List String)
      → contains t targets ≡ true
      → select (λ p. contains t (keys p.1.verdicts)) (map evidence (select cited xs))
        ≡ map evidence (select (λ id. contains id (cv t)) xs)
  covers t [] c = refl
  covers t (x ∷ xs) c = ground (
    arith,
    covers t xs c,
    verdict t x c,
    contains-keys t (evidence x).1.verdicts,
    any-contains (λ s. contains x (cv s)) targets t,
  )

  passes :
      (t : String) (xs : List String)
      → contains t targets ≡ true
      → all (λ id. contains id (cv t)) xs ≡ true
      → all (λ p. find_or false t p.1.verdicts) (map evidence xs)
        ≡ all (λ id. approved (attempt id) t) xs
  passes t [] c h = refl
  passes t (x ∷ xs) c h = ground (arith, passes t xs c, verdict t x c)

  vouched :
      (id : String) (ts : List String)
      → any (λ t. contains id (cv t)) ts ≡ true
      → all (λ t. all (λ i. approved (attempt i) t) (cv t)) ts ≡ true
      → (evidence id).1.is_rejected ≡ false
  vouched id [] c h = cc
  vouched id (t ∷ ts) c h = ground (
    arith,
    vouched id ts,
    all-contains (λ i. approved (attempt i) t) (cv t) id,
    rejected-approved (expects id) (attempt id) t,
  )

  none_rejected :
      (xs : List String)
      → all (λ t. all (λ i. approved (attempt i) t) (cv t)) targets ≡ true
      → is_empty (map (λ p. p.0) (select (λ p. p.1.is_rejected) (map evidence (select cited xs))))
        ≡ true
  none_rejected [] h = refl
  none_rejected (x ∷ xs) h = ground (arith, none_rejected xs h, vouched x targets)

-- The target has a current validator at the gate, and the attempt of each one approves of it.
abbrev pub target_clears :
    (String → String → Attempt) → TaskList → TaskStateFile → Task → String → Bool
target_clears read_attempt tl ts gate target =
    let validators = current_validators tl ts gate target in
    not (is_empty validators)
    && all (λ id. approved (current_attempt read_attempt ts id) target) validators

module _ (read_attempt : String → String → Attempt) (tl : TaskList) (ts : TaskStateFile)
    (gate : Task) where
  abbrev cv : String → List String
  cv = current_validators tl ts gate

  abbrev att : String → Option Attempt
  att = current_attempt read_attempt ts

  abbrev ev : List (String × Evidence)
  ev = all_evidence read_attempt tl ts gate

  cited_self : (t : String) → select (λ id. contains id (cv t)) (ids_of tl.tasks) ≡ cv t
  unfolding current_validators
  cited_self t = select_self _ (ids_of tl.tasks)

  covering :
      (t : String)
      → contains t gate.targets ≡ true
      → covering_evidence read_attempt ev t ≡ map (evidence cv att gate.targets) (cv t)
  unfolding covering_evidence all_evidence expected_validators expected_of
  covering t c =
      covers cv att gate.targets t (ids_of tl.tasks) c
      ∙ ap (map (evidence cv att gate.targets)) (cited_self t)

  item_passed-approved :
      (t : String)
      → contains t gate.targets ≡ true
      → item_passed read_attempt ev t ≡ all (λ id. approved (att id) t) (cv t)
  unfolding item_passed current_validators
  item_passed-approved t c =
      ap (all (λ p. find_or false t p.1.verdicts)) (covering t c)
      ∙ passes cv att gate.targets t (cv t) c (
          subst (λ vs. all (λ id. contains id (cv t)) vs ≡ true) (cited_self t)
            (all-select _ (ids_of tl.tasks)))

  uncovered :
      is_empty (select (λ t. is_empty (covering_evidence read_attempt ev t)) gate.targets)
      ≡ all (λ t. not (is_empty (cv t))) gate.targets
  uncovered =
      sym (is_empty-not (λ t. is_empty (covering_evidence read_attempt ev t)) gate.targets)
      ∙ all-on _ _ gate.targets
          (λ t c. ap (λ vs. not (is_empty vs)) (covering t c) ∙ ap not (is_empty-map _ (cv t)))

  failed :
      is_empty (select (λ t. not (item_passed read_attempt ev t)) (unique gate.targets))
      ≡ all (λ t. all (λ id. approved (att id) t) (cv t)) gate.targets
  failed =
      empty-select (item_passed read_attempt ev) (unique gate.targets)
      ∙ all-unique (item_passed read_attempt ev) gate.targets
      ∙ all-on _ _ gate.targets item_passed-approved

  rejected :
      all (λ t. all (λ id. approved (att id) t) (cv t)) gate.targets ≡ true
      → is_empty (map (λ p. p.0) (select (λ p. p.1.is_rejected) ev)) ≡ true
  unfolding all_evidence expected_validators expected_of
  rejected h = none_rejected cv att gate.targets (ids_of tl.tasks) h

  -- A gate clears exactly where each of its targets has a current validator and the attempt of each
  -- current validator of the target approves of it: it is a validation handoff, on disk under the
  -- generation of the validator's last attempt, with exactly one item for the target, which passed.
  pub evaluate_gate-cleared :
      (evaluate_gate read_attempt tl ts gate).cleared
      ≡ all (target_clears read_attempt tl ts gate) gate.targets
  unfolding evaluate_gate
  evaluate_gate-cleared = ground (
    arith,
    uncovered,
    failed,
    rejected,
    all-both (λ t. not (is_empty (cv t))) (λ t. all (λ id. approved (att id) t) (cv t))
        gate.targets,
  )
