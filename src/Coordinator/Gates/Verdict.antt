-- ===== src/Coordinator/Gates/Verdict.antt =====
-- src/unrest_harness/coordinator.py: `_evaluate_gate`, the evidence of one validator.
use unrest.Base.{
  ◌≡◌, refl, ap, Bool, true, false, not, ◌&&◌, ◌||◌, List, [], ◌∷◌, String, Option, none, some,
  arith, ◌==◌, eq_iff, if◌then◌else◌, contains, contains-minus, Dict, find, put, find-put, minus,
}
use unrest.Model.Handoff.{NodeHandoff, ValidationItem}
use unrest.Coordinator.Gates.{Attempt, item_verdicts, all_false, evidence_of}

-- Some item is about the target.
abbrev pub mentions : String → List ValidationItem → Bool
mentions target [] = false
mentions target (item ∷ items) = item.item_id == target || mentions target items

-- Exactly one item is about the target, and it passed.
abbrev pub approves : String → List ValidationItem → Bool
approves target [] = false
approves target (item ∷ items) =
    if item.item_id == target
    then item.passed && not (mentions target items)
    else approves target items

-- The attempt is a validation handoff that approves of the target.
abbrev pub approved : Option Attempt → String → Bool
approved (some (Attempt.handed (NodeHandoff.validate h))) target = approves target h.items
approved _ target = false

find-all_false :
    (ts : List String) (d : Dict Bool) (k : String)
    → find k (all_false d ts) ≡ (if contains k ts then some false else find k d)
unfolding all_false
find-all_false [] d k = refl
find-all_false (t ∷ ts) d k =
    ground
      (arith, find-all_false ts (put t false d) k, find-put t k false d, eq_iff t k, eq_iff k t)

find-item_verdicts :
    (expected : List String) (items : List ValidationItem) (d : Dict Bool) (returned : List String)
    (k : String)
    → find k (item_verdicts expected items d returned).0 ≡ (
        if contains k expected && mentions k items
        then some (if contains k returned then false else approves k items)
        else find k d)
unfolding item_verdicts
find-item_verdicts expected [] d returned k = ground arith
find-item_verdicts expected (i ∷ items) d returned k =
    let v = if contains i.item_id returned then false else i.passed in
    let d' = if contains i.item_id expected then put i.item_id v d else d in
    ground (
      arith,
      find-item_verdicts expected items d' (i.item_id ∷ returned) k,
      find-put i.item_id k v d,
      eq_iff i.item_id k,
      eq_iff k i.item_id,
      ap (λ (s : String). contains s expected),
      ap (λ (s : String). contains s returned),
    )

returned-item_verdicts :
    (expected : List String) (items : List ValidationItem) (d : Dict Bool) (returned : List String)
    (k : String)
    → contains k (item_verdicts expected items d returned).1
      ≡ (mentions k items || contains k returned)
unfolding item_verdicts
returned-item_verdicts expected [] d returned k = refl
returned-item_verdicts expected (i ∷ items) d returned k =
    let v = if contains i.item_id returned then false else i.passed in
    let d' = if contains i.item_id expected then put i.item_id v d else d in
    ground (
      arith,
      returned-item_verdicts expected items d' (i.item_id ∷ returned) k,
      eq_iff i.item_id k,
      eq_iff k i.item_id,
    )

approves-mentions :
    (k : String) (items : List ValidationItem) → approves k items ≡ true → mentions k items ≡ true
approves-mentions k [] h = cc
approves-mentions k (i ∷ items) h = ground (arith, approves-mentions k items)

-- Each expected target has a verdict, which is true exactly where the attempt approves of it.
pub find-evidence_of :
    (expected : List String) (attempt : Option Attempt) (k : String)
    → find k (evidence_of expected attempt).verdicts
      ≡ (if contains k expected then some (approved attempt k) else none)
unfolding evidence_of find
find-evidence_of expected none k = find-all_false expected [] k
find-evidence_of expected (some Attempt.rejected) k = find-all_false expected [] k
find-evidence_of expected (some Attempt.absent) k = find-all_false expected [] k
find-evidence_of expected (some (Attempt.handed (NodeHandoff.work h))) k =
    find-all_false expected [] k
find-evidence_of expected (some (Attempt.handed (NodeHandoff.validate h))) k =
    let out = item_verdicts expected h.items [] [] in
    ground (
      arith,
      find-all_false (minus expected out.1) out.0 k,
      find-item_verdicts expected h.items [] [] k,
      returned-item_verdicts expected h.items [] [] k,
      contains-minus k expected out.1,
      approves-mentions k h.items,
    )

-- Rejected evidence approves of nothing.
pub rejected-approved :
    (expected : List String) (attempt : Option Attempt) (k : String)
    → (evidence_of expected attempt).is_rejected ≡ true
    → approved attempt k ≡ false
unfolding evidence_of find
rejected-approved expected none k h = refl
rejected-approved expected (some Attempt.rejected) k h = refl
rejected-approved expected (some Attempt.absent) k h = refl
rejected-approved expected (some (Attempt.handed (NodeHandoff.work w))) k h = refl
rejected-approved expected (some (Attempt.handed (NodeHandoff.validate v))) k h = cc
