-- ===== src/Lanes/Sound/Completing.antt =====
-- The end of `complete` of experimental_model.py on a sound state.
use unrest.Base.{
  ℕ, ◌≤◌, ◌≡◌, refl, sym, subst, arith, true, false, not, none, some, if◌then◌else◌, length, eqb,
}
use unrest.Lanes.{Reason, TurnOutcome, Turn, Lane, State, ok, is_active, is_blocked, halted}
use unrest.Lanes.Places.{get_elem?, All-get, get_elem?-set}
use unrest.Lanes.Steps.{with_lane, replace, attend, is_worker_phase}
use unrest.Lanes.Progress.{
  is_other, is_pass, sealed_lane, passed_lane, failed_lane, corrected_lane, renewed_lane, retry,
  settle,
}
use unrest.Lanes.Sound.{
  IsJudged, IsSoundLane, IsSound, validated-ok, halted-with_lane, with_lane-IsSound, Returns,
}
use unrest.Lanes.Sound.Lanes.{
  sealed-IsSoundLane, passed-IsSoundLane, failed-IsSoundLane, corrected-IsSoundLane,
  renewed-IsSoundLane,
}
use unrest.Lanes.Sound.Reserving.{Returns-if, attend-Returns, replace-Returns}

-- A lane is replaced by one that asks for no more.
module _ (s : State) (i : ℕ) (l : Lane) (e : get_elem? s.lanes i ≡ some l) (v : IsSound s) where
  pub changed-IsSound :
      (new : Lane)
      → is_blocked new ≡ is_blocked l
      → is_active new ≤ is_active l
      → new.parking_reserved ≤ l.parking_reserved
      → new.reuse_owner ≡ l.reuse_owner
      → new.spec.id ≡ l.spec.id
      → length new.turns ≤ length l.turns
      → IsSoundLane (halted s) new
      → IsSound (with_lane s i new)
  changed-IsSound new blocked active parking owner named turns sound =
      with_lane-IsSound s i l new (halted s) e v (halted-with_lane s i l new e blocked)
        (λ going. going) active parking owner named turns sound

  pub sound_lane : IsSoundLane (halted s) l
  sound_lane = All-get (IsSoundLane (halted s)) s.lanes i l v.lanes_in e

retry_steps :
    (s s' : State) (i : ℕ) (l : Lane)
    → replace s i (failed_lane l) ≡ ok s'
    → retry s i l ≡ (
        if not l.correction_reserved
        then replace s' i (corrected_lane (failed_lane l))
        else replace s' i (renewed_lane (failed_lane l)))
unfolding retry
retry_steps s s' i l first = rw first

retry-Returns :
    (s : State) (i : ℕ) (l : Lane)
    → get_elem? s.lanes i ≡ some l
    → IsSound s
    → l.active ≡ none
    → Returns (retry s i l)
unfolding replace
retry-Returns s i l e v idle =
    let f = failed_lane l in
    let w = sound_lane s i l e v in
    let v' : IsSound (with_lane s i f) =
      changed-IsSound s i l e v f refl (omega arith) (omega arith) refl refl (omega arith)
        (failed-IsSoundLane (halted s) l w) in
    let s' = with_lane s i f in
    let e' : get_elem? s'.lanes i ≡ some f = get_elem?-set s.lanes i l f e in
    let w' = sound_lane s' i f e' v' in
    subst Returns (sym (retry_steps s s' i l (validated-ok s' v'))) (
      Returns-if (not l.correction_reserved) (replace s' i (corrected_lane f))
        (replace s' i (renewed_lane f))
        (λ first. replace-Returns s' i (corrected_lane f) (
          changed-IsSound s' i f e' v' (corrected_lane f) refl (omega arith) (omega arith) refl refl
            (omega arith) (corrected-IsSoundLane (halted s') f w' idle)))
        (λ again. replace-Returns s' i (renewed_lane f) (
          changed-IsSound s' i f e' v' (renewed_lane f) refl (omega arith) (omega arith) refl refl
            (omega arith) (renewed-IsSoundLane (halted s') f w' idle))))

pub settle-Returns :
    (s : State) (i : ℕ) (l : Lane) (t : Turn) (o : TurnOutcome)
    → get_elem? s.lanes i ≡ some l
    → IsSound s
    → l.active ≡ none
    → (is_worker_phase t.phase ≡ false
        → is_pass o ≡ true
        → IsJudged l.candidate l.spec.targets l.turns)
    → Returns (settle s i l t o)
unfolding settle
settle-Returns s i l t o e v idle judged =
    let w = sound_lane s i l e v in
    Returns-if (is_other o) (attend s i Reason.noncorrectable false) _
      (λ lost. attend-Returns s i l Reason.noncorrectable false e v)
      (λ _.
        Returns-if (is_worker_phase t.phase) (replace s i (sealed_lane l t)) _
          (λ work. replace-Returns s i (sealed_lane l t) (
            changed-IsSound s i l e v (sealed_lane l t) refl (omega arith) (omega arith) refl refl
              (omega arith) (sealed-IsSoundLane (halted s) l w t idle)))
          (λ validation.
            Returns-if (is_pass o) (replace s i (passed_lane l)) _
              (λ passes. replace-Returns s i (passed_lane l) (
                changed-IsSound s i l e v (passed_lane l) refl (omega arith) (omega arith) refl refl
                  (omega arith)
                  (passed-IsSoundLane (halted s) l w idle (judged validation passes))))
              (λ fails.
                Returns-if (eqb l.generation 1) (attend s i Reason.product_failure false)
                  (retry s i l) (λ final. attend-Returns s i l Reason.product_failure false e v)
                  (λ renewable. retry-Returns s i l e v idle))))
