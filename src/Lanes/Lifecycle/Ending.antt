-- ===== src/Lanes/Lifecycle/Ending.antt =====
-- The end of `complete` of experimental_model.py, and the life of a lane.
use unrest.Base.{
  ℕ, ◌≡◌, refl, sym, subst, ap, ◌∙◌, arith, Bool, true, false, not, none, some, if◌then◌else◌,
  is_some, eqb,
}
use unrest.Lanes.{Phase, Reason, TurnOutcome, Turn, Lane, State, is_blocked, halted}
use unrest.Lanes.Places.{get_elem?}
use unrest.Lanes.Steps.Ready.{priority}
use unrest.Lanes.Steps.{with_lane, replace, attend, is_worker_phase, is_correction}
use unrest.Lanes.Progress.{
  is_other, is_pass, sealed_lane, passed_lane, failed_lane, corrected_lane, renewed_lane, retry,
  settle,
}
use unrest.Lanes.Sound.{IsSoundLane}
use unrest.Lanes.Lifecycle.{
  View, view_of, begun, rests, seal, fix, accept, accept_fix, correct, renew, Lives, here, next,
}
use unrest.Lanes.Lifecycle.Reserved.{view_rests}
use unrest.Lanes.Lifecycle.Following.{
  FollowsBut, FollowsBut-set, Traces, Traces-if, Traces-replace, Traces-attend, Traces-replaced,
}

unmarked : (b : Bool) → not b ≡ true → b ≡ false
unmarked b h = ground arith

marked : (b : Bool) → not b ≡ false → b ≡ true
marked b h = ground arith

-- A turn that is over: the lane moves to its next phase.
sealed-Lives :
    (p : Phase) (g : ℕ) (c b : Bool)
    → is_worker_phase p ≡ true
    → Lives
        (begun p g c b)
        (rests (if is_correction p then Phase.recheck else Phase.validate) g c b)
sealed-Lives Phase.work g c b h = next here (seal g c b)
sealed-Lives Phase.correction g c b h = next here (fix g c b)
sealed-Lives Phase.validate g c b h = cc
sealed-Lives Phase.recheck g c b h = cc
sealed-Lives Phase.passed g c b h = cc
sealed-Lives Phase.attention g c b h = cc

passed-Lives :
    (p : Phase) (g : ℕ) (c b : Bool)
    → is_worker_phase p ≡ false
    → is_some (priority p) ≡ true
    → Lives (begun p g c b) (rests Phase.passed g c b)
passed-Lives Phase.validate g c b h k = next here (accept g c b)
passed-Lives Phase.recheck g c b h k = next here (accept_fix g c b)
passed-Lives Phase.work g c b h k = cc
passed-Lives Phase.correction g c b h k = cc
passed-Lives Phase.passed g c b h k = cc
passed-Lives Phase.attention g c b h k = cc

began :
    (l c : Lane) (t : Turn) (a : ℕ)
    → l.active ≡ some a
    → t.phase ≡ l.phase
    → c.generation ≡ l.generation
    → c.correction_reserved ≡ l.correction_reserved
    → is_blocked c ≡ is_blocked l
    → begun t.phase c.generation c.correction_reserved (is_blocked c) ≡ view_of l
began l c t a busy phase generation mark blocked = ground arith

pub resting :
    (k : Lane) {v : View}
    → k.active ≡ none
    → Lives v (rests k.phase k.generation k.correction_reserved (is_blocked k))
    → Lives v (view_of k)
resting k {v} idle h = subst (λ (u : View). Lives v u) (view_rests k (is_blocked k) idle refl) h

corrects :
    (c : Lane) (p : Phase)
    → is_worker_phase p ≡ false
    → c.generation ≡ 0
    → c.correction_reserved ≡ false
    → c.active ≡ none
    → Lives
        (begun p c.generation c.correction_reserved (is_blocked c))
        (view_of (corrected_lane (failed_lane c)))
corrects c p judged first unused idle = resting (corrected_lane (failed_lane c)) idle (
    subst
      (λ (m : Bool).
        Lives (begun p c.generation m (is_blocked c))
          (rests Phase.correction c.generation m (is_blocked c)))
      (sym unused)
      (subst
        (λ (g : ℕ).
          Lives (begun p g false (is_blocked c)) (rests Phase.correction g false (is_blocked c)))
        (sym first) (next here (correct p (is_blocked c) judged))))

renews :
    (c : Lane) (p : Phase)
    → is_worker_phase p ≡ false
    → c.generation ≡ 0
    → c.correction_reserved ≡ true
    → c.active ≡ none
    → Lives
        (begun p c.generation c.correction_reserved (is_blocked c))
        (view_of (renewed_lane (failed_lane c)))
renews c p judged first used idle = resting (renewed_lane (failed_lane c)) idle (
    subst
      (λ (m : Bool).
        Lives (begun p c.generation m (is_blocked c)) (rests Phase.work 1 m (is_blocked c)))
      (sym used)
      (subst
        (λ (g : ℕ). Lives (begun p g true (is_blocked c)) (rests Phase.work 1 true (is_blocked c)))
        (sym first) (next here (renew p (is_blocked c) judged))))

-- The lane `l` has turn `t` in flight in state `s`; in `s'` the lane is `c`, with the turn over.
module _ (s s' : State) (i : ℕ) (l c : Lane) (t : Turn) (v : IsSoundLane (halted s) l) (a : ℕ) where
  started :
      (w : View)
      → l.active ≡ some a
      → t.phase ≡ l.phase
      → c.generation ≡ l.generation
      → c.correction_reserved ≡ l.correction_reserved
      → is_blocked c ≡ is_blocked l
      → Lives (begun t.phase c.generation c.correction_reserved (is_blocked c)) w
      → Lives (view_of l) w
  started w busy phase generation mark blocked =
      subst (λ (u : View). Lives u w) (began l c t a busy phase generation mark blocked)

  module _ (e : get_elem? s.lanes i ≡ some l) (e' : get_elem? s'.lanes i ≡ some c)
      (f : FollowsBut i s.lanes s'.lanes) (busy : l.active ≡ some a) (at_phase : t.phase ≡ l.phase)
      (generation : c.generation ≡ l.generation)
      (mark : c.correction_reserved ≡ l.correction_reserved) (blocked : is_blocked c ≡ is_blocked l)
      (idle : c.active ≡ none) where
    retry-Traces :
        is_worker_phase t.phase ≡ false → c.generation ≡ 0 → Traces s.lanes (retry s' i c)
    unfolding retry
    retry-Traces judged first =
        let k = failed_lane c in
        Traces-replaced s.lanes s' i k _ (
          Traces-if s.lanes (not c.correction_reserved)
            (replace (with_lane s' i k) i (corrected_lane k))
            (replace (with_lane s' i k) i (renewed_lane k))
            (λ unused.
              Traces-replace s.lanes (with_lane s' i k) i l (corrected_lane k)
                (FollowsBut-set i s.lanes s'.lanes k f) e
                (started _ busy at_phase generation mark blocked
                  (corrects c t.phase judged first (unmarked c.correction_reserved unused) idle)))
            (λ used.
              Traces-replace s.lanes (with_lane s' i k) i l (renewed_lane k)
                (FollowsBut-set i s.lanes s'.lanes k f) e
                (started _ busy at_phase generation mark blocked
                  (renews c t.phase judged first (marked c.correction_reserved used) idle))))

    pub settle-Traces : (o : TurnOutcome) → Traces s.lanes (settle s' i c t o)
    unfolding settle
    settle-Traces o =
        let eligible : is_some (priority t.phase) ≡ true =
          ap (λ (p : Phase). is_some (priority p)) at_phase ∙ v.busy_phase (ground (arith, busy)) in
        Traces-if s.lanes (is_other o) (attend s' i Reason.noncorrectable false) _
          (λ lost.
            Traces-attend s.lanes s' i l c Reason.noncorrectable false f e e' (sym generation)
              (sym mark))
          (λ _.
            Traces-if s.lanes (is_worker_phase t.phase) (replace s' i (sealed_lane c t)) _
              (λ work. Traces-replace s.lanes s' i l (sealed_lane c t) f e (
                started _ busy at_phase generation mark blocked (
                  resting (sealed_lane c t) idle
                    (sealed-Lives t.phase c.generation c.correction_reserved (is_blocked c) work))))
              (λ validation.
                Traces-if s.lanes (is_pass o) (replace s' i (passed_lane c)) _
                  (λ passes. Traces-replace s.lanes s' i l (passed_lane c) f e (
                    started _ busy at_phase generation mark blocked (
                      resting (passed_lane c) idle (
                        passed-Lives t.phase c.generation c.correction_reserved (is_blocked c)
                          validation eligible))))
                  (λ fails.
                    Traces-if s.lanes (eqb c.generation 1)
                      (attend s' i Reason.product_failure false) (retry s' i c)
                      (λ final.
                        Traces-attend s.lanes s' i l c Reason.product_failure false f e e'
                          (sym generation) (sym mark))
                      (λ renewable.
                        retry-Traces validation
                          (ground (arith, generation, v.generation_in, renewable))))))
