-- ===== src/Lanes/Lifecycle/Calls.antt =====
-- The calls on a campaign of experimental_model.py, and the life of a lane.
use unrest.Base.{
  ℕ, zero, suc, ◌+◌, ◌≡◌, refl, sym, subst, arith, Bool, true, false, not, ◌&&◌, ◌||◌, List, [],
  ◌∷◌, String, Option, none, some, if◌then◌else◌, length, is_some, any, ltb, eqb, Option-cases, inl,
  inr,
}
use unrest.Lanes.{
  Phase, Reason, TurnOutcome, Turn, Lane, Halt, State, Refusal, Result, ok, err, ◌>>=◌, is_blocked,
  halted, validated, active_count, turn_count,
}
use unrest.Lanes.Places.{get_elem?, last, get_elem?-set, All-get}
use unrest.Lanes.Steps.{with_lane, replace, attend, close_parked}
use unrest.Lanes.Progress.{
  Transmission, with_turn, transmit, is_ordinal, is_uncertain, is_sent, transmit_turn,
  transmission_at, transmission, is_acked, is_foreign, completed_lane, settle, complete_turn,
  complete_at, complete, is_overdue, is_expired, expire, each, advance, stop, is_final, interrupt,
  restart, is_recoverable, recovered_lane, recover_at, recover_fresh,
}
use unrest.Lanes.Sound.{IsSoundLane, IsSound, IsFlight}
use unrest.Lanes.Sound.Attending.{halt_with}
use unrest.Lanes.Sound.Answering.{turn_at-ok}
use unrest.Lanes.Sound.Running.{idle_lane, Call, call, run, kept, kept-IsSound, call-Answers}
use unrest.Lanes.Lifecycle.{View, view_of, rests, recover, Lives, here, next}
use unrest.Lanes.Lifecycle.Ending.{settle-Traces, resting}
use unrest.Lanes.Lifecycle.Reserved.{view_rests, halt_closed-Traces, reserve_next-Traces}
use unrest.Lanes.Lifecycle.Following.{
  Follows, Follows-refl, Follows-trans, Follows-get, FollowsBut-refl, FollowsBut-set, Traces,
  Traces-raise_if, Traces-if, Traces-validated, Traces-replace, Traces-attend, Traces-after,
  Traces-replaced, Traces-named, Traces-at,
}

-- A turn that is over: the lane moves to its next phase.

completed_facts :
    (s : State) (l : Lane) (t : Turn) (o : TurnOutcome)
    → ((completed_lane s l t o).active ≡ none)
      × ((completed_lane s l t o).generation ≡ l.generation)
      × ((completed_lane s l t o).correction_reserved ≡ l.correction_reserved)
      × (is_blocked (completed_lane s l t o) ≡ is_blocked l)
unfolding completed_lane
completed_facts s l t o = (refl, refl, refl, refl)

complete_turn-Traces :
    (s : State) (i : ℕ) (l : Lane) (t : Turn) (o : TurnOutcome) (n : ℕ)
    → get_elem? s.lanes i ≡ some l
    → IsSoundLane (halted s) l
    → l.active ≡ some n
    → last l.turns ≡ some t
    → Traces s.lanes (complete_turn s i l t o)
unfolding complete_turn
complete_turn-Traces s i l t o n e v busy is_last =
    let c = completed_lane s l t o in
    let (idle, generation, mark, blocked) = completed_facts s l t o in
    let f : IsFlight l.phase l.candidate l.spec.targets t =
      v.flight t (ground (arith, busy)) is_last in
    Traces-raise_if s.lanes (is_foreign t.phase o) Refusal.role_outcome _ (λ own.
      Traces-replaced s.lanes s i c (λ s'. settle s' i c t o)
        (settle-Traces s (with_lane s i c) i l c t v n e (get_elem?-set s.lanes i l c e)
          (FollowsBut-set i s.lanes s.lanes c (FollowsBut-refl i s.lanes)) busy f.phase_is
          generation mark blocked idle o))

complete-Traces :
    (s : State) (id : String) (n : ℕ) (o : TurnOutcome)
    → IsSound s
    → Traces s.lanes (complete s id n o)
unfolding complete complete_at
complete-Traces s id n o v =
    Traces-named s id (λ i l. complete_at s i l n o)
      (λ i l e.
        let w = All-get (IsSoundLane (halted s)) s.lanes i l v.lanes_in e in
        Traces-raise_if s.lanes (not (is_ordinal l.active n)) Refusal.unacknowledged_turn _
          (λ named.
            let (t, at, is_last, busy) = turn_at-ok l n w (ground (arith, named)) in
            rw at (
              Traces-raise_if s.lanes (not (is_acked t.status)) Refusal.unacknowledged_turn _
                (λ acked. complete_turn-Traces s i l t o n e w busy is_last))))

-- A turn that changes its status leaves the view of its lane.
same_view : (l : Lane) (t : Turn) → Lives (view_of l) (view_of (with_turn l t))
same_view l t = here

transmit_turn-Traces :
    (s : State) (i : ℕ) (l : Lane) (t : Turn) (status : Transmission)
    → get_elem? s.lanes i ≡ some l
    → Traces s.lanes (transmit_turn s i l t status)
unfolding transmit_turn
transmit_turn-Traces s i l t status e = elim (Option-cases (transmit t.status status)) [
  | inl refused ↦ rw (refused, transmit_turn) tt
  | inr (later, allowed) ↦
      rw (allowed, transmit_turn)
        (Traces-if s.lanes (is_sent status && halted s) (err Refusal.dispatch_halted) _
          (λ stopped. tt)
          (λ going.
            Traces-replace s.lanes s i l (with_turn l (record t { status = later }))
              (FollowsBut-refl i s.lanes) e (same_view l (record t { status = later }))))
]

transmission-Traces :
    (s : State) (id : String) (n : ℕ) (status : Transmission)
    → IsSound s
    → Traces s.lanes (transmission s id n status)
unfolding transmission transmission_at
transmission-Traces s id n status v =
    Traces-named s id (λ i l. transmission_at s i l n status)
      (λ i l e.
        let w = All-get (IsSoundLane (halted s)) s.lanes i l v.lanes_in e in
        Traces-raise_if s.lanes (not (is_ordinal l.active n)) Refusal.inactive_turn _ (λ named.
          let (t, at, is_last, busy) = turn_at-ok l n w (ground (arith, named)) in
          rw at (
            Traces-if s.lanes (is_uncertain status) (attend s i Reason.ambiguous_send true)
              (transmit_turn s i l t status)
              (λ lost.
                Traces-attend s.lanes s i l l Reason.ambiguous_send true (FollowsBut-refl i s.lanes)
                  e e refl refl)
              (λ told. transmit_turn-Traces s i l t status e))))

Traces-bind :
    (xs : List Lane) (r : Result State) (k : State → Result State)
    → Traces xs r
    → ((s : State) → Follows xs s.lanes → Traces xs (k s))
    → Traces xs (r >>= k)
Traces-bind xs (ok s) k h f = f s h
Traces-bind xs (err e) k h f = tt

-- A loop over the lanes.
each-Traces :
    (xs : List Lane) (f : State → ℕ → Result State)
    → ((s : State) (i : ℕ) → Traces s.lanes (f s i))
    → (n i : ℕ) (s : State) → Follows xs s.lanes
    → Traces xs (each f n i s)
each-Traces xs f round zero i s h = h
each-Traces xs f round (suc n) i s h =
    Traces-bind xs (f s i) (each f n (suc i)) (Traces-after xs s.lanes (f s i) h (round s i))
      (λ s' h'. each-Traces xs f round n (suc i) s' h')

expire-Traces : (now : ℕ) (s : State) (i : ℕ) → Traces s.lanes (expire now s i)
unfolding expire
expire-Traces now s i = Traces-at s i _ (λ l e. overdue l e (is_overdue now l))
  where
    overdue :
        (l : Lane)
        → get_elem? s.lanes i ≡ some l
        → (r : Result Bool)
        → Traces s.lanes (
            r >>= λ late.
            if late
            then attend s i Reason.deadline false
            else if any (is_expired now) l.leases
            then attend s i Reason.expired false
            else ok s)
    overdue l e (err x) = tt
    overdue l e (ok late) =
        Traces-if s.lanes late (attend s i Reason.deadline false) _
          (λ over.
            Traces-attend s.lanes s i l l Reason.deadline false (FollowsBut-refl i s.lanes) e e refl
              refl)
          (λ early.
            Traces-if s.lanes (any (is_expired now) l.leases) (attend s i Reason.expired false)
              (ok s)
              (λ old.
                Traces-attend s.lanes s i l l Reason.expired false (FollowsBut-refl i s.lanes) e e
                  refl refl)
              (λ new. Follows-refl s.lanes))

interrupt-Traces : (s : State) (i : ℕ) → Traces s.lanes (interrupt s i)
unfolding interrupt
interrupt-Traces s i = Traces-at s i _ (λ l e.
    Traces-if s.lanes (is_some l.active) (attend s i Reason.ambiguous_send true) _
      (λ busy.
        Traces-attend s.lanes s i l l Reason.ambiguous_send true (FollowsBut-refl i s.lanes) e e
          refl refl)
      (λ idle.
        Traces-if s.lanes (l.admitted && not (is_final l.phase)) (attend s i Reason.restart false)
          (ok s)
          (λ begun'.
            Traces-attend s.lanes s i l l Reason.restart false (FollowsBut-refl i s.lanes) e e refl
              refl)
          (λ over. Follows-refl s.lanes)))

advance-Traces : (s : State) (now : ℕ) → Traces s.lanes (advance s now)
unfolding advance
advance-Traces s now = Traces-raise_if s.lanes (ltb now s.now) Refusal.clock_reversed _ (λ forward.
    Traces-bind s.lanes (validated (record s { now = now })) _
      (Traces-validated s.lanes (record s { now = now }) (Follows-refl s.lanes))
      (λ s' f. each-Traces s.lanes (expire now) (expire-Traces now) (length s'.lanes) 0 s' f))

restart-Traces : (s : State) → Traces s.lanes (restart s)
unfolding restart
restart-Traces s =
    each-Traces s.lanes interrupt interrupt-Traces (length s.lanes) 0 s (Follows-refl s.lanes)

recovered-Lives :
    (l : Lane)
    → l.active ≡ none
    → is_blocked l ≡ true
    → l.generation ≡ 0
    → Lives (view_of l) (view_of (recovered_lane l))
recovered-Lives l idle blocked first = resting (recovered_lane l) idle (
    subst (λ (u : View). Lives u (rests Phase.work 1 l.correction_reserved false))
      (view_rests l true idle blocked)
      (subst
        (λ (g : ℕ).
          Lives (rests l.phase g l.correction_reserved true)
            (rests Phase.work 1 l.correction_reserved false))
        (sym first) (next here (recover l.phase l.correction_reserved))))

recoverable : (o : Option Reason) → is_recoverable o ≡ true → is_some o ≡ true
recoverable none h = cc
recoverable (some r) h = refl

recover_fresh-Traces : (s : State) (id : String) → Traces s.lanes (recover_fresh s id)
unfolding recover_fresh recover_at active_count
recover_fresh-Traces s id =
    Traces-named s id (λ i l. recover_at s i l)
      (λ i l e.
        Traces-raise_if s.lanes
          (is_some s.halt
            || (not (eqb (active_count s) 0)
                || (not (is_recoverable l.blocking) || not (eqb l.generation 0))))
          Refusal.recovery_forbidden _
          (λ allowed.
            Traces-if s.lanes (ltb s.config.turn_budget (turn_count s + 2 + s.config.final_turns))
              (validated (halt_with s Halt.budget) >>= close_parked)
              (replace s i (recovered_lane l)) (λ spent. halt_closed-Traces s Halt.budget)
              (λ left.
                Traces-replace s.lanes s i l (recovered_lane l) (FollowsBut-refl i s.lanes) e (
                  recovered-Lives l (idle_lane s.lanes i l (ground (arith, allowed)) e)
                    (recoverable l.blocking (ground (arith, allowed))) (ground (arith, allowed))))))

call-Traces : (c : Call) (s : State) → IsSound s → Traces s.lanes (call c s)
unfolding call stop
call-Traces Call.reserve s v = reserve_next-Traces s v
call-Traces (Call.transmit id n status) s v = transmission-Traces s id n status v
call-Traces (Call.finish id n o) s v = complete-Traces s id n o v
call-Traces (Call.tick now) s v = advance-Traces s now
call-Traces Call.halt s v = halt_closed-Traces s Halt.stopped
call-Traces Call.reload s v = restart-Traces s
call-Traces (Call.recover id) s v = recover_fresh-Traces s id

kept-Follows : (s : State) (r : Result State) → Traces s.lanes r → Follows s.lanes (kept s r).lanes
kept-Follows s (ok s') f = f
kept-Follows s (err e) f = Follows-refl s.lanes

run-Follows : (cs : List Call) (s : State) → IsSound s → Follows s.lanes (run cs s).lanes
unfolding run
run-Follows [] s v = Follows-refl s.lanes
run-Follows (c ∷ cs) s v =
    let s' = kept s (call c s) in
    Follows-trans s.lanes s'.lanes (run cs s').lanes (kept-Follows s (call c s) (call-Traces c s v))
      (run-Follows cs s' (kept-IsSound s (call c s) v (call-Answers c s v)))

-- Whatever calls are made on a sound state, each lane moves along the life of a lane: the calls refine
-- the step relation `LaneStep` on the phase, the generation and the three marks of a lane, in which a
-- correction begins only if none has begun, and a defect starts the second generation only after one.
pub run-Lives :
    (cs : List Call) (s : State) (i : ℕ) (l k : Lane)
    → IsSound s
    → get_elem? s.lanes i ≡ some l
    → get_elem? (run cs s).lanes i ≡ some k
    → Lives (view_of l) (view_of k)
run-Lives cs s i l k v e h = Follows-get s.lanes (run cs s).lanes i l k (run-Follows cs s v) e h
