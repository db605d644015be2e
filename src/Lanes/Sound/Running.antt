-- ===== src/Lanes/Sound/Running.antt =====
-- Sequences of calls on a campaign of experimental_model.py.
use unrest.Base.{
  ℕ, zero, suc, ◌+◌, ◌<◌, ◌≡◌, refl, sym, subst, arith, Bool, true, not, ◌||◌, List, [], ◌∷◌,
  String, none, some, length, is_some, All, ltb, eqb,
}
use native.Mathlib.Decide.{dec_lt}
use unrest.Lanes.{
  LaneSpec, Config, TurnOutcome, Lane, Halt, State, Refusal, Result, ok, err, ◌>>=◌, sum_by, flag,
  is_active, active_count, parking_count, owner_count, turn_count, halted, validated,
}
use unrest.Lanes.Admission.{Admission, admit}
use unrest.Lanes.Admission.Initial.{admitted-IsSound}
use unrest.Lanes.Places.{get_elem?, All-get, All-set, sum_by-set}
use unrest.Lanes.Steps.{with_lane, replace, close_parked, reserve_next}
use unrest.Lanes.Progress.{
  Transmission, transmission, complete, advance, stop, restart, is_recoverable, recovered_lane,
  recover_at, recover_fresh,
}
use unrest.Lanes.Sound.{
  IsSoundLane, IsSound, lane_ids-set, is_passed, IsJudged, Returns, Answers, Answers-Returns,
  Answers-raise_if, Answers-if,
}
use unrest.Lanes.Sound.Lanes.{recovered-IsSoundLane}
use unrest.Lanes.Sound.Reserving.{replace-Returns, halt_closed-Returns, reserve_next-Returns}
use unrest.Lanes.Sound.Answering.{Answers-named, complete-Answers, transmission-Answers}
use unrest.Lanes.Sound.Attending.{halt_with}
use unrest.Lanes.Sound.Clock.{advance-IsInTime, restart-IsSettled}

-- Where no turn is in flight, a lane is as sound in a campaign that goes on.
idle-All :
    (h k : Bool) (ls : List Lane)
    → sum_by is_active ls ≡ 0
    → All (IsSoundLane h) ls
    → All (IsSoundLane k) ls
idle-All h k [] e a = tt
idle-All h k (l ∷ ls) e a =
    let v = a.0 in
    (
      record {
        turns_in = v.turns_in;
        generation_in = v.generation_in;
        names = v.names;
        parked_in = v.parked_in;
        one_worker = v.one_worker;
        one_validator = v.one_validator;
        room = λ going busy. absurd (ground (arith, busy));
        no_room = v.no_room;
        busy_phase = v.busy_phase;
        flight = v.flight;
        judged = v.judged;
      },
      idle-All h k ls (omega arith) a.1,
    )

lane_inj : (x y : Lane) → some x ≡ some y → x ≡ y
lane_inj x y e = cc

pub idle_lane :
    (ls : List Lane) (i : ℕ) (l : Lane)
    → sum_by is_active ls ≡ 0
    → get_elem? ls i ≡ some l
    → l.active ≡ none
idle_lane [] i l z e = cc
idle_lane (x ∷ xs) zero l z e =
    subst (λ (y : Lane). y.active ≡ none) (lane_inj x l e) (ground arith)
idle_lane (x ∷ xs) (suc i) l z e = idle_lane xs i l (omega arith) e

recovered-IsSound :
    (s : State) (i : ℕ) (l : Lane)
    → get_elem? s.lanes i ≡ some l
    → IsSound s
    → active_count s ≡ 0
    → IsSound (with_lane s i (recovered_lane l))
unfolding active_count parking_count owner_count turn_count
recovered-IsSound s i l e v still =
    let new = recovered_lane l in
    let h = halted (with_lane s i new) in
    let w = All-get (IsSoundLane (halted s)) s.lanes i l v.lanes_in e in
    record {
      in_capacity = omega (arith, v.in_capacity, sum_by-set is_active s.lanes i l new e);
      in_parking =
          omega (arith, v.in_parking, sum_by-set (λ l. l.parking_reserved) s.lanes i l new e);
      one_owner =
          omega (arith, v.one_owner, sum_by-set (λ l. flag l.reuse_owner) s.lanes i l new e);
      in_budget = omega (arith, v.in_budget, sum_by-set (λ l. length l.turns) s.lanes i l new e);
      distinct_ids = rw (lane_ids-set s.lanes i l new e refl) v.distinct_ids;
      lanes_in =
          All-set (IsSoundLane h) s.lanes i new (idle-All (halted s) h s.lanes still v.lanes_in)
            (recovered-IsSoundLane (halted s) l w h (idle_lane s.lanes i l still e));
    }

recover_at-Answers :
    (s : State) (i : ℕ) (l : Lane)
    → get_elem? s.lanes i ≡ some l
    → IsSound s
    → Answers (recover_at s i l)
unfolding recover_at
recover_at-Answers s i l e v =
    Answers-raise_if
      (is_some s.halt
        || (not (eqb (active_count s) 0)
            || (not (is_recoverable l.blocking) || not (eqb l.generation 0))))
      Refusal.recovery_forbidden _ refl
      (λ allowed.
        Answers-if (ltb s.config.turn_budget (turn_count s + 2 + s.config.final_turns))
          (validated (halt_with s Halt.budget) >>= close_parked) (replace s i (recovered_lane l))
          (λ spent. Answers-Returns _ (halt_closed-Returns s Halt.budget v))
          (λ left. Answers-Returns _ (
            replace-Returns s i (recovered_lane l)
              (recovered-IsSound s i l e v (ground (arith, allowed))))))

recover_fresh-Answers : (s : State) (id : String) → IsSound s → Answers (recover_fresh s id)
unfolding recover_fresh
recover_fresh-Answers s id v =
    Answers-named s id (λ i l. recover_at s i l) (λ i l e. recover_at-Answers s i l e v)

stop-Returns : (s : State) → IsSound s → Returns (stop s)
unfolding stop
stop-Returns s v = halt_closed-Returns s Halt.stopped v

late : (s : State) (now : ℕ) → now < s.now → advance s now ≡ err Refusal.clock_reversed
unfolding advance
late s now lt = let back : ltb now s.now ≡ true = ground arith in rw back

advance-Answers : (s : State) (now : ℕ) → IsSound s → Answers (advance s now)
advance-Answers s now v = elim (dec_lt now s.now) [
  | yes lt ↦ subst Answers (sym (late s now lt)) refl
  | no over ↦
      let (s', returns, sound, at_now, in_time) = advance-IsInTime s now v (omega (arith, over)) in
      subst Answers (sym returns) sound
]

-- The calls on a campaign that has begun.
pub data Call : Type 0 where
  reserve : Call
  transmit : String → ℕ → Transmission → Call
  finish : String → ℕ → TurnOutcome → Call
  tick : ℕ → Call
  halt : Call
  reload : Call
  recover : String → Call

unfoldable pub call : Call → State → Result State
unfolding reserve_next transmission complete advance stop restart recover_fresh
call reserve s = reserve_next s
call (transmit id n status) s = transmission s id n status
call (finish id n o) s = complete s id n o
call (tick now) s = advance s now
call halt s = stop s
call reload s = restart s
call (recover id) s = recover_fresh s id

-- On a sound state each call refuses its caller by name or returns a sound state: the capacity checks
-- that every new state passes never fail, nor does an index.
pub call-Answers : (c : Call) (s : State) → IsSound s → Answers (call c s)
unfolding call
call-Answers reserve s v = Answers-Returns _ (reserve_next-Returns s v)
call-Answers (transmit id n status) s v = transmission-Answers s id n status v
call-Answers (finish id n o) s v = complete-Answers s id n o v
call-Answers (tick now) s v = advance-Answers s now v
call-Answers halt s v = Answers-Returns _ (stop-Returns s v)
call-Answers reload s v =
    let (s', returns, sound, more) = restart-IsSettled s v in subst Answers (sym returns) sound
call-Answers (recover id) s v = recover_fresh-Answers s id v

-- A caller that keeps its state where a call is refused.
abbrev pub kept : State → Result State → State
kept s (ok s') = s'
kept s (err e) = s

unfoldable pub run : List Call → State → State
unfolding call
run [] s = s
run (c ∷ cs) s = run cs (kept s (call c s))

pub kept-IsSound : (s : State) (r : Result State) → IsSound s → Answers r → IsSound (kept s r)
kept-IsSound s (ok s') v a = a
kept-IsSound s (err e) v a = v

pub run-IsSound : (cs : List Call) (s : State) → IsSound s → IsSound (run cs s)
unfolding run
run-IsSound [] s v = v
run-IsSound (c ∷ cs) s v =
    run-IsSound cs (kept s (call c s)) (kept-IsSound s (call c s) v (call-Answers c s v))

-- Whatever calls follow the admission of a plan, a lane counts as passed only if its last turn is a
-- validator's that ended with `pass`, over the lane's last candidate and all of its targets.
pub passed-IsJudged :
    (specs : List LaneSpec) (base : String) (clean isolated : Bool) (config : Config)
    (a : Admission) (s : State) (cs : List Call) (i : ℕ) (l : Lane)
    → admit specs base clean isolated config ≡ ok a
    → a.state ≡ some s
    → get_elem? (run cs s).lanes i ≡ some l
    → is_passed l.phase ≡ true
    → IsJudged l.candidate l.spec.targets l.turns
passed-IsJudged specs base clean isolated config a s cs i l h e at passed =
    let v = run-IsSound cs s (admitted-IsSound specs base clean isolated config a s h e) in
    let w = All-get (IsSoundLane (halted (run cs s))) (run cs s).lanes i l v.lanes_in at in
    w.judged passed
