-- ===== src/Lanes/Sound.antt =====
-- The invariant of the lane scheduler, src/unrest_harness/experimental_model.py.
pub mod Lanes
pub mod Attending
pub mod Completing
pub mod Answering
pub mod Finding
pub mod Reserving
pub mod Sweeping
pub mod Clock
pub mod Running
use unrest.Base.{
  ℕ, zero, suc, ◌+◌, ◌≤◌, ◌≡◌, refl, sym, subst, ap, ◌∙◌, arith, distinct, min, Bool, true, false,
  ◌&&◌, ◌||◌, List, [], ◌∷◌, String, Option, none, some, if◌then◌else◌, length, is_some, any, All,
  ltb, leb, eqb,
}
use unrest.Lanes.{
  Phase, Role, TurnStatus, TurnOutcome, Turn, Lease, Lane, State, Refusal, Result, ok, err, ◌>>◌,
  ◌>>=◌, raise_if, sum_by, flag, names_last, is_active, active_count, parked_count, parking_count,
  owner_count, turn_count, is_blocked, halted, lane_bounds, bounds, validated,
}
use unrest.Lanes.Places.{get_elem?, set, last, sum_by-set, All-set}
use unrest.Lanes.Steps.Ready.{priority}
use unrest.Lanes.Steps.{same_role, role_of, is_worker_phase, needs_parking, with_lane}

abbrev pub parked_as : Role → List Lease → ℕ
parked_as r [] = 0
parked_as r (x ∷ xs) = (if same_role x.role r then 1 else 0) + parked_as r xs

-- The turn that the lane has in flight, counted for its role.
abbrev pub busy_as : Role → Lane → ℕ
busy_as r l = if is_some l.active && same_role (role_of l.phase) r then 1 else 0

abbrev pub is_passed : Phase → Bool
is_passed Phase.passed = true
is_passed _ = false

-- The turn is for this phase, this candidate and these targets.
pub record IsFlight (p : Phase) (c : Option ℕ) (ts : List String) (t : Turn) : Type 0 where
  pub phase_is : t.phase ≡ p
  pub candidate_is : t.candidate ≡ c
  pub targets_are : t.targets ≡ ts

-- The last turn is a validator's, over this candidate and these targets, and it ended with `pass`.
pub record IsJudged (c : Option ℕ) (ts : List String) (turns : List Turn) : Type 0 where
  pub turn : Turn
  pub is_last : last turns ≡ some turn
  pub by_validator : is_worker_phase turn.phase ≡ false
  pub has_completed : turn.status ≡ TurnStatus.completed
  pub has_passed : turn.outcome ≡ some TurnOutcome.pass
  pub candidate_is : turn.candidate ≡ c
  pub targets_are : turn.targets ≡ ts

abbrev pub lane_ids : List Lane → List String
lane_ids [] = []
lane_ids (l ∷ ls) = l.spec.id ∷ lane_ids ls

-- `h` tells whether the campaign is halted, where parked sessions have been closed.
pub record IsSoundLane (h : Bool) (l : Lane) : Type 0 where
  pub turns_in : length l.turns ≤ 6
  pub generation_in : l.generation ≤ 1
  pub names : names_last l.active (length l.turns) ≡ true
  pub parked_in : length l.leases ≤ l.parking_reserved
  pub one_worker : parked_as Role.worker l.leases + busy_as Role.worker l ≤ 1
  pub one_validator : parked_as Role.validator l.leases + busy_as Role.validator l ≤ 1
  pub room : h ≡ false → is_some l.active ≡ true → needs_parking l ≡ true → l.parking_reserved ≡ 2
  pub no_room : needs_parking l ≡ false → l.parking_reserved ≡ 0
  pub busy_phase : is_some l.active ≡ true → is_some (priority l.phase) ≡ true
  pub flight :
      (t : Turn)
      → is_some l.active ≡ true
      → last l.turns ≡ some t
      → IsFlight l.phase l.candidate l.spec.targets t
  pub judged : is_passed l.phase ≡ true → IsJudged l.candidate l.spec.targets l.turns

pub record IsSound (s : State) : Type 0 where
  pub in_capacity : active_count s ≤ min s.config.capacity 4
  pub in_parking : parking_count s ≤ s.config.parking_capacity
  pub one_owner : owner_count s ≤ 1
  pub in_budget : turn_count s + s.config.final_turns ≤ s.config.turn_budget
  pub distinct_ids : distinct (lane_ids s.lanes) ≡ true
  pub lanes_in : All (IsSoundLane (halted s)) s.lanes

parked-le :
    (h : Bool) (ls : List Lane)
    → All (IsSoundLane h) ls
    → sum_by (λ l. length l.leases) ls ≤ sum_by (λ l. l.parking_reserved) ls
parked-le h [] a = omega arith
parked-le h (l ∷ ls) a = omega (arith, parked-le h ls a.1, a.0.parked_in)

lane_bounds-ok : (h : Bool) (ls : List Lane) → All (IsSoundLane h) ls → lane_bounds ls ≡ ok tt
unfolding lane_bounds
lane_bounds-ok h [] a = refl
lane_bounds-ok h (l ∷ ls) a =
    ground (arith, lane_bounds-ok h ls a.1, a.0.turns_in, a.0.generation_in, a.0.names)

-- A sound state passes the validation.
pub validated-ok : (s : State) → IsSound s → validated s ≡ ok s
unfolding validated bounds active_count parking_count parked_count owner_count turn_count
validated-ok s v = ground (
  arith,
  v.in_capacity,
  v.in_parking,
  v.one_owner,
  v.in_budget,
  parked-le (halted s) s.lanes v.lanes_in,
  lane_bounds-ok (halted s) s.lanes v.lanes_in,
)

any-set :
    (ls : List Lane) (i : ℕ) (old new : Lane)
    → get_elem? ls i ≡ some old
    → is_blocked new ≡ is_blocked old
    → any is_blocked (set ls i new) ≡ any is_blocked ls
any-set [] i old new e b = cc
any-set (x ∷ xs) zero old new e b =
    let same : x ≡ old = ground arith in
    let equal : is_blocked x ≡ is_blocked old = ap is_blocked same in ground arith
any-set (x ∷ xs) (suc i) old new e b = ground (arith, any-set xs i old new e b)

any-set_blocked :
    (ls : List Lane) (i : ℕ) (old new : Lane)
    → get_elem? ls i ≡ some old
    → is_blocked new ≡ true
    → any is_blocked (set ls i new) ≡ true
any-set_blocked [] i old new e b = cc
any-set_blocked (x ∷ xs) zero old new e b = ground arith
any-set_blocked (x ∷ xs) (suc i) old new e b = ground (arith, any-set_blocked xs i old new e b)

pub halted-with_lane :
    (s : State) (i : ℕ) (old new : Lane)
    → get_elem? s.lanes i ≡ some old
    → is_blocked new ≡ is_blocked old
    → halted (with_lane s i new) ≡ halted s
unfolding halted
halted-with_lane s i old new e b = ground (arith, any-set s.lanes i old new e b)

pub halted-blocked :
    (s : State) (i : ℕ) (old new : Lane)
    → get_elem? s.lanes i ≡ some old
    → is_blocked new ≡ true
    → halted (with_lane s i new) ≡ true
unfolding halted
halted-blocked s i old new e b = ground (arith, any-set_blocked s.lanes i old new e b)

-- In a halted campaign less is asked of a lane.
pub IsSoundLane-halted :
    (h k : Bool) (l : Lane) → (k ≡ false → h ≡ false) → IsSoundLane h l → IsSoundLane k l
IsSoundLane-halted h k l le v = record {
  turns_in = v.turns_in;
  generation_in = v.generation_in;
  names = v.names;
  parked_in = v.parked_in;
  one_worker = v.one_worker;
  one_validator = v.one_validator;
  room = λ going busy parks. v.room (le going) busy parks;
  no_room = v.no_room;
  busy_phase = v.busy_phase;
  flight = v.flight;
  judged = v.judged;
}

pub All-halted :
    (h k : Bool) (ls : List Lane)
    → (k ≡ false → h ≡ false)
    → All (IsSoundLane h) ls
    → All (IsSoundLane k) ls
All-halted h k [] le a = a
All-halted h k (l ∷ ls) le a = (IsSoundLane-halted h k l le a.0, All-halted h k ls le a.1)

pub lane_ids-set :
    (ls : List Lane) (i : ℕ) (old new : Lane)
    → get_elem? ls i ≡ some old
    → new.spec.id ≡ old.spec.id
    → lane_ids (set ls i new) ≡ lane_ids ls
lane_ids-set [] i old new e same = refl
lane_ids-set (x ∷ xs) zero old new e same =
    let found : x ≡ old = ground arith in
    let named : x.spec.id ≡ old.spec.id = ap (λ (l : Lane). l.spec.id) found in
    ap (λ (id : String). id ∷ lane_ids xs) (same ∙ sym named)
lane_ids-set (x ∷ xs) (suc i) old new e same =
    ap (λ (ids : List String). x.spec.id ∷ ids) (lane_ids-set xs i old new e same)

-- One lane is changed, and asks for no more than before.
pub with_lane-IsSound :
    (s : State) (i : ℕ) (old new : Lane) (h : Bool)
    → get_elem? s.lanes i ≡ some old
    → IsSound s
    → halted (with_lane s i new) ≡ h
    → (h ≡ false → halted s ≡ false)
    → is_active new ≤ is_active old
    → new.parking_reserved ≤ old.parking_reserved
    → new.reuse_owner ≡ old.reuse_owner
    → new.spec.id ≡ old.spec.id
    → length new.turns ≤ length old.turns
    → IsSoundLane h new
    → IsSound (with_lane s i new)
unfolding active_count parking_count owner_count turn_count
with_lane-IsSound s i old new h e v stays le active parking owner named turns sound = record {
  in_capacity = omega (arith, v.in_capacity, sum_by-set is_active s.lanes i old new e);
  in_parking =
      omega (arith, v.in_parking, sum_by-set (λ l. l.parking_reserved) s.lanes i old new e);
  one_owner =
      omega (
        arith,
        v.one_owner,
        sum_by-set (λ l. flag l.reuse_owner) s.lanes i old new e,
        ap flag owner,
      );
  in_budget = omega (arith, v.in_budget, sum_by-set (λ l. length l.turns) s.lanes i old new e);
  distinct_ids = rw (lane_ids-set s.lanes i old new e named) v.distinct_ids;
  lanes_in =
      rw stays (
        All-set (IsSoundLane h) s.lanes i new (All-halted (halted s) h s.lanes le v.lanes_in)
          sound);
}

-- A transition refuses a request of its caller by its name, or returns a sound state: the capacity
-- checks and the list indices never fail.
abbrev pub is_callers : Refusal → Bool
is_callers Refusal.unknown_lane = true
is_callers Refusal.inactive_turn = true
is_callers Refusal.transmission_order = true
is_callers Refusal.dispatch_halted = true
is_callers Refusal.unacknowledged_turn = true
is_callers Refusal.role_outcome = true
is_callers Refusal.clock_reversed = true
is_callers Refusal.recovery_forbidden = true
is_callers _ = false

pub record Returns (r : Result State) : Type 0 where
  pub state : State
  pub returns : r ≡ ok state
  pub sound : IsSound state

abbrev pub Answers : Result State → Type 0
Answers (ok s) = IsSound s
Answers (err e) = is_callers e ≡ true

pub Answers-Returns : (r : Result State) → Returns r → Answers r
Answers-Returns r a = subst Answers (sym a.returns) a.sound

pub Answers-raise_if :
    (b : Bool) (e : Refusal) (r : Result State)
    → is_callers e ≡ true
    → (b ≡ false → Answers r)
    → Answers (raise_if b e >> r)
Answers-raise_if true e r callers going = callers
Answers-raise_if false e r callers going = going refl

pub Answers-if :
    (b : Bool) (r q : Result State)
    → (b ≡ true → Answers r)
    → (b ≡ false → Answers q)
    → Answers (if b then r else q)
Answers-if true r q f g = f refl
Answers-if false r q f g = g refl
