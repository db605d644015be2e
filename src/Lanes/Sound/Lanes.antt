-- ===== src/Lanes/Sound/Lanes.antt =====
-- The changes of one lane that the transitions of experimental_model.py make, and the invariant.
use unrest.Base.{
  ℕ, suc, ◌+◌, ◌≤◌, ◌≡◌, refl, arith, Bool, true, not, ◌&&◌, List, [], ◌∷◌, ◌++◌, none, some,
  if◌then◌else◌, length, is_some, select, Option-cases, length-append, Bool-cases, inl, inr, ap,
  subst, length-select-le,
}
use unrest.Lanes.{
  Phase, Reason, Role, TurnStatus, TurnOutcome, Turn, Lease, Lane, State, ok, halted,
}
use unrest.Lanes.Places.{last, set_last, last-some, length-set_last, last-set_last}
use unrest.Lanes.Steps.{
  same_role, role_of, needs_parking, parking_need, unparked, blocked_lane, ended_turns,
  reserved_lane, next_turn,
}
use unrest.Lanes.Progress.{
  with_turn, completed_lane, sealed_lane, passed_lane, failed_lane, corrected_lane, renewed_lane,
  recovered_lane,
}
use unrest.Lanes.Sound.{parked_as, busy_as, IsFlight, IsJudged, is_passed, IsSoundLane}
use unrest.Lanes.Steps.Ready.{priority}

pub unparked-IsSoundLane : (h : Bool) (l : Lane) → IsSoundLane h l → IsSoundLane true (unparked l)
unparked-IsSoundLane h l v = record {
  turns_in = v.turns_in;
  generation_in = v.generation_in;
  names = v.names;
  parked_in = omega arith;
  one_worker = ground (arith, v.one_worker);
  one_validator = ground (arith, v.one_validator);
  room = λ going. cc;
  no_room = λ parks. refl;
  busy_phase = v.busy_phase;
  flight = v.flight;
  judged = v.judged;
}

pub blocked-IsSoundLane :
    (h : Bool) (l : Lane) (turns : List Turn) (reason : Reason)
    → IsSoundLane h l
    → length turns ≡ length l.turns
    → IsSoundLane true (blocked_lane l turns reason)
blocked-IsSoundLane h l turns reason v e = ground (arith, v.turns_in)

-- No turn is in flight in a lane that has passed.
not_passed : {A : Type 0} (p : Phase) → is_passed p ≡ true → is_some (priority p) ≡ true → A
not_passed Phase.passed done busy = cc
not_passed _ done busy = cc

last_unique : (ts : List Turn) (t u : Turn) → last (set_last ts t) ≡ some u → t ≡ u
last_unique ts t u e = ground (arith, last-set_last ts t)

abbrev pub ended : Turn → Bool → Turn
ended t u = record t { status = if u then TurnStatus.uncertain else TurnStatus.cancelled }

ended_turns-active :
    (l : Lane) (u : Bool) (a : ℕ) (t : Turn)
    → l.active ≡ some a
    → last l.turns ≡ some t
    → ended_turns l u ≡ ok (set_last l.turns (ended t u))
unfolding ended_turns
ended_turns-active l u a t busy is_last = ground arith

ended_turns-idle : (l : Lane) (u : Bool) → l.active ≡ none → ended_turns l u ≡ ok l.turns
unfolding ended_turns
ended_turns-idle l u idle = ground arith

pub some_turn :
    (h : Bool) (l : Lane) (a : ℕ) → IsSoundLane h l → l.active ≡ some a → 1 ≤ length l.turns
some_turn h l a v busy = ground (arith, v.names)

pub ended_turns-ok :
    (h : Bool) (l : Lane) (u : Bool)
    → IsSoundLane h l
    → (ts : List Turn) × (ended_turns l u ≡ ok ts) × (length ts ≡ length l.turns)
ended_turns-ok h l u v = elim (Option-cases l.active) [
  | inl idle ↦ (l.turns, ended_turns-idle l u idle, refl)
  | inr (a, busy) ↦
      let (t, is_last) = last-some l.turns (some_turn h l a v busy) in
      (
        set_last l.turns (ended t u),
        ended_turns-active l u a t busy is_last,
        length-set_last l.turns (ended t u) (some_turn h l a v busy),
      )
]

-- The last turn is replaced by one for the same phase, candidate and targets.
pub with_turn-IsSoundLane :
    (h : Bool) (l : Lane) (t : Turn) (a : ℕ)
    → IsSoundLane h l
    → l.active ≡ some a
    → IsFlight l.phase l.candidate l.spec.targets t
    → IsSoundLane h (with_turn l t)
with_turn-IsSoundLane h l t a v busy f =
    let same : length (set_last l.turns t) ≡ length l.turns =
      length-set_last l.turns t (some_turn h l a v busy) in
    record {
      turns_in = rw same v.turns_in;
      generation_in = v.generation_in;
      names = rw same v.names;
      parked_in = v.parked_in;
      one_worker = v.one_worker;
      one_validator = v.one_validator;
      room = v.room;
      no_room = v.no_room;
      busy_phase = v.busy_phase;
      flight = λ u going e.
          subst (IsFlight l.phase l.candidate l.spec.targets) (last_unique l.turns t u e) f;
      judged = λ done. not_passed l.phase done (v.busy_phase (ground arith));
    }

parked_as-append :
    (r : Role) (xs ys : List Lease) → parked_as r (xs ++ ys) ≡ parked_as r xs + parked_as r ys
parked_as-append r [] ys = omega arith
parked_as-append r (x ∷ xs) ys = omega (arith, parked_as-append r xs ys)

parked_total :
    (xs : List Lease) → length xs ≡ parked_as Role.worker xs + parked_as Role.validator xs
parked_total [] = omega arith
parked_total (x ∷ xs) = worker_or_validator x.role (parked_total xs)
  where
    worker_or_validator :
        (r : Role)
        → length xs ≡ parked_as Role.worker xs + parked_as Role.validator xs
        → suc (length xs)
          ≡ ((if same_role r Role.worker then 1 else 0) + parked_as Role.worker xs)
            + ((if same_role r Role.validator then 1 else 0) + parked_as Role.validator xs)
    worker_or_validator Role.worker h = omega arith
    worker_or_validator Role.validator h = omega arith

parked_as-released :
    (r : Role) (xs : List Lease) → parked_as r (select (λ x. not (same_role x.role r)) xs) ≡ 0
parked_as-released r [] = refl
parked_as-released r (x ∷ xs) = ground (arith, parked_as-released r xs)

parked_as-select-le :
    (r : Role) (p : Lease → Bool) (xs : List Lease) → parked_as r (select p xs) ≤ parked_as r xs
parked_as-select-le r p [] = omega arith
parked_as-select-le r p (x ∷ xs) = ground (arith, parked_as-select-le r p xs)

module _ (h : Bool) (l : Lane) (v : IsSoundLane h l) where
  pub sealed-IsSoundLane : (t : Turn) → l.active ≡ none → IsSoundLane h (sealed_lane l t)
  sealed-IsSoundLane t idle =
      ground
        (arith, v.turns_in, v.generation_in, v.names, v.parked_in, v.one_worker, v.one_validator)

  pub passed-IsSoundLane :
      l.active ≡ none → IsJudged l.candidate l.spec.targets l.turns → IsSoundLane h (passed_lane l)
  passed-IsSoundLane idle j = record {
    turns_in = v.turns_in;
    generation_in = v.generation_in;
    names = v.names;
    parked_in = omega arith;
    one_worker = ground arith;
    one_validator = ground arith;
    room = ground arith;
    no_room = ground arith;
    busy_phase = ground arith;
    flight = λ t busy. cc;
    judged = λ done. j;
  }

  pub failed-IsSoundLane : IsSoundLane h (failed_lane l)
  failed-IsSoundLane = record {
    turns_in = v.turns_in;
    generation_in = v.generation_in;
    names = v.names;
    parked_in = v.parked_in;
    one_worker = v.one_worker;
    one_validator = v.one_validator;
    room = v.room;
    no_room = v.no_room;
    busy_phase = v.busy_phase;
    flight = v.flight;
    judged = v.judged;
  }

  pub corrected-IsSoundLane : l.active ≡ none → IsSoundLane h (corrected_lane l)
  corrected-IsSoundLane idle =
      ground
        (arith, v.turns_in, v.generation_in, v.names, v.parked_in, v.one_worker, v.one_validator)

  pub renewed-IsSoundLane : l.active ≡ none → IsSoundLane h (renewed_lane l)
  renewed-IsSoundLane idle = ground (arith, v.turns_in)

  pub recovered-IsSoundLane : (k : Bool) → l.active ≡ none → IsSoundLane k (recovered_lane l)
  recovered-IsSoundLane k idle = ground (arith, v.turns_in)

abbrev role_weight : Role → Role → ℕ
role_weight r at = if same_role at r then 1 else 0

released_roles :
    (at r : Role) (xs : List Lease)
    → parked_as r xs ≤ 1
    → parked_as r (select (λ x. not (same_role x.role at)) xs) + role_weight r at ≤ 1
released_roles Role.worker Role.worker xs h = omega (arith, parked_as-released Role.worker xs)
released_roles Role.worker Role.validator xs h =
    omega (arith, parked_as-select-le Role.validator (λ x. not (same_role x.role Role.worker)) xs)
released_roles Role.validator Role.worker xs h =
    omega (arith, parked_as-select-le Role.worker (λ x. not (same_role x.role Role.validator)) xs)
released_roles Role.validator Role.validator xs h =
    omega (arith, parked_as-released Role.validator xs)

role_total : (at : Role) → role_weight Role.worker at + role_weight Role.validator at ≡ 1
role_total Role.worker = refl
role_total Role.validator = refl

module _ (b : Bool) (xs : List Lease) (x : Lease) where
  parked_as-parked :
      (r at : Role)
      → x.role ≡ at
      → parked_as r (if b then xs ++ x ∷ [] else xs) ≤ parked_as r xs + role_weight r at
  parked_as-parked r at e = elim (Bool-cases b) [
    | inl parks ↦ rw parks (omega (arith, parked_as-append r xs (x ∷ []), ap (role_weight r) e))
    | inr leaves ↦ rw leaves (omega arith)
  ]

  length-parked :
      (k : ℕ)
      → (b ≡ true → suc (length xs) ≤ k)
      → length xs ≤ k
      → length (if b then xs ++ x ∷ [] else xs) ≤ k
  length-parked k room fits = elim (Bool-cases b) [
    | inl parks ↦ rw parks (omega (arith, length-append xs (x ∷ []), room parks))
    | inr leaves ↦ rw leaves fits
  ]

busy_total :
    (l : Lane) → is_some l.active ≡ true → busy_as Role.worker l + busy_as Role.validator l ≡ 1
busy_total l going = ground arith

busy_one :
    (l : Lane) (r : Role) → is_some l.active ≡ true → busy_as r l ≡ role_weight r (role_of l.phase)
busy_one l r going = ground arith

-- A turn is over. Where its session is parked, the lane has room for it.
pub completed-IsSoundLane :
    (s : State) (l : Lane) (t : Turn) (o : TurnOutcome) (a : ℕ)
    → IsSoundLane (halted s) l
    → l.active ≡ some a
    → last l.turns ≡ some t
    → IsSoundLane (halted s) (completed_lane s l t o)
unfolding completed_lane
completed-IsSoundLane s l t o a v busy is_last =
    let done : Turn = record t { status = TurnStatus.completed; outcome = some o } in
    let same : length (set_last l.turns done) ≡ length l.turns =
      length-set_last l.turns done (some_turn (halted s) l a v busy) in
    let lease : Lease = record {
      role = role_of t.phase;
      session = t.session;
      process_generation = t.process_generation;
      parked_at = s.now;
    } in
    let at_phase : t.phase ≡ l.phase = (v.flight t (ground arith) is_last).phase_is in
    let going : is_some l.active ≡ true = ground arith in
    let at_role : role_of t.phase ≡ role_of l.phase = ap role_of at_phase in
    record {
      turns_in = rw same v.turns_in;
      generation_in = v.generation_in;
      names = refl;
      parked_in =
          length-parked (needs_parking l && not (halted s)) l.leases lease l.parking_reserved
            (λ parks. omega (
              arith,
              parked_total l.leases,
              busy_total l going,
              v.one_worker,
              v.one_validator,
              v.room (ground arith) going (ground arith),
            ))
            v.parked_in;
      one_worker = omega (
        arith,
        parked_as-parked (needs_parking l && not (halted s)) l.leases lease Role.worker
            (role_of l.phase) at_role,
        busy_one l Role.worker going,
        v.one_worker,
      );
      one_validator = omega (
        arith,
        parked_as-parked (needs_parking l && not (halted s)) l.leases lease Role.validator
            (role_of l.phase) at_role,
        busy_one l Role.validator going,
        v.one_validator,
      );
      room = ground arith;
      no_room = ground arith;
      busy_phase = ground arith;
      flight = λ u going. cc;
      judged = λ passed. not_passed l.phase passed (v.busy_phase (ground arith));
    }

last-append : (ts : List Turn) (t : Turn) → last (ts ++ t ∷ []) ≡ some t
last-append [] t = refl
last-append (x ∷ []) t = refl
last-append (x ∷ (y ∷ ys)) t = last-append (y ∷ ys) t

last_appended : (ts : List Turn) (t u : Turn) → last (ts ++ t ∷ []) ≡ some u → t ≡ u
last_appended ts t u e = ground (arith, last-append ts t)

released_in :
    {h : Bool} (l : Lane)
    → IsSoundLane h l
    → length (select (λ x. not (same_role x.role (role_of l.phase))) l.leases) ≤ parking_need l
released_in l v =
    let left = select (λ x. not (same_role x.role (role_of l.phase))) l.leases in
    elim (Bool-cases (needs_parking l)) [
      | inl parks ↦ rw parks (
          omega (
            arith,
            parked_total left,
            role_total (role_of l.phase),
            released_roles (role_of l.phase) Role.worker l.leases (omega (arith, v.one_worker)),
            released_roles (role_of l.phase) Role.validator l.leases
                (omega (arith, v.one_validator)),
          ))
      | inr none_parked ↦ rw none_parked (
          omega (
            arith,
            length-select-le (λ (x : Lease). not (same_role x.role (role_of l.phase))) l.leases,
            v.parked_in,
            v.no_room none_parked,
          ))
    ]

pub reserved-IsSoundLane :
    (s : State) (l : Lane)
    → IsSoundLane (halted s) l
    → l.active ≡ none
    → is_some (priority l.phase) ≡ true
    → length l.turns ≤ 5
    → IsSoundLane (halted s) (reserved_lane s l)
unfolding reserved_lane next_turn
reserved-IsSoundLane s l v idle eligible few = record {
  turns_in = omega (arith, length-append l.turns (next_turn s l ∷ []));
  generation_in = v.generation_in;
  names = ground (arith, length-append l.turns (next_turn s l ∷ []));
  parked_in = released_in l v;
  one_worker = released_roles (role_of l.phase) Role.worker l.leases (omega (arith, v.one_worker));
  one_validator =
      released_roles (role_of l.phase) Role.validator l.leases (omega (arith, v.one_validator));
  room = ground arith;
  no_room = ground arith;
  busy_phase = λ going. eligible;
  flight = λ t going e.
      subst (IsFlight l.phase l.candidate l.spec.targets)
        (last_appended l.turns (next_turn s l) t e)
        (record { phase_is = refl; candidate_is = refl; targets_are = refl });
  judged = λ passed. not_passed l.phase passed eligible;
}
