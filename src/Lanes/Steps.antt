-- ===== src/Lanes/Steps.antt =====
-- src/unrest_harness/experimental_model.py: which lanes are ready, and the transitions of the lane
-- scheduler. A transition returns the new state, or the error that the source raises.
pub mod Ready
use unrest.Base.{
  ℕ, zero, suc, ◌+◌, ◌-◌, min, ◌≡◌, Bool, true, false, not, ◌&&◌, ◌||◌, List, [], ◌∷◌, ◌++◌, String,
  Option, none, some, if◌then◌else◌, length, is_empty, is_none, is_some, any, select, map, ltb, leb,
  eqb, ◌==◌,
}
use unrest.Lanes.{
  Phase, Reason, Role, TurnStatus, TurnOutcome, Turn, Lease, Lane, Halt, Session, State, Refusal,
  Result, ok, err, ◌>>=◌, ◌>>◌, raise_if, active_count, turn_count, parking_count, halted,
  validated,
}
use unrest.Lanes.Places.{get_elem?, set, set_last, last}
use unrest.Lanes.Steps.Ready.{ready}

-- `lanes[index]`
abbrev pub lane_at : State → ℕ → Result Lane
lane_at s i = elim (get_elem? s.lanes i) [ none ↦ err Refusal.index_error | some l ↦ ok l ]

abbrev pub turn_at : Lane → ℕ → Result Turn
turn_at l i = elim (get_elem? l.turns i) [ none ↦ err Refusal.index_error | some t ↦ ok t ]

abbrev pub with_lane : State → ℕ → Lane → State
with_lane s i l = record s { lanes = set s.lanes i l }

-- `_replace`
unfoldable pub replace : State → ℕ → Lane → Result State
replace s i l = validated (with_lane s i l)

-- `_index`
unfoldable pub index_from : ℕ → List Lane → String → Result ℕ
index_from i [] id = err Refusal.unknown_lane
index_from i (l ∷ ls) id =
    let rest = index_from (suc i) ls id in if l.spec.id == id then ok i else rest

unfoldable pub index_of : State → String → Result ℕ
unfolding index_from
index_of s id = index_from 0 s.lanes id

abbrev pub unparked : Lane → Lane
unparked l = record l { leases = []; parking_reserved = 0 }

abbrev pub closed : State → State
closed s = record s { lanes = map unparked s.lanes }

-- `_close_parked`
unfoldable pub close_parked : State → Result State
close_parked s = validated (closed s)

-- `turns[:-1] + (_copy(turns[-1], status=...),)` where the lane is active.
unfoldable pub ended_turns : Lane → Bool → Result (List Turn)
ended_turns l uncertain = elim l.active [
  | none ↦ ok l.turns
  | some a ↦ elim (last l.turns) [
    | none ↦ err Refusal.index_error
    | some t ↦ ok (
        set_last l.turns
          (record t { status = if uncertain then TurnStatus.uncertain else TurnStatus.cancelled }))
  ]
]

abbrev pub blocked_lane : Lane → List Turn → Reason → Lane
blocked_lane l turns reason = record l {
  phase = Phase.attention;
  active = none;
  turns = turns;
  leases = [];
  parking_reserved = 0;
  blocking = some reason;
  history = l.history ++ reason ∷ [];
}

-- `_attention`
unfoldable pub attend : State → ℕ → Reason → Bool → Result State
unfolding ended_turns replace close_parked
attend s i reason uncertain = do
  l ← lane_at s i
  turns ← ended_turns l uncertain
  s' ← replace s i (blocked_lane l turns reason)
  close_parked s'

abbrev pub is_worker_phase : Phase → Bool
is_worker_phase Phase.work = true
is_worker_phase Phase.correction = true
is_worker_phase _ = false

abbrev pub is_correction : Phase → Bool
is_correction Phase.correction = true
is_correction _ = false

abbrev pub is_recheck : Phase → Bool
is_recheck Phase.recheck = true
is_recheck _ = false

abbrev pub role_of : Phase → Role
role_of p = if is_worker_phase p then Role.worker else Role.validator

abbrev pub same_role : Role → Role → Bool
same_role Role.worker Role.worker = true
same_role Role.validator Role.validator = true
same_role _ _ = false

-- `next((lease for lease in lane.leases if lease.role == role), None)`
unfoldable pub lease_of : Role → List Lease → Option Lease
lease_of r [] = none
lease_of r (x ∷ xs) = if same_role x.role r then some x else lease_of r xs

-- `needs_parking`: sessions of this lane are parked for reuse.
abbrev pub needs_parking : Lane → Bool
needs_parking l = l.reuse_owner && eqb l.generation 0

abbrev pub parking_need : Lane → ℕ
parking_need l = if needs_parking l then 2 else 0

-- The test before `continue`: no room to park the sessions of the lane.
unfoldable pub crowded : State → Lane → Bool
unfolding parking_count
crowded s l =
    ltb l.parking_reserved (parking_need l)
    && ltb s.config.parking_capacity (parking_count s + parking_need l)

unfoldable pub next_turn : State → Lane → Turn
unfolding lease_of
next_turn s l =
    let role = role_of l.phase in
    let ordinal = length l.turns in
    let old = lease_of role l.leases in
    let identity : Session = record {
      id = l.spec.id;
      role = role;
      generation = l.generation;
      ordinal = if needs_parking l then none else some ordinal;
    } in
    record {
      ordinal = ordinal;
      phase = l.phase;
      generation = l.generation;
      session = elim old [ none ↦ identity | some x ↦ x.session ];
      process_generation = elim old [ none ↦ identity | some x ↦ x.process_generation ];
      candidate = l.candidate;
      targets = l.spec.targets;
      reserved_at = s.now;
      deadline = s.now + s.config.turn_timeout;
      status = TurnStatus.reserved;
      outcome = none;
    }

unfoldable pub reserved_lane : State → Lane → Lane
unfolding next_turn
reserved_lane s l = record l {
  admitted = true;
  active = some (length l.turns);
  turns = l.turns ++ next_turn s l ∷ [];
  parking_reserved = parking_need l;
  leases = select (λ x. not (same_role x.role (role_of l.phase))) l.leases;
  correction_reserved = l.correction_reserved || is_correction l.phase;
}

-- The body of the loop of `reserve_next`, past its `continue`.
unfoldable pub reserve_lane : State → ℕ → Lane → Result State
unfolding attend lease_of reserved_lane replace
reserve_lane s i l =
    if leb 6 (length l.turns) || (is_correction l.phase && l.correction_reserved)
    then attend s i Reason.extra_generation false
    else if needs_parking l
        && ((is_correction l.phase || is_recheck l.phase)
            && is_none (lease_of (role_of l.phase) l.leases))
    then attend s i Reason.expired false
    else replace s i (reserved_lane s l)

unfoldable pub reserve_first : State → List String → Result State
unfolding index_of crowded reserve_lane
reserve_first s [] = ok s
reserve_first s (id ∷ ids) =
    let rest = reserve_first s ids in
    do i ← index_of s id; l ← lane_at s i; if crowded s l then rest else reserve_lane s i l

unfoldable pub reserve_next : State → Result State
unfolding halted active_count ready turn_count validated close_parked reserve_first
reserve_next s =
    if halted s || leb (min s.config.capacity 4) (active_count s)
    then ok s
    else if is_empty (ready s)
    then ok s
    else if leb (s.config.turn_budget - s.config.final_turns) (turn_count s)
    then (do s' ← validated (record s { halt = some Halt.budget }); close_parked s')
    else reserve_first s (ready s)
