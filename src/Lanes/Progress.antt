-- ===== src/Lanes/Progress.antt =====
-- src/unrest_harness/experimental_model.py: what becomes of a reserved turn, the clock, and the
-- stop, the restart and the recovery of a campaign.
use unrest.Base.{
  ℕ, zero, suc, ◌+◌, Bool, true, false, not, ◌&&◌, ◌||◌, [], ◌∷◌, ◌++◌, String, Option, none, some,
  if◌then◌else◌, length, is_some, any, ltb, leb, eqb,
}
use unrest.Lanes.{
  Phase, Reason, TurnStatus, TurnOutcome, Turn, Lease, Lane, Halt, State, Refusal, Result, ok, err,
  ◌>>=◌, ◌>>◌, raise_if, active_count, turn_count, halted, validated,
}
use unrest.Lanes.Places.{get_elem?, set_last}
use unrest.Lanes.Steps.{
  lane_at, turn_at, replace, index_of, close_parked, attend, is_worker_phase, is_correction,
  role_of, needs_parking,
}

pub data Transmission : Type 0 where
  sent : Transmission
  acked : Transmission
  uncertain : Transmission

abbrev pub is_ordinal : Option ℕ → ℕ → Bool
is_ordinal none n = false
is_ordinal (some a) n = eqb a n

abbrev pub with_turn : Lane → Turn → Lane
with_turn l t = record l { turns = set_last l.turns t }

-- `(turn.status, status)`: a turn is sent once it is reserved, and acknowledged once it is sent.
abbrev pub transmit : TurnStatus → Transmission → Option TurnStatus
transmit TurnStatus.reserved Transmission.sent = some TurnStatus.sent
transmit TurnStatus.sent Transmission.acked = some TurnStatus.acked
transmit _ _ = none

abbrev pub is_uncertain : Transmission → Bool
is_uncertain Transmission.uncertain = true
is_uncertain _ = false

abbrev pub is_sent : Transmission → Bool
is_sent Transmission.sent = true
is_sent _ = false

-- `transmission`, from the status tests on.
unfoldable pub transmit_turn : State → ℕ → Lane → Turn → Transmission → Result State
unfolding halted replace
transmit_turn s i l t status = elim (transmit t.status status) [
  | none ↦ err Refusal.transmission_order
  | some next ↦
      if is_sent status && halted s
      then err Refusal.dispatch_halted
      else replace s i (with_turn l (record t { status = next }))
]

unfoldable pub transmission_at : State → ℕ → Lane → ℕ → Transmission → Result State
unfolding attend transmit_turn
transmission_at s i l ordinal status = do
  raise_if (not (is_ordinal l.active ordinal)) Refusal.inactive_turn
  t ← turn_at l ordinal
  if is_uncertain status
      then attend s i Reason.ambiguous_send true
      else transmit_turn s i l t status

unfoldable pub transmission : State → String → ℕ → Transmission → Result State
unfolding index_of transmission_at
transmission s id ordinal status = do
  i ← index_of s id
  l ← lane_at s i
  transmission_at s i l ordinal status

abbrev pub is_acked : TurnStatus → Bool
is_acked TurnStatus.acked = true
is_acked _ = false

abbrev pub is_other : TurnOutcome → Bool
is_other TurnOutcome.other = true
is_other _ = false

abbrev pub is_sealed : TurnOutcome → Bool
is_sealed TurnOutcome.sealed = true
is_sealed _ = false

abbrev pub is_pass : TurnOutcome → Bool
is_pass TurnOutcome.pass = true
is_pass _ = false

-- An outcome that the role of the turn cannot report.
abbrev pub is_foreign : Phase → TurnOutcome → Bool
is_foreign p o =
    (is_worker_phase p && not (is_sealed o || is_other o))
    || (not (is_worker_phase p) && is_sealed o)

-- The lane once its turn is over, its session parked for reuse.
unfoldable pub completed_lane : State → Lane → Turn → TurnOutcome → Lane
unfolding halted
completed_lane s l t o = record l {
  active = none;
  turns = set_last l.turns (record t { status = TurnStatus.completed; outcome = some o });
  leases =
      if needs_parking l && not (halted s)
      then l.leases
        ++ record {
          role = role_of t.phase;
          session = t.session;
          process_generation = t.process_generation;
          parked_at = s.now;
        }
          ∷ []
      else l.leases;
}

-- `0 if lane.candidate is None else lane.candidate + 1`
abbrev pub next_candidate : Option ℕ → ℕ
next_candidate none = 0
next_candidate (some c) = suc c

abbrev pub sealed_lane : Lane → Turn → Lane
sealed_lane l t = record l {
  candidate = some (next_candidate l.candidate);
  phase = if is_correction t.phase then Phase.recheck else Phase.validate;
}

abbrev pub passed_lane : Lane → Lane
passed_lane l = record l { phase = Phase.passed; leases = []; parking_reserved = 0 }

abbrev pub failed_lane : Lane → Lane
failed_lane l = record l { history = l.history ++ Reason.product_failure ∷ [] }

abbrev pub corrected_lane : Lane → Lane
corrected_lane l = record l { phase = Phase.correction }

-- The second and last generation of a lane.
abbrev pub renewed_lane : Lane → Lane
renewed_lane l = record l { phase = Phase.work; generation = 1; leases = []; parking_reserved = 0 }

-- The end of `complete`, on a defect that the lane may still correct.
unfoldable pub retry : State → ℕ → Lane → Result State
unfolding replace
retry s i l = do
  s' ← replace s i (failed_lane l)
  if not l.correction_reserved
      then replace s' i (corrected_lane (failed_lane l))
      else replace s' i (renewed_lane (failed_lane l))

-- `complete`, from the recorded completion on.
unfoldable pub settle : State → ℕ → Lane → Turn → TurnOutcome → Result State
unfolding attend replace retry
settle s i l t o =
    if is_other o
    then attend s i Reason.noncorrectable false
    else if is_worker_phase t.phase
    then replace s i (sealed_lane l t)
    else if is_pass o
    then replace s i (passed_lane l)
    else if eqb l.generation 1
    then attend s i Reason.product_failure false
    else retry s i l

unfoldable pub complete_turn : State → ℕ → Lane → Turn → TurnOutcome → Result State
unfolding completed_lane replace settle
complete_turn s i l t o = do
  raise_if (is_foreign t.phase o) Refusal.role_outcome
  s' ← replace s i (completed_lane s l t o)
  settle s' i (completed_lane s l t o) t o

unfoldable pub complete_at : State → ℕ → Lane → ℕ → TurnOutcome → Result State
unfolding complete_turn
complete_at s i l ordinal o = do
  raise_if (not (is_ordinal l.active ordinal)) Refusal.unacknowledged_turn
  t ← turn_at l ordinal
  raise_if (not (is_acked t.status)) Refusal.unacknowledged_turn
  complete_turn s i l t o

unfoldable pub complete : State → String → ℕ → TurnOutcome → Result State
unfolding index_of complete_at
complete s id ordinal o = do i ← index_of s id; l ← lane_at s i; complete_at s i l ordinal o

-- `lane.active is not None and lane.turns[lane.active].deadline <= now`
abbrev pub is_overdue : ℕ → Lane → Result Bool
is_overdue now l = elim l.active [
  | none ↦ ok false
  | some a ↦ elim (get_elem? l.turns a) [
    | none ↦ err Refusal.index_error
    | some t ↦ ok (leb t.deadline now)
  ]
]

abbrev pub is_expired : ℕ → Lease → Bool
is_expired now x = leb (x.parked_at + 3600) now

-- The body of the loop of `advance`.
unfoldable pub expire : ℕ → State → ℕ → Result State
unfolding attend
expire now s i = do
  l ← lane_at s i
  overdue ← is_overdue now l
  if overdue
      then attend s i Reason.deadline false
      else if any (is_expired now) l.leases
      then attend s i Reason.expired false
      else ok s

-- `for index in range(len(state.lanes))`, from an index on.
abbrev pub each : (State → ℕ → Result State) → ℕ → ℕ → State → Result State
each f zero i s = ok s
each f (suc n) i s = f s i >>= each f n (suc i)

unfoldable pub advance : State → ℕ → Result State
unfolding validated expire
advance s now = do
  raise_if (ltb now s.now) Refusal.clock_reversed
  s' ← validated (record s { now = now })
  each (expire now) (length s'.lanes) 0 s'

unfoldable pub stop : State → Result State
unfolding validated close_parked
stop s = do s' ← validated (record s { halt = some Halt.stopped }); close_parked s'

abbrev pub is_final : Phase → Bool
is_final Phase.passed = true
is_final Phase.attention = true
is_final _ = false

-- The body of the loop of `restart`.
unfoldable pub interrupt : State → ℕ → Result State
unfolding attend
interrupt s i = do
  l ← lane_at s i
  if is_some l.active
      then attend s i Reason.ambiguous_send true
      else if l.admitted && not (is_final l.phase)
      then attend s i Reason.restart false
      else ok s

unfoldable pub restart : State → Result State
unfolding interrupt
restart s = each interrupt (length s.lanes) 0 s

abbrev pub is_recoverable : Option Reason → Bool
is_recoverable (some Reason.expired) = true
is_recoverable (some Reason.restart) = true
is_recoverable _ = false

abbrev pub recovered_lane : Lane → Lane
recovered_lane l = record l {
  phase = Phase.work;
  generation = 1;
  blocking = none;
  leases = [];
  parking_reserved = 0;
}

unfoldable pub recover_at : State → ℕ → Lane → Result State
unfolding active_count turn_count validated close_parked replace
recover_at s i l = do
  raise_if
      (is_some s.halt
        || (not (eqb (active_count s) 0)
            || (not (is_recoverable l.blocking) || not (eqb l.generation 0))))
      Refusal.recovery_forbidden
  if ltb s.config.turn_budget (turn_count s + 2 + s.config.final_turns)
      then (do s' ← validated (record s { halt = some Halt.budget }); close_parked s')
      else replace s i (recovered_lane l)

unfoldable pub recover_fresh : State → String → Result State
unfolding index_of recover_at
recover_fresh s id = do i ← index_of s id; l ← lane_at s i; recover_at s i l
