-- ===== src/Lanes.antt =====
-- src/unrest_harness/experimental_model.py: the records of the lane scheduler and the bounds that
-- every state of it meets.
pub mod Admission
pub mod Steps
pub mod Places
pub mod Progress
pub mod Lifecycle
pub mod Sound
use unrest.Base.{
  ℕ, suc, ◌+◌, min, Bool, true, false, not, ◌&&◌, ◌||◌, List, [], ◌∷◌, String, Option, none, some,
  if◌then◌else◌, length, is_none, is_some, any, ltb, leb, eqb,
}

pub data Phase : Type 0 where
  work : Phase
  validate : Phase
  correction : Phase
  recheck : Phase
  passed : Phase
  attention : Phase

pub data Reason : Type 0 where
  disabled : Reason
  dirty_base : Reason
  invalid_base : Reason
  missing_scope : Reason
  invalid_scope : Reason
  overlap : Reason
  shared_resource : Reason
  unsupported_dispatch : Reason
  integration_disabled : Reason
  invalid_lanes : Reason
  budget : Reason
  product_failure : Reason
  noncorrectable : Reason
  ambiguous_send : Reason
  restart : Reason
  expired : Reason
  stopped : Reason
  deadline : Reason
  extra_generation : Reason
  parking_capacity : Reason

pub record LaneSpec : Type 0 where
  pub id : String
  pub writes : List String
  pub targets : List String
  pub resources : List String
  pub auto_merge : Bool

pub record Config : Type 0 where
  pub enabled : Bool
  pub capacity : ℕ
  pub parking_capacity : ℕ
  pub turn_budget : ℕ
  pub final_turns : ℕ
  pub reuse : Bool
  pub streaming : Bool
  pub turn_timeout : ℕ

pub data Role : Type 0 where
  worker : Role
  validator : Role

-- The text `id:role:generation`, followed by `:ordinal` where no session is kept for reuse.
pub record Session : Type 0 where
  pub id : String
  pub role : Role
  pub generation : ℕ
  pub ordinal : Option ℕ

pub data TurnStatus : Type 0 where
  reserved : TurnStatus
  sent : TurnStatus
  acked : TurnStatus
  completed : TurnStatus
  uncertain : TurnStatus
  cancelled : TurnStatus

pub data TurnOutcome : Type 0 where
  sealed : TurnOutcome
  pass : TurnOutcome
  defect : TurnOutcome
  other : TurnOutcome

pub record Turn : Type 0 where
  pub ordinal : ℕ
  pub phase : Phase
  pub generation : ℕ
  pub session : Session
  pub process_generation : Session
  pub candidate : Option ℕ
  pub targets : List String
  pub reserved_at : ℕ
  pub deadline : ℕ
  pub status : TurnStatus
  pub outcome : Option TurnOutcome

pub record Lease : Type 0 where
  pub role : Role
  pub session : Session
  pub process_generation : Session
  pub parked_at : ℕ

pub record Lane : Type 0 where
  pub spec : LaneSpec
  pub phase : Phase
  pub admitted : Bool
  pub generation : ℕ
  pub candidate : Option ℕ
  pub correction_reserved : Bool
  pub reuse_owner : Bool
  pub parking_reserved : ℕ
  pub leases : List Lease
  pub turns : List Turn
  pub active : Option ℕ
  pub blocking : Option Reason
  pub history : List Reason

pub data Halt : Type 0 where
  budget : Halt
  stopped : Halt

pub record State : Type 0 where
  pub config : Config
  pub base : String
  pub lanes : List Lane
  pub now : ℕ
  pub halt : Option Halt

-- The messages of the `ValueError`s, and Python's own `IndexError`.
pub data Refusal : Type 0 where
  active_capacity : Refusal
  parking_capacity : Refusal
  parked_capacity : Refusal
  reuse_capacity : Refusal
  turn_budget : Refusal
  lane_bound : Refusal
  active_identity : Refusal
  unknown_lane : Refusal
  inactive_turn : Refusal
  transmission_order : Refusal
  dispatch_halted : Refusal
  unacknowledged_turn : Refusal
  role_outcome : Refusal
  clock_reversed : Refusal
  recovery_forbidden : Refusal
  index_error : Refusal

pub data Result (A : Type 0) : Type 0 where
  ok : A → Result A
  err : Refusal → Result A

infixl 5 ◌>>=◌ ◌>>◌
abbrev pub ◌>>=◌ : {A B : Type 0} → Result A → (A → Result B) → Result B
ok a >>= f = f a
err e >>= f = err e

abbrev pub ◌>>◌ : {B : Type 0} → Result (Unit {0}) → Result B → Result B
m >> k = m >>= λ _. k

-- `if refused: raise ValueError(e)`
abbrev pub raise_if : Bool → Refusal → Result (Unit {0})
raise_if true e = err e
raise_if false e = ok tt

-- `sum(f(x) for x in xs)`
abbrev pub sum_by : (Lane → ℕ) → List Lane → ℕ
sum_by f [] = 0
sum_by f (x ∷ xs) = f x + sum_by f xs

abbrev pub flag : Bool → ℕ
flag b = if b then 1 else 0

abbrev pub is_active : Lane → ℕ
is_active l = flag (is_some l.active)

unfoldable pub active_count : State → ℕ
active_count s = sum_by is_active s.lanes

unfoldable pub parked_count : State → ℕ
parked_count s = sum_by (λ l. length l.leases) s.lanes

unfoldable pub turn_count : State → ℕ
turn_count s = sum_by (λ l. length l.turns) s.lanes

unfoldable pub parking_count : State → ℕ
parking_count s = sum_by (λ l. l.parking_reserved) s.lanes

unfoldable pub owner_count : State → ℕ
owner_count s = sum_by (λ l. flag l.reuse_owner) s.lanes

abbrev pub is_blocked : Lane → Bool
is_blocked l = is_some l.blocking

unfoldable pub halted : State → Bool
halted s = is_some s.halt || any is_blocked s.lanes

-- `lane.active is None or lane.active == len(lane.turns) - 1`
abbrev pub names_last : Option ℕ → ℕ → Bool
names_last none n = true
names_last (some a) n = eqb (suc a) n

-- The loop at the end of `State.bounds`.
unfoldable pub lane_bounds : List Lane → Result (Unit {0})
lane_bounds [] = ok tt
lane_bounds (l ∷ ls) =
    raise_if (ltb 6 (length l.turns) || ltb 1 l.generation) Refusal.lane_bound
    >> raise_if (not (names_last l.active (length l.turns))) Refusal.active_identity
    >> lane_bounds ls

unfoldable pub bounds : State → Result (Unit {0})
unfolding active_count parking_count parked_count owner_count turn_count lane_bounds
bounds s = do
  raise_if (ltb (min s.config.capacity 4) (active_count s)) Refusal.active_capacity
  raise_if (ltb s.config.parking_capacity (parking_count s)) Refusal.parking_capacity
  raise_if (ltb s.config.parking_capacity (parked_count s)) Refusal.parked_capacity
  raise_if (ltb 1 (owner_count s)) Refusal.reuse_capacity
  raise_if (ltb s.config.turn_budget (turn_count s + s.config.final_turns)) Refusal.turn_budget
  lane_bounds s.lanes

-- `_copy` of a state: the changed record is validated again.
unfoldable pub validated : State → Result State
unfolding bounds
validated s = bounds s >> ok s
