-- ===== src/Ledger.antt =====
-- src/unrest_harness/experimental_lease.py: the ledger that hands out the turns of a campaign.
-- A reading of the clock is a number of seconds, and `clock i` is the i-th reading in the code of an
-- operation. `wrote` says whether the journal took the line that the operation appends. An operation
-- returns the ledger and its value, `none` where it raises LeaseRefused. Which operation owned a halt
-- (`owned_operation`, `halted_by`) is left out. Of an identity only the pair that the ledger compares is kept.
pub mod Turns
pub mod Budget
pub mod Steps
pub mod Spending
pub mod Paying
use unrest.Base.{
  ℕ, suc, ◌+◌, ◌-◌, min, Bool, true, false, not, ◌&&◌, ◌||◌, List, [], ◌∷◌, String, Option, none,
  some, ◌==◌, if◌then◌else◌, contains, is_empty, is_none, is_some, select, any, Dict, find, find_or,
  put, ltb, leb, eqb, minus, length,
}

pub data TurnStatus : Type 0 where
  reserved sent acked uncertain final : TurnStatus

abbrev pub is_active : TurnStatus → Bool
is_active TurnStatus.reserved = true
is_active TurnStatus.sent = true
is_active _ = false

abbrev pub is_reserved : TurnStatus → Bool
is_reserved TurnStatus.reserved = true
is_reserved _ = false

pub record Turn : Type 0 where
  pub deadline : ℕ
  pub status : TurnStatus

pub record TurnIdentity : Type 0 where
  pub process_generation : String
  pub ordinal : ℕ

pub record PilotLedger : Type 0 where
  pub capacity : ℕ
  pub started : ℕ
  pub episode : Option String
  pub episode_started : ℕ
  pub counts : Dict ℕ
  pub turns : Dict Turn
  pub halted : Bool
  pub final_count : ℕ
  pub identities : List TurnIdentity
  pub leases : List String
  pub sessions : List String
  pub is_open : Bool

-- `maxima`, 0 where it has no such episode.
unfoldable pub maximum : String → ℕ
maximum episode =
    if episode == "P1"
    then 4
    else if episode == "P2"
    then 6
    else if episode == "P3"
    then 8
    else if episode == "C1"
    then 6
    else 0

unfoldable pub is_episode : String → Bool
is_episode episode = contains episode ("P1" ∷ "P2" ∷ "P3" ∷ "C1" ∷ [])

-- `sum(self._counts.values())`
unfoldable pub total : Dict ℕ → ℕ
total [] = 0
total ((e, n) ∷ d) = n + total d

-- The number of turns whose status is reserved or sent.
unfoldable pub active : Dict Turn → ℕ
active [] = 0
active ((k, t) ∷ d) = if is_active t.status then suc (active d) else active d

abbrev pub same_identity : TurnIdentity → TurnIdentity → Bool
same_identity a b = a.process_generation == b.process_generation && eqb a.ordinal b.ordinal

abbrev pub halt : PilotLedger → PilotLedger
halt l = record l { halted = true }

-- What an operation returns.
abbrev pub Outcome : Type 0 → Type 0
Outcome A = PilotLedger × Option A

-- The fields that `__init__` sets.
abbrev pub fresh : ℕ → ℕ → PilotLedger
fresh capacity now = record {
  capacity = min capacity 4;
  started = now;
  episode = none;
  episode_started = 0;
  counts = [];
  turns = [];
  halted = false;
  final_count = 0;
  identities = [];
  leases = [];
  sessions = [];
  is_open = true;
}

-- `__init__`: the capacity is at least 1, the provider is one of the two, and the journal takes a line.
unfoldable pub new_ledger : ℕ → Bool → ℕ → Bool → Option PilotLedger
new_ledger capacity known_provider now wrote =
    if ltb capacity 1 || (not known_provider || not wrote) then none else some (fresh capacity now)

-- `_check`, with its two readings of the clock.
unfoldable pub check : ℕ → ℕ → PilotLedger → PilotLedger × Bool
check now later l =
    if l.halted || leb (l.started + 5400) now
    then (l, false)
    else if is_some l.episode && leb (l.episode_started + 1800) later
    then (halt l, false)
    else (l, true)

-- `_append` and the operation's writes after it.
abbrev pub appended : {A : Type 0} → Bool → PilotLedger → PilotLedger → A → Outcome A
appended wrote before after value = if wrote then (after, some value) else (halt before, none)

unfoldable pub claim_session : (ℕ → ℕ) → String → PilotLedger → Outcome String
unfolding check
claim_session clock handle l =
    let (checked, ok) = check (clock 0) (clock 1) l in
    if not ok then (checked, none) else if leb 4 (length l.leases) then (l, none) else (
      record l { leases = if contains handle l.leases then l.leases else handle ∷ l.leases },
      some handle,
    )

-- `set.remove` of a handle that is not there raises.
unfoldable pub release_session : String → PilotLedger → Outcome Unit
release_session handle l =
    if contains handle l.leases
    then (record l { leases = minus l.leases (handle ∷ []) }, some tt)
    else (l, none)

unfoldable pub bind_session : (ℕ → ℕ) → Bool → String → PilotLedger → Outcome Unit
unfolding check
bind_session clock wrote session l =
    let (checked, ok) = check (clock 0) (clock 1) l in
    if not ok
    then (checked, none)
    else if session == "" || contains session l.sessions
    then (l, none)
    else appended wrote l (record l { sessions = session ∷ l.sessions }) tt

unfoldable pub admit : (ℕ → ℕ) → Bool → String → PilotLedger → Outcome Unit
unfolding check is_episode
admit clock wrote episode l =
    let (checked, ok) = check (clock 0) (clock 1) l in
    let admitted : PilotLedger = record l {
      episode = some episode;
      episode_started = clock 2;
      counts = put episode 0 l.counts;
      final_count = 0;
    } in
    if not ok
    then (checked, none)
    else if not (is_episode episode) || (is_some (find episode l.counts) || is_some l.episode)
    then (l, none)
    else appended wrote l admitted tt
