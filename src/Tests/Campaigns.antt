-- ===== src/Tests/Campaigns.antt =====
-- A campaign of two lanes, from its admission to a pass, and the theorems on it.

use unrest.Base.{ℕ, ◌≡◌, ◌⊎◌, refl, arith, true, false, List, [], ◌∷◌, String, none, some, any, All}
use unrest.Lanes.{Phase, Reason, TurnOutcome, LaneSpec, Config, Lane, State, Refusal, ok, err}
use unrest.Lanes.Places.{get_elem?}
use unrest.Lanes.Admission.{refusal_of, fresh_lane, initial_state, Admission, admit}
use unrest.Lanes.Admission.Scopes.{covers, admit-apart}
use unrest.Lanes.Admission.Initial.{admit-IsSound, admitted-IsSound}
use unrest.Lanes.Progress.{Transmission, advance, restart}
use unrest.Lanes.Sound.{IsSound, IsJudged, Answers}
use unrest.Lanes.Sound.Running.{Call, call, run, call-Answers, passed-IsJudged}
use unrest.Lanes.Sound.Clock.{IsInTime, IsSettled, advance-IsInTime, restart-IsSettled}
use unrest.Lanes.Lifecycle.{Lives, view_of}
use unrest.Lanes.Lifecycle.Calls.{run-Lives}

abbrev base : String
base = "0123456789abcdef0123456789abcdef01234567"

abbrev core_spec : LaneSpec
core_spec = record {
  id = "core";
  writes = "src/core" ∷ [];
  targets = "VAL-1" ∷ [];
  resources = [];
  auto_merge = true;
}

abbrev docs_spec : LaneSpec
docs_spec = record {
  id = "docs";
  writes = "docs" ∷ "README.md" ∷ [];
  targets = "VAL-2" ∷ [];
  resources = "site" ∷ [];
  auto_merge = true;
}

abbrev specs : List LaneSpec
specs = core_spec ∷ docs_spec ∷ []

abbrev config : Config
config = record {
  enabled = true;
  capacity = 4;
  parking_capacity = 4;
  turn_budget = 8;
  final_turns = 2;
  reuse = true;
  streaming = true;
  turn_timeout = 300;
}

abbrev start : State
start = initial_state specs base config

abbrev admission : Admission
admission = record { reason = none; state = some start }

admits : admit specs base true true config ≡ ok admission
unfolding admit
admits = refl

-- A scope below another lane's, and a scope that leaves the tree.
refuses_overlap :
    refusal_of (core_spec ∷ record docs_spec { writes = "src" ∷ [] } ∷ []) base true true config
    ≡ some Reason.overlap
unfolding refusal_of
refuses_overlap = refl

refuses_parent :
    refusal_of
      (core_spec ∷ record docs_spec { writes = "docs/../x" ∷ [] } ∷ [])
      base
      true
      true
      config
    ≡ some Reason.invalid_scope
unfolding refusal_of
refuses_parent = refl

start-IsSound : IsSound start
start-IsSound = admitted-IsSound specs base true true config admission start admits refl

-- The turn of the work, its candidate, and the turn that validates it.
abbrev turn_over : ℕ → TurnOutcome → List Call
turn_over n o =
    Call.reserve
    ∷ Call.transmit "core" n Transmission.sent
    ∷ Call.transmit "core" n Transmission.acked
    ∷ Call.finish "core" n o
    ∷ []

abbrev working : List Call
working = Call.reserve ∷ Call.transmit "core" 0 Transmission.sent ∷ []

abbrev passing : List Call
passing =
    Call.reserve
    ∷ Call.transmit "core" 0 Transmission.sent
    ∷ Call.transmit "core" 0 Transmission.acked
    ∷ Call.finish "core" 0 TurnOutcome.sealed
    ∷ Call.reserve
    ∷ Call.transmit "core" 1 Transmission.sent
    ∷ Call.transmit "core" 1 Transmission.acked
    ∷ Call.finish "core" 1 TurnOutcome.pass
    ∷ []

-- The lane at an index, or the lane given.
abbrev lane_or : Lane → ℕ → List Lane → Lane
lane_or d i ls = elim (get_elem? ls i) [ none ↦ d | some l ↦ l ]

core_after : List Call → Lane
unfolding run
core_after cs = lane_or (fresh_lane config 0 core_spec) 0 (run cs start).lanes

passes : (core_after passing).phase ≡ Phase.passed
unfolding core_after
passes = refl

double_send :
    call (Call.transmit "core" 0 Transmission.sent) (run working start)
    ≡ err Refusal.transmission_order
unfolding call run
double_send = refl

call-Answers_example : Answers (call Call.reserve start)
call-Answers_example = call-Answers Call.reserve start start-IsSound

passed-IsJudged_example :
    IsJudged
      (core_after passing).candidate
      (core_after passing).spec.targets
      (core_after passing).turns
unfolding core_after
passed-IsJudged_example =
    passed-IsJudged specs base true true config admission start passing 0 (core_after passing)
      admits refl refl refl

run-Lives_example : Lives (view_of (fresh_lane config 0 core_spec)) (view_of (core_after passing))
unfolding core_after
run-Lives_example =
    run-Lives passing start 0 (fresh_lane config 0 core_spec) (core_after passing) start-IsSound
      refl refl

admit-apart_example : any (covers "src/core/a.py") docs_spec.writes ≡ false
unfolding covers
admit-apart_example =
    admit-apart specs base true true config admission start 0 1 (fresh_lane config 0 core_spec)
      (fresh_lane config 1 docs_spec) "src/core/a.py" admits refl (omega arith) refl refl refl

admit-IsSound_example :
    ((r : Reason) × (admit specs base true true config
        ≡ ok (record { reason = some r; state = none })))
    ⊎ ((s : State) × (admit specs base true true config
          ≡ ok (record { reason = none; state = some s }))
        × IsSound s)
admit-IsSound_example = admit-IsSound specs base true true config

advance-IsInTime_example :
    (s' : State) × (advance start 300 ≡ ok s')
    × IsSound s'
    × (s'.now ≡ 300)
    × All (IsInTime 300) s'.lanes
advance-IsInTime_example = advance-IsInTime start 300 start-IsSound (omega arith)

restart-IsSettled_example :
    (s' : State) × (restart start ≡ ok s') × IsSound s' × All IsSettled s'.lanes
restart-IsSettled_example = restart-IsSettled start start-IsSound
