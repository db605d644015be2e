-- ===== src/Tests/Ledgers.antt =====
-- A campaign with one episode and three turns.
use unrest.Base.{◌≡◌, refl, ℕ, true, false, List, [], ◌∷◌, none, some, find}
use unrest.Ledger.{PilotLedger, TurnIdentity, fresh, new_ledger}
use unrest.Ledger.Turns.{reserve}
use unrest.Ledger.Spending.{Keeps, step-Keeps}
use unrest.Ledger.Budget.{WithinBudget}
use unrest.Ledger.Steps.{Op, step, run, run-WithinBudget}

abbrev now : ℕ → ℕ
now i = 10

abbrev turn : ℕ → TurnIdentity
turn n = record { process_generation = "g"; ordinal = n }

abbrev campaign : List Op
campaign =
    Op.admits now true "P1"
    ∷ Op.reserves now true (turn 1) false none "k1"
    ∷ Op.sends now true "k1"
    ∷ Op.finishes now true true "k1" false
    ∷ Op.reserves now true (turn 2) true none "k2"
    ∷ []

new-ledger : new_ledger 4 true 0 true ≡ some (fresh 4 0)
unfolding new_ledger
new-ledger = refl

run-WithinBudget_example : WithinBudget (run (fresh 4 0) campaign)
run-WithinBudget_example = run-WithinBudget 4 true true 0 (fresh 4 0) campaign new-ledger

step-Keeps_example :
    Keeps
      (run (fresh 4 0) campaign)
      (step (run (fresh 4 0) campaign) (Op.reserves now true (turn 3) true none "k3"))
step-Keeps_example =
    step-Keeps (run (fresh 4 0) campaign) (Op.reserves now true (turn 3) true none "k3")

-- An episode has begun.
abbrev begun : PilotLedger
begun = record (fresh 4 0) { episode = some "P1"; episode_started = 10; counts = ("P1", 0) ∷ [] }

begun-reserves : (reserve now true (turn 1) false none "k1" begun).1 ≡ some "k1"
unfolding reserve find
begun-reserves = refl
