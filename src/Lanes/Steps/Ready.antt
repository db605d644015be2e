-- ===== src/Lanes/Steps/Ready.antt =====
-- src/unrest_harness/experimental_model.py: `ready`, the lanes that may be given a turn, in order.
use unrest.Base.{
  ℕ, suc, Bool, true, false, not, ◌&&◌, ◌||◌, List, [], ◌∷◌, String, Option, none, some,
  if◌then◌else◌, is_none, is_some, all, select, map, ltb, leb, eqb,
}
use unrest.Lanes.{Phase, Lane, State, halted}

-- `PRIORITY`
abbrev pub priority : Phase → Option ℕ
priority Phase.recheck = some 0
priority Phase.correction = some 1
priority Phase.validate = some 2
priority Phase.work = some 3
priority Phase.passed = none
priority Phase.attention = none

abbrev pub is_validate : Phase → Bool
is_validate Phase.validate = true
is_validate _ = false

-- `enumerate(state.lanes)`
abbrev pub enumerated : ℕ → List Lane → List (ℕ × Lane)
enumerated i [] = []
enumerated i (l ∷ ls) = (i, l) ∷ enumerated (suc i) ls

abbrev pub is_idle : Lane → Bool
is_idle l = is_none l.active && is_some (priority l.phase)

-- `all(sibling.generation > 0 or sibling.candidate is not None for sibling in state.lanes)`
abbrev pub all_sealed : List Lane → Bool
all_sealed ls = all (λ l. ltb 0 l.generation || is_some l.candidate) ls

-- The lanes that `ready` sorts.
abbrev pub is_eligible : State → Lane → Bool
is_eligible s l =
    is_idle l && (s.config.streaming || (not (is_validate l.phase) || all_sealed s.lanes))

abbrev pub rank : Lane → ℕ
rank l = if l.admitted then (elim (priority l.phase) [ none ↦ 4 | some p ↦ p ]) else 4

-- The order of the keys `(rank, index)`.
abbrev pub precedes : ℕ × Lane → ℕ × Lane → Bool
precedes a b = ltb (rank a.1) (rank b.1) || (eqb (rank a.1) (rank b.1) && leb a.0 b.0)

unfoldable pub place : ℕ × Lane → List (ℕ × Lane) → List (ℕ × Lane)
place a [] = a ∷ []
place a (b ∷ bs) = if precedes a b then a ∷ (b ∷ bs) else b ∷ place a bs

-- `sorted(lanes, key=...)`
unfoldable pub ordered : List (ℕ × Lane) → List (ℕ × Lane)
unfolding place
ordered [] = []
ordered (a ∷ as') = place a (ordered as')

abbrev pub eligible : State → List (ℕ × Lane)
eligible s = select (λ a. is_eligible s a.1) (enumerated 0 s.lanes)

unfoldable pub ready : State → List String
unfolding halted ordered
ready s = if halted s then [] else map (λ (a : ℕ × Lane). a.1.spec.id) (ordered (eligible s))
