-- ===== src/Ledger/Turns.antt =====
-- src/unrest_harness/experimental_lease.py: how the ledger hands out a turn, and how a turn ends.
use unrest.Base.{
  ℕ, suc, ◌+◌, ◌-◌, min, Bool, true, false, not, ◌&&◌, ◌||◌, [], ◌∷◌, String, Option, none, some,
  if◌then◌else◌, is_empty, is_none, any, Dict, find, find_or, put, leb, eqb,
}
use unrest.Ledger.{
  TurnStatus, Turn, TurnIdentity, PilotLedger, Outcome, is_active, is_reserved, maximum, total,
  active, same_identity, halt, check, appended,
}

-- The tests of `available` after `_check`, in an open episode.
unfoldable pub affordable : Bool → String → PilotLedger → Bool
unfolding maximum total active
affordable is_final episode l =
    let count = find_or 0 episode l.counts in
    not (leb l.capacity (active l.turns))
    && (not (
          leb (maximum episode) count
          || (leb 24 (total l.counts)
              || ((is_final && leb 2 l.final_count)
                  || (not is_final && leb (maximum episode - 2 + l.final_count) count))))
        && not (not (eqb l.final_count 0) && not is_final))

unfoldable pub available : (ℕ → ℕ) → Bool → PilotLedger → PilotLedger × Bool
unfolding check affordable
available clock is_final l =
    let (checked, ok) = check (clock 0) (clock 1) l in
    if not ok
    then (checked, false)
    else elim l.episode [ none ↦ (l, false) | some episode ↦ (l, affordable is_final episode l) ]

-- `turn_deadline`
unfoldable pub turn_deadline : (ℕ → ℕ) → PilotLedger → Outcome ℕ
unfolding check
turn_deadline clock l =
    let (checked, ok) = check (clock 2) (clock 3) l in
    if not ok
    then (checked, none)
    else (l, some (min (min (clock 4 + 300) (l.started + 5400)) (l.episode_started + 1800)))

abbrev is_final_mark : TurnStatus → Bool
is_final_mark TurnStatus.final = true
is_final_mark _ = false

-- `any(s == "final" for _, s in self._turns.values())`
unfoldable pub in_final_phase : Dict Turn → Bool
in_final_phase [] = false
in_final_phase ((k, t) ∷ d) = is_final_mark t.status || in_final_phase d

-- The turns of the ledger once one more is reserved.
unfoldable pub with_turn : String → ℕ → Bool → Dict Turn → Dict Turn
with_turn ticket deadline is_final turns =
    let reserved =
      put ticket (record { deadline = deadline; status = TurnStatus.reserved }) turns in
    if is_final
    then put "final-phase" (record { deadline = deadline; status = TurnStatus.final }) reserved
    else reserved

-- The tests of `reserve` between `available` and `turn_deadline`.
unfoldable pub reservable : TurnIdentity → Bool → String → PilotLedger → Bool
unfolding maximum total active in_final_phase
reservable identity is_final episode l =
    let count = find_or 0 episode l.counts in
    not (leb l.capacity (active l.turns))
    && (not (any (same_identity identity) l.identities)
        && (not (
              leb (maximum episode) count
              || (leb 24 (total l.counts)
                  || ((not is_final && leb (maximum episode - 2 + l.final_count) count)
                      || (is_final && leb 2 l.final_count))))
            && not (in_final_phase l.turns && not is_final)))

-- The writes of `reserve`.
unfoldable pub reserved_ledger :
    TurnIdentity → Bool → String → ℕ → String → PilotLedger → PilotLedger
unfolding with_turn
reserved_ledger identity is_final ticket deadline episode l = record l {
  counts = put episode (suc (find_or 0 episode l.counts)) l.counts;
  identities = identity ∷ l.identities;
  turns = with_turn ticket deadline is_final l.turns;
  final_count = if is_final then suc l.final_count else l.final_count;
}

-- `current_bound if deadline is None else min(deadline, current_bound)`
abbrev pub at_most : Option ℕ → ℕ → ℕ
at_most none current = current
at_most (some d) current = min d current

-- The end of `reserve`: the deadline, the journal and the writes.
unfoldable pub reserve_in :
    (ℕ → ℕ) → Bool → TurnIdentity → Bool → Option ℕ → String → String → PilotLedger → Outcome String
unfolding turn_deadline reserved_ledger
reserve_in clock wrote identity is_final limit ticket episode l =
    let (bounded, bound) = turn_deadline clock l in
    elim bound [
      | none ↦ (bounded, none)
      | some current ↦
          let deadline = at_most limit current in
          if leb deadline (clock 5)
          then (l, none)
          else appended wrote l (reserved_ledger identity is_final ticket deadline episode l) ticket
    ]

unfoldable pub reserve :
    (ℕ → ℕ) → Bool → TurnIdentity → Bool → Option ℕ → String → PilotLedger → Outcome String
unfolding available reservable reserve_in
reserve clock wrote identity is_final limit ticket l =
    let (checked, ok) = available clock is_final l in
    let answer : Outcome String = elim l.episode [
      | none ↦ (l, none)
      | some episode ↦
          let in_time = reserve_in clock wrote identity is_final limit ticket episode l in
          if reservable identity is_final episode l then in_time else (l, none)
    ] in
    if not ok then (checked, none) else answer

unfoldable pub stop : Bool → PilotLedger → Outcome Unit
stop wrote l = (halt l, if wrote then some tt else none)

abbrev pub with_status : PilotLedger → String → Turn → TurnStatus → PilotLedger
with_status l ticket turn status = record l {
  turns = put ticket (record turn { status = status }) l.turns;
}

unfoldable pub mark_sent : (ℕ → ℕ) → Bool → String → PilotLedger → Outcome Unit
unfolding check
mark_sent clock wrote ticket l =
    let (checked, ok) = check (clock 0) (clock 1) l in
    let answer : Outcome Unit = elim (find ticket l.turns) [
      | none ↦ (l, none)
      | some turn ↦
          if not (is_reserved turn.status) || leb turn.deadline (clock 2)
          then (l, none)
          else appended wrote l (with_status l ticket turn TurnStatus.sent) tt
    ] in
    if not ok then (checked, none) else answer

-- `finish`: the second append is that of a late acknowledgement, `wrote_late` its outcome.
unfoldable pub finish : (ℕ → ℕ) → Bool → Bool → String → Bool → PilotLedger → Outcome Unit
finish clock wrote wrote_late ticket ambiguous l = elim (find ticket l.turns) [
  | none ↦ (l, none)
  | some turn ↦
      let expired = leb turn.deadline (clock 0) in
      let uncertain = ambiguous || (is_reserved turn.status || expired) in
      let bound = min (min turn.deadline (l.episode_started + 1800)) (l.started + 5400) in
      let unsure = with_status l ticket turn TurnStatus.uncertain in
      if not (is_active turn.status)
      then (l, none)
      else if not wrote
      then (halt l, none)
      else if not uncertain && leb bound (clock 1)
      then (halt unsure, if wrote_late then some tt else none)
      else if uncertain
      then (halt unsure, some tt)
      else (with_status l ticket turn TurnStatus.acked, some tt)
]

unfoldable pub close_episode : (ℕ → ℕ) → Bool → PilotLedger → Outcome Unit
unfolding check active
close_episode clock wrote l =
    let (checked, ok) = check (clock 0) (clock 1) l in
    if not ok
    then (checked, none)
    else if is_none l.episode
        || (not (eqb l.final_count 2) || (not (is_empty l.leases) || leb 1 (active l.turns)))
    then (l, none)
    else appended wrote l (record l { episode = none; turns = [] }) tt

unfoldable pub close : PilotLedger → PilotLedger
close l = record l { halted = true; is_open = false }
