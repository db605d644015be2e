-- ===== src/Ledger/Steps.antt =====
-- src/unrest_harness/experimental_lease.py: the operations of the ledger as steps, and runs of them.
use unrest.Base.{
  ◌≡◌, subst, ℕ, ◌+◌, min, Bool, true, false, not, ◌&&◌, ◌||◌, List, [], ◌∷◌, String, Option,
  Option-cases, Bool-cases, inl, inr, none, some, arith, if◌then◌else◌, is_none, find, ltb, leb,
  eqb, is_empty, foldl,
}
use unrest.Ledger.{
  TurnStatus, Turn, TurnIdentity, PilotLedger, is_active, is_reserved, maximum, total, active,
  check, Outcome, new_ledger, fresh, claim_session, release_session, bind_session, admit, halt,
  appended,
}
use unrest.Ledger.Turns.{
  reservable, reserved_ledger, reserve_in, turn_deadline, available, reserve, stop, mark_sent,
  finish, close_episode, close, at_most, with_status,
}
use unrest.Ledger.Budget.{
  WithinBudget, within-sets, within-halt, within-if, within-appended, within-check, within-checked,
  claim_session-within, release_session-within, bind_session-within, admit-within, reserved-within,
  active-put,
}

-- One operation with what it reads of the clock, the journal and the source of tickets.
pub data Op : Type 0 where
  claims : (ℕ → ℕ) → String → Op
  releases : String → Op
  binds : (ℕ → ℕ) → Bool → String → Op
  admits : (ℕ → ℕ) → Bool → String → Op
  reserves : (ℕ → ℕ) → Bool → TurnIdentity → Bool → Option ℕ → String → Op
  sends : (ℕ → ℕ) → Bool → String → Op
  finishes : (ℕ → ℕ) → Bool → Bool → String → Bool → Op
  stops : Bool → Op
  closes_episode : (ℕ → ℕ) → Bool → Op
  closes : Op

unfoldable pub step : PilotLedger → Op → PilotLedger
unfolding claim_session release_session bind_session admit reserve mark_sent finish stop
    close_episode close
step l (Op.claims clock handle) = (claim_session clock handle l).0
step l (Op.releases handle) = (release_session handle l).0
step l (Op.binds clock wrote session) = (bind_session clock wrote session l).0
step l (Op.admits clock wrote episode) = (admit clock wrote episode l).0
step l (Op.reserves clock wrote identity is_final limit ticket) =
    (reserve clock wrote identity is_final limit ticket l).0
step l (Op.sends clock wrote ticket) = (mark_sent clock wrote ticket l).0
step l (Op.finishes clock wrote wrote_late ticket ambiguous) =
    (finish clock wrote wrote_late ticket ambiguous l).0
step l (Op.stops wrote) = (stop wrote l).0
step l (Op.closes_episode clock wrote) = (close_episode clock wrote l).0
step l Op.closes = close l

-- A ledger after some operations.
unfoldable pub run : PilotLedger → List Op → PilotLedger
unfolding step
run l ops = foldl step l ops

status-within :
    (l : PilotLedger) (ticket : String) (turn : Turn) (status : TurnStatus)
    → WithinBudget l
    → find ticket l.turns ≡ some turn
    → is_active turn.status ≡ true
    → WithinBudget (with_status l ticket turn status)
status-within l ticket turn status w f a = record {
  campaign = w.campaign;
  episodes = w.episodes;
  underway =
      ground (arith, f, a, w.underway, active-put ticket (record turn { status = status }) l.turns);
  few = w.few;
  finals = w.finals;
  finals_fit = w.finals_fit;
}

mark_sent-within :
    (clock : ℕ → ℕ) (wrote : Bool) (ticket : String) (l : PilotLedger)
    → WithinBudget l
    → WithinBudget (mark_sent clock wrote ticket l).0
unfolding mark_sent
mark_sent-within clock wrote ticket l w =
    within-checked (clock 0) (clock 1) l _ w (elim (Option-cases (find ticket l.turns)) [
      | inl unknown ↦ rw unknown w
      | inr (turn, f) ↦ rw f (
          within-if (not (is_reserved turn.status) || leb turn.deadline (clock 2)) (l, none) _
            (λ e. w)
            (λ e.
              within-appended wrote l (with_status l ticket turn TurnStatus.sent) tt w
                (status-within l ticket turn TurnStatus.sent w f (ground arith))))
    ])

finish-within :
    (clock : ℕ → ℕ) (wrote wrote_late : Bool) (ticket : String) (ambiguous : Bool) (l : PilotLedger)
    → WithinBudget l
    → WithinBudget (finish clock wrote wrote_late ticket ambiguous l).0
unfolding finish
finish-within clock wrote wrote_late ticket ambiguous l w =
    elim (Option-cases (find ticket l.turns)) [
      | inl unknown ↦ rw (unknown, finish) w
      | inr (turn, f) ↦
          rw (f, finish)
            (within-if (not (is_active turn.status)) (l, none) _ (λ e. w)
              (λ e.
                let to : (s : TurnStatus) → WithinBudget (with_status l ticket turn s) =
                  λ s. status-within l ticket turn s w f (ground arith) in
                let unsure = with_status l ticket turn TurnStatus.uncertain in
                let acked = with_status l ticket turn TurnStatus.acked in
                let uncertain =
                  ambiguous || (is_reserved turn.status || leb turn.deadline (clock 0)) in
                let bound = min (min turn.deadline (l.episode_started + 1800)) (l.started + 5400) in
                let done : Option Unit = some tt in
                let last : Outcome Unit =
                  if uncertain then (halt unsure, done) else (acked, done) in
                let late : Outcome Unit = (halt unsure, if wrote_late then some tt else none) in
                within-if (not wrote) (halt l, none) _ (λ e. within-halt l w)
                  (λ e.
                    within-if (not uncertain && leb bound (clock 1)) late last
                      (λ e. within-halt unsure (to TurnStatus.uncertain))
                      (λ e.
                        within-if uncertain (halt unsure, done) (acked, done)
                          (λ e. within-halt unsure (to TurnStatus.uncertain))
                          (λ e. to TurnStatus.acked)))))
    ]

apart_ledger : (l : PilotLedger) → ¬ (none ≡ some l)
apart_ledger l h = cc

some_same : (k l : PilotLedger) → some k ≡ some l → k ≡ l
some_same k l h = cc

apart : (e : String) → ¬ (none ≡ some e)
apart e h = cc

close_episode-within :
    (clock : ℕ → ℕ) (wrote : Bool) (l : PilotLedger)
    → WithinBudget l
    → WithinBudget (close_episode clock wrote l).0
unfolding close_episode active
close_episode-within clock wrote l w = within-checked (clock 0) (clock 1) l _ w (
    within-if
      (is_none l.episode
        || (not (eqb l.final_count 2) || (not (is_empty l.leases) || leb 1 (active l.turns))))
      (l, none) _ (λ e. w)
      (λ e.
        within-appended wrote l (record l { episode = none; turns = [] }) tt w
          (record {
            campaign = w.campaign;
            episodes = w.episodes;
            underway = omega arith;
            few = w.few;
            finals = w.finals;
            finals_fit = λ e same. absurd (apart e same);
          })))

turn_deadline-within :
    (clock : ℕ → ℕ) (l : PilotLedger) → WithinBudget l → WithinBudget (turn_deadline clock l).0
unfolding turn_deadline
turn_deadline-within clock l w =
    within-if (not (check (clock 2) (clock 3) l).1) ((check (clock 2) (clock 3) l).0, none)
      (l, some _) (λ e. within-check (clock 2) (clock 3) l w) (λ e. w)

reserve_in-within :
    (clock : ℕ → ℕ) (wrote : Bool) (identity : TurnIdentity) (is_final : Bool) (limit : Option ℕ)
    (ticket episode : String) (l : PilotLedger)
    → WithinBudget l
    → l.episode ≡ some episode
    → reservable identity is_final episode l ≡ true
    → WithinBudget (reserve_in clock wrote identity is_final limit ticket episode l).0
unfolding reserve_in turn_deadline
reserve_in-within clock wrote identity is_final limit ticket episode l w opened r =
    elim (Bool-cases (check (clock 2) (clock 3) l).1) [
      | inl ok ↦
          let current = min (min (clock 4 + 300) (l.started + 5400)) (l.episode_started + 1800) in
          let deadline = at_most limit current in
          let after = reserved_ledger identity is_final ticket deadline episode l in
          rw (ok, reserve_in, turn_deadline)
            (within-if (leb deadline (clock 5)) (l, none) (appended wrote l after ticket) (λ e. w)
              (λ e.
                within-appended wrote l after ticket w
                  (reserved-within identity is_final ticket deadline episode l w opened r)))
      | inr bad ↦ rw (bad, reserve_in, turn_deadline) (turn_deadline-within clock l w)
    ]

available-within :
    (clock : ℕ → ℕ) (is_final : Bool) (l : PilotLedger)
    → WithinBudget l
    → WithinBudget (available clock is_final l).0
unfolding available
available-within clock is_final l w =
    within-if (not (check (clock 0) (clock 1) l).1) ((check (clock 0) (clock 1) l).0, false) _
      (λ e. within-check (clock 0) (clock 1) l w)
      (λ e. elim (Option-cases l.episode) [
        | inl closed ↦ rw closed w
        | inr (episode, opened) ↦ rw opened w
      ])

reserve-within :
    (clock : ℕ → ℕ) (wrote : Bool) (identity : TurnIdentity) (is_final : Bool) (limit : Option ℕ)
    (ticket : String) (l : PilotLedger)
    → WithinBudget l
    → WithinBudget (reserve clock wrote identity is_final limit ticket l).0
unfolding reserve
reserve-within clock wrote identity is_final limit ticket l w =
    within-if (not (available clock is_final l).1) ((available clock is_final l).0, none) _
      (λ e. available-within clock is_final l w)
      (λ e. elim (Option-cases l.episode) [
        | inl closed ↦ rw closed w
        | inr (episode, opened) ↦ rw opened (
            within-if (reservable identity is_final episode l) _ (l, none)
              (λ r.
                reserve_in-within clock wrote identity is_final limit ticket episode l w opened r)
              (λ r. w))
      ])

-- Every operation of the ledger, whatever it reads of the clock and whether or not the journal takes
-- its lines, leaves a ledger that keeps to its budget so.
pub step-WithinBudget : (l : PilotLedger) (op : Op) → WithinBudget l → WithinBudget (step l op)
unfolding step stop close
step-WithinBudget l (Op.claims clock handle) w = claim_session-within clock handle l w
step-WithinBudget l (Op.releases handle) w = release_session-within handle l w
step-WithinBudget l (Op.binds clock wrote session) w = bind_session-within clock wrote session l w
step-WithinBudget l (Op.admits clock wrote episode) w = admit-within clock wrote episode l w
step-WithinBudget l (Op.reserves clock wrote identity is_final limit ticket) w =
    reserve-within clock wrote identity is_final limit ticket l w
step-WithinBudget l (Op.sends clock wrote ticket) w = mark_sent-within clock wrote ticket l w
step-WithinBudget l (Op.finishes clock wrote wrote_late ticket ambiguous) w =
    finish-within clock wrote wrote_late ticket ambiguous l w
step-WithinBudget l (Op.stops wrote) w = within-halt l w
step-WithinBudget l (Op.closes_episode clock wrote) w = close_episode-within clock wrote l w
step-WithinBudget l Op.closes w = within-sets l l.leases l.sessions true false w

run-within : (l : PilotLedger) (ops : List Op) → WithinBudget l → WithinBudget (run l ops)
unfolding run
run-within l [] w = w
run-within l (op ∷ ops) w = run-within (step l op) ops (step-WithinBudget l op w)

new_ledger-fresh :
    (capacity : ℕ) (known wrote : Bool) (now : ℕ) (l : PilotLedger)
    → new_ledger capacity known now wrote ≡ some l
    → fresh capacity now ≡ l
unfolding new_ledger
new_ledger-fresh capacity known wrote now l e =
    elim (Bool-cases (ltb capacity 1 || (not known || not wrote))) [
      | inl bad ↦ absurd (apart_ledger l ((rw bad at e)))
      | inr good ↦ some_same (fresh capacity now) l (rw good at e)
    ]

fresh-within : (capacity now : ℕ) → WithinBudget (fresh capacity now)
unfolding total active maximum find
fresh-within capacity now = record {
  campaign = omega arith;
  episodes = λ e. omega arith;
  underway = omega arith;
  few = omega arith;
  finals = omega arith;
  finals_fit = λ e same. absurd (apart e same);
}

-- A new ledger keeps to its budget after any operations: no more than 24 turns are counted, no more than
-- the maximum of each episode and no more than two final ones in the current episode; no more are
-- underway at once than its capacity, which is at most 4; and in an open episode the final turns that are not taken still fit
-- its maximum.
pub run-WithinBudget :
    (capacity : ℕ) (known wrote : Bool) (now : ℕ) (l : PilotLedger) (ops : List Op)
    → new_ledger capacity known now wrote ≡ some l
    → WithinBudget (run l ops)
run-WithinBudget capacity known wrote now l ops e =
    run-within l ops (
      subst WithinBudget (new_ledger-fresh capacity known wrote now l e)
        (fresh-within capacity now))
