-- ===== src/Ledger/Spending.antt =====
-- src/unrest_harness/experimental_lease.py: the number of turns over the operations.
use unrest.Base.{
  ◌≡◌, refl, ℕ, suc, ◌+◌, ◌≤◌, min, Bool, Bool-cases, true, false, not, ◌&&◌, ◌||◌, [], ◌∷◌, String,
  Option, Option-cases, inl, inr, none, some, arith, ◌==◌, if◌then◌else◌, contains, is_none,
  is_some, find, find_or, put, leb, eqb, is_empty, length,
}
use unrest.Ledger.{
  TurnStatus, TurnIdentity, PilotLedger, Outcome, total, check, claim_session, release_session,
  bind_session, admit, halt, appended, is_active, is_reserved, active, is_episode,
}
use unrest.Ledger.Turns.{
  available, turn_deadline, reservable, reserved_ledger, reserve_in, reserve, at_most, stop,
  with_status, mark_sent, finish, close_episode, close,
}
use unrest.Ledger.Budget.{total-put}
use unrest.Ledger.Steps.{Op, step}

-- Nothing is refunded from the first ledger to the second, and a halt is kept.
abbrev pub Keeps : PilotLedger → PilotLedger → Type 0
Keeps l after = (total l.counts ≤ total after.counts) × (l.halted ≡ true → after.halted ≡ true)

Keeps-self : (l : PilotLedger) → Keeps l l
Keeps-self l = (omega arith, λ h. h)

Keeps-halt : (l m : PilotLedger) → Keeps l m → Keeps l (halt m)
Keeps-halt l m k = (k.0, λ h. refl)

Keeps-if :
    {A : Type 0} (l : PilotLedger) (b : Bool) (x y : PilotLedger × A)
    → (b ≡ true → Keeps l x.0)
    → (b ≡ false → Keeps l y.0)
    → Keeps l (if b then x else y).0
Keeps-if l true x y h k = h refl
Keeps-if l false x y h k = k refl

Keeps-appended :
    {A : Type 0} (wrote : Bool) (l after : PilotLedger) (value : A)
    → Keeps l after
    → Keeps l (appended wrote l after value).0
Keeps-appended true l after value k = k
Keeps-appended false l after value k = Keeps-halt l l (Keeps-self l)

Keeps-check : (n m : ℕ) (l : PilotLedger) → Keeps l (check n m l).0
unfolding check
Keeps-check n m l = (ground arith, λ h. ground (arith, h))

admitted-keeps :
    (episode : String) (l : PilotLedger)
    → is_some (find episode l.counts) ≡ false
    → total l.counts ≤ total (put episode 0 l.counts)
admitted-keeps episode l new = ground (arith, new, total-put episode 0 l.counts)

Keeps-checked :
    {A : Type 0} (n m : ℕ) (l : PilotLedger) (answer : Outcome A)
    → Keeps l answer.0
    → Keeps l (if not (check n m l).1 then ((check n m l).0, none) else answer).0
Keeps-checked n m l answer v =
    Keeps-if l (not (check n m l).1) ((check n m l).0, none) answer (λ e. Keeps-check n m l)
      (λ e. v)

claim_session-Keeps :
    (clock : ℕ → ℕ) (handle : String) (l : PilotLedger) → Keeps l (claim_session clock handle l).0
unfolding claim_session
claim_session-Keeps clock handle l =
    Keeps-checked (clock 0) (clock 1) l _
      (Keeps-if l (leb 4 (length l.leases)) (l, none) _ (λ e. Keeps-self l) (λ e. Keeps-self l))

release_session-Keeps : (handle : String) (l : PilotLedger) → Keeps l (release_session handle l).0
unfolding release_session
release_session-Keeps handle l =
    Keeps-if l (contains handle l.leases) _ (l, none) (λ e. Keeps-self l) (λ e. Keeps-self l)

bind_session-Keeps :
    (clock : ℕ → ℕ) (wrote : Bool) (session : String) (l : PilotLedger)
    → Keeps l (bind_session clock wrote session l).0
unfolding bind_session
bind_session-Keeps clock wrote session l = Keeps-checked (clock 0) (clock 1) l _ (
    Keeps-if l (session == "" || contains session l.sessions) (l, none) _ (λ e. Keeps-self l)
      (λ e.
        Keeps-appended wrote l (record l { sessions = session ∷ l.sessions }) tt (Keeps-self l)))

admit-Keeps :
    (clock : ℕ → ℕ) (wrote : Bool) (episode : String) (l : PilotLedger)
    → Keeps l (admit clock wrote episode l).0
unfolding admit
admit-Keeps clock wrote episode l = Keeps-checked (clock 0) (clock 1) l _ (
    Keeps-if l (not (is_episode episode) || (is_some (find episode l.counts) || is_some l.episode))
      (l, none) _ (λ e. Keeps-self l)
      (λ e. Keeps-appended wrote l _ tt (admitted-keeps episode l (ground arith), λ h. h)))

mark_sent-Keeps :
    (clock : ℕ → ℕ) (wrote : Bool) (ticket : String) (l : PilotLedger)
    → Keeps l (mark_sent clock wrote ticket l).0
unfolding mark_sent
mark_sent-Keeps clock wrote ticket l =
    Keeps-checked (clock 0) (clock 1) l _ (elim (Option-cases (find ticket l.turns)) [
      | inl unknown ↦ rw unknown (Keeps-self l)
      | inr (turn, f) ↦ rw f (
          Keeps-if l (not (is_reserved turn.status) || leb turn.deadline (clock 2)) (l, none) _
            (λ e. Keeps-self l)
            (λ e.
              Keeps-appended wrote l (with_status l ticket turn TurnStatus.sent) tt (Keeps-self l)))
    ])

finish-Keeps :
    (clock : ℕ → ℕ) (wrote wrote_late : Bool) (ticket : String) (ambiguous : Bool) (l : PilotLedger)
    → Keeps l (finish clock wrote wrote_late ticket ambiguous l).0
unfolding finish
finish-Keeps clock wrote wrote_late ticket ambiguous l = elim (Option-cases (find ticket l.turns)) [
  | inl unknown ↦ rw (unknown, finish) (Keeps-self l)
  | inr (turn, f) ↦
      let unsure = with_status l ticket turn TurnStatus.uncertain in
      let acked = with_status l ticket turn TurnStatus.acked in
      let uncertain = ambiguous || (is_reserved turn.status || leb turn.deadline (clock 0)) in
      let bound = min (min turn.deadline (l.episode_started + 1800)) (l.started + 5400) in
      let done : Option Unit = some tt in
      let last : Outcome Unit = if uncertain then (halt unsure, done) else (acked, done) in
      let late : Outcome Unit = (halt unsure, if wrote_late then some tt else none) in
      rw (f, finish)
        (Keeps-if l (not (is_active turn.status)) (l, none) _ (λ e. Keeps-self l)
          (λ e.
            Keeps-if l (not wrote) (halt l, none) _ (λ e. Keeps-halt l l (Keeps-self l))
              (λ e.
                Keeps-if l (not uncertain && leb bound (clock 1)) late last
                  (λ e. Keeps-halt l unsure (Keeps-self l))
                  (λ e.
                    Keeps-if l uncertain (halt unsure, done) (acked, done)
                      (λ e. Keeps-halt l unsure (Keeps-self l)) (λ e. Keeps-self l)))))
]

close_episode-Keeps :
    (clock : ℕ → ℕ) (wrote : Bool) (l : PilotLedger) → Keeps l (close_episode clock wrote l).0
unfolding close_episode
close_episode-Keeps clock wrote l = Keeps-checked (clock 0) (clock 1) l _ (
    Keeps-if l
      (is_none l.episode
        || (not (eqb l.final_count 2) || (not (is_empty l.leases) || leb 1 (active l.turns))))
      (l, none) _ (λ e. Keeps-self l)
      (λ e. Keeps-appended wrote l (record l { episode = none; turns = [] }) tt (Keeps-self l)))

turn_deadline-Keeps : (clock : ℕ → ℕ) (l : PilotLedger) → Keeps l (turn_deadline clock l).0
unfolding turn_deadline
turn_deadline-Keeps clock l =
    Keeps-if l (not (check (clock 2) (clock 3) l).1) ((check (clock 2) (clock 3) l).0, none)
      (l, some _) (λ e. Keeps-check (clock 2) (clock 3) l) (λ e. Keeps-self l)

reserved_ledger-Keeps :
    (identity : TurnIdentity) (is_final : Bool) (ticket : String) (deadline : ℕ) (episode : String)
    (l : PilotLedger)
    → Keeps l (reserved_ledger identity is_final ticket deadline episode l)
unfolding reserved_ledger
reserved_ledger-Keeps identity is_final ticket deadline episode l =
    (omega (arith, total-put episode (suc (find_or 0 episode l.counts)) l.counts), λ h. h)

reserve_in-Keeps :
    (clock : ℕ → ℕ) (wrote : Bool) (identity : TurnIdentity) (is_final : Bool) (limit : Option ℕ)
    (ticket episode : String) (l : PilotLedger)
    → Keeps l (reserve_in clock wrote identity is_final limit ticket episode l).0
unfolding reserve_in turn_deadline
reserve_in-Keeps clock wrote identity is_final limit ticket episode l =
    elim (Bool-cases (check (clock 2) (clock 3) l).1) [
      | inl ok ↦
          let current = min (min (clock 4 + 300) (l.started + 5400)) (l.episode_started + 1800) in
          let deadline = at_most limit current in
          let after = reserved_ledger identity is_final ticket deadline episode l in
          rw (ok, reserve_in, turn_deadline)
            (Keeps-if l (leb deadline (clock 5)) (l, none) (appended wrote l after ticket)
              (λ e. Keeps-self l)
              (λ e.
                Keeps-appended wrote l after ticket
                  (reserved_ledger-Keeps identity is_final ticket deadline episode l)))
      | inr bad ↦ rw (bad, reserve_in, turn_deadline) (turn_deadline-Keeps clock l)
    ]

available-Keeps :
    (clock : ℕ → ℕ) (is_final : Bool) (l : PilotLedger) → Keeps l (available clock is_final l).0
unfolding available
available-Keeps clock is_final l =
    Keeps-if l (not (check (clock 0) (clock 1) l).1) ((check (clock 0) (clock 1) l).0, false) _
      (λ e. Keeps-check (clock 0) (clock 1) l)
      (λ e. elim (Option-cases l.episode) [
        | inl closed ↦ rw closed (Keeps-self l)
        | inr (episode, opened) ↦ rw opened (Keeps-self l)
      ])

reserve-Keeps :
    (clock : ℕ → ℕ) (wrote : Bool) (identity : TurnIdentity) (is_final : Bool) (limit : Option ℕ)
    (ticket : String) (l : PilotLedger)
    → Keeps l (reserve clock wrote identity is_final limit ticket l).0
unfolding reserve
reserve-Keeps clock wrote identity is_final limit ticket l =
    Keeps-if l (not (available clock is_final l).1) ((available clock is_final l).0, none) _
      (λ e. available-Keeps clock is_final l)
      (λ e. elim (Option-cases l.episode) [
        | inl closed ↦ rw closed (Keeps-self l)
        | inr (episode, opened) ↦ rw opened (
            Keeps-if l (reservable identity is_final episode l) _ (l, none)
              (λ r. reserve_in-Keeps clock wrote identity is_final limit ticket episode l)
              (λ r. Keeps-self l))
      ])

-- No operation refunds a turn: the number of turns counted over all episodes never falls. And no
-- operation lifts a halt.
pub step-Keeps : (l : PilotLedger) (op : Op) → Keeps l (step l op)
unfolding step stop close
step-Keeps l (Op.claims clock handle) = claim_session-Keeps clock handle l
step-Keeps l (Op.releases handle) = release_session-Keeps handle l
step-Keeps l (Op.binds clock wrote session) = bind_session-Keeps clock wrote session l
step-Keeps l (Op.admits clock wrote episode) = admit-Keeps clock wrote episode l
step-Keeps l (Op.reserves clock wrote identity is_final limit ticket) =
    reserve-Keeps clock wrote identity is_final limit ticket l
step-Keeps l (Op.sends clock wrote ticket) = mark_sent-Keeps clock wrote ticket l
step-Keeps l (Op.finishes clock wrote wrote_late ticket ambiguous) =
    finish-Keeps clock wrote wrote_late ticket ambiguous l
step-Keeps l (Op.stops wrote) = Keeps-halt l l (Keeps-self l)
step-Keeps l (Op.closes_episode clock wrote) = close_episode-Keeps clock wrote l
step-Keeps l Op.closes = (omega arith, λ h. refl)
