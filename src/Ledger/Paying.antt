-- ===== src/Ledger/Paying.antt =====
-- src/unrest_harness/experimental_lease.py: `reserve` and the number of turns.
use unrest.Base.{
  ◌≡◌, refl, ◌∙◌, ℕ, suc, ◌+◌, min, Bool, Bool-cases, true, false, not, String, Option,
  Option-cases, inl, inr, none, some, arith, if◌then◌else◌, find_or, leb,
}
use unrest.Ledger.{TurnIdentity, PilotLedger, Outcome, total, check, appended}
use unrest.Ledger.Turns.{
  available, turn_deadline, reservable, reserved_ledger, reserve_in, reserve, at_most,
}
use unrest.Ledger.Budget.{total-put}

-- What an outcome says of the turns: a ticket is paid with one turn.
abbrev Pays : PilotLedger → Outcome String → Type 0
Pays l o = (t : String) → o.1 ≡ some t → total o.0.counts ≡ suc (total l.counts)

Pays-if :
    (l : PilotLedger) (b : Bool) (x y : Outcome String)
    → (b ≡ true → Pays l x)
    → (b ≡ false → Pays l y)
    → Pays l (if b then x else y)
Pays-if l true x y h k = h refl
Pays-if l false x y h k = k refl

Pays-none : (l m : PilotLedger) → Pays l (m, none)
Pays-none l m t h = cc

reserved_ledger-pays :
    (identity : TurnIdentity) (is_final : Bool) (ticket : String) (deadline : ℕ) (episode : String)
    (l : PilotLedger)
    → total (reserved_ledger identity is_final ticket deadline episode l).counts
      ≡ suc (total l.counts)
unfolding reserved_ledger
reserved_ledger-pays identity is_final ticket deadline episode l =
    omega (arith, total-put episode (suc (find_or 0 episode l.counts)) l.counts)

Pays-appended :
    (wrote : Bool) (l after : PilotLedger) (ticket : String)
    → total after.counts ≡ suc (total l.counts)
    → Pays l (appended wrote l after ticket)
Pays-appended true l after ticket e t h = e
Pays-appended false l after ticket e t h = cc

reserve_in-Pays :
    (clock : ℕ → ℕ) (wrote : Bool) (identity : TurnIdentity) (is_final : Bool) (limit : Option ℕ)
    (ticket episode : String) (l : PilotLedger)
    → Pays l (reserve_in clock wrote identity is_final limit ticket episode l)
unfolding reserve_in turn_deadline
reserve_in-Pays clock wrote identity is_final limit ticket episode l =
    elim (Bool-cases (check (clock 2) (clock 3) l).1) [
      | inl ok ↦
          let current = min (min (clock 4 + 300) (l.started + 5400)) (l.episode_started + 1800) in
          let deadline = at_most limit current in
          let after = reserved_ledger identity is_final ticket deadline episode l in
          rw (ok, reserve_in, turn_deadline)
            (Pays-if l (leb deadline (clock 5)) (l, none) (appended wrote l after ticket)
              (λ e. Pays-none l l)
              (λ e.
                Pays-appended wrote l after ticket
                  (reserved_ledger-pays identity is_final ticket deadline episode l)))
      | inr bad ↦ rw (bad, reserve_in, turn_deadline) (Pays-none l (turn_deadline clock l).0)
    ]

reserve-Pays :
    (clock : ℕ → ℕ) (wrote : Bool) (identity : TurnIdentity) (is_final : Bool) (limit : Option ℕ)
    (ticket : String) (l : PilotLedger)
    → Pays l (reserve clock wrote identity is_final limit ticket l)
unfolding reserve
reserve-Pays clock wrote identity is_final limit ticket l =
    Pays-if l (not (available clock is_final l).1) ((available clock is_final l).0, none) _
      (λ e. Pays-none l (available clock is_final l).0)
      (λ e. elim (Option-cases l.episode) [
        | inl closed ↦ rw closed (Pays-none l l)
        | inr (episode, opened) ↦ rw opened (
            Pays-if l (reservable identity is_final episode l) _ (l, none)
              (λ r. reserve_in-Pays clock wrote identity is_final limit ticket episode l)
              (λ r. Pays-none l l))
      ])

check-live : (n m : ℕ) (l : PilotLedger) → (check n m l).1 ≡ true → l.halted ≡ false
unfolding check
check-live n m l h = ground (arith, h)

live_if :
    (l : PilotLedger) (ok : Bool) (checked : PilotLedger) (o : Outcome String) (t : String)
    → (if not ok then (checked, none) else o).1 ≡ some t
    → ok ≡ true
live_if l true checked o t h = refl
live_if l false checked o t h = cc

available-live :
    (clock : ℕ → ℕ) (is_final : Bool) (l : PilotLedger)
    → (available clock is_final l).1 ≡ true
    → (check (clock 0) (clock 1) l).1 ≡ true
unfolding available
available-live clock is_final l h = elim (Bool-cases (check (clock 0) (clock 1) l).1) [
  | inl ok ↦ ok
  | inr bad ↦ bad ∙ (rw bad at h)
]

-- A reservation that gives a ticket is made in a ledger that is not halted, and counts one turn more.
reserve-spends :
    (clock : ℕ → ℕ) (wrote : Bool) (identity : TurnIdentity) (is_final : Bool) (limit : Option ℕ)
    (ticket t : String) (l : PilotLedger)
    → (reserve clock wrote identity is_final limit ticket l).1 ≡ some t
    → (l.halted ≡ false)
      × (total (reserve clock wrote identity is_final limit ticket l).0.counts
          ≡ suc (total l.counts))
unfolding reserve
reserve-spends clock wrote identity is_final limit ticket t l h = (
  check-live (clock 0) (clock 1) l (
      available-live clock is_final l
        (live_if l (available clock is_final l).1 (available clock is_final l).0 _ t h)),
  reserve-Pays clock wrote identity is_final limit ticket l t h,
)
