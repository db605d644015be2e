-- ===== src/Ledger/Budget.antt =====
-- src/unrest_harness/experimental_lease.py: the budget of the ledger, and the operations that reserve.
use unrest.Base.{
  ◌≡◌, refl, ap, ℕ, suc, ◌+◌, ◌≤◌, Bool, true, false, not, ◌&&◌, ◌||◌, List, [], ◌∷◌, String,
  Option, none, some, arith, ◌==◌, eq_iff, if◌then◌else◌, contains, is_some, Dict, find, find_or,
  put, find-put, leb, length, minus,
}
use unrest.Ledger.{
  TurnStatus, Turn, TurnIdentity, PilotLedger, is_active, maximum, total, active, check, Outcome,
  claim_session, release_session, bind_session, admit, is_episode, halt, appended,
}
use unrest.Ledger.Turns.{reservable, with_turn, reserved_ledger}

pub total-put : (k : String) (n : ℕ) (d : Dict ℕ) → total (put k n d) + find_or 0 k d ≡ total d + n
unfolding total put find
total-put k n [] = omega arith
total-put k n ((j, m) ∷ d) = ground (arith, total-put k n d)

abbrev pub weight : TurnStatus → ℕ
weight s = if is_active s then 1 else 0

abbrev pub old_weight : Option Turn → ℕ
old_weight none = 0
old_weight (some t) = weight t.status

pub active-put :
    (k : String) (t : Turn) (d : Dict Turn)
    → active (put k t d) + old_weight (find k d) ≡ active d + weight t.status
unfolding active put find
active-put k t [] = ground arith
active-put k t ((j, u) ∷ d) = ground (arith, active-put k t d)

-- No more than 24 turns are counted and no more than the maximum of each episode; no more turns are
-- underway than the capacity, which is at most 4; and in an open episode the two final turns are still
-- within its maximum, as far as they are not taken.
pub record WithinBudget (l : PilotLedger) : Type 0 where
  pub campaign : total l.counts ≤ 24
  pub episodes : (e : String) → find_or 0 e l.counts ≤ maximum e
  pub underway : active l.turns ≤ l.capacity
  pub few : l.capacity ≤ 4
  pub finals : l.final_count ≤ 2
  pub finals_fit :
      (e : String) → l.episode ≡ some e → find_or 0 e l.counts + 2 ≤ maximum e + l.final_count

-- Which sessions there are, and whether the ledger is halted or open, is no matter of the budget.
pub within-sets :
    (l : PilotLedger) (leases sessions : List String) (halted is_open : Bool)
    → WithinBudget l
    → WithinBudget
        (record l { leases = leases; sessions = sessions; halted = halted; is_open = is_open })
within-sets l leases sessions halted is_open w = record {
  campaign = w.campaign;
  episodes = w.episodes;
  underway = w.underway;
  few = w.few;
  finals = w.finals;
  finals_fit = w.finals_fit;
}

pub within-halt : (l : PilotLedger) → WithinBudget l → WithinBudget (halt l)
within-halt l w = within-sets l l.leases l.sessions true l.is_open w

pub within-if :
    {A : Type 0} (b : Bool) (x y : PilotLedger × A)
    → (b ≡ true → WithinBudget x.0)
    → (b ≡ false → WithinBudget y.0)
    → WithinBudget (if b then x else y).0
within-if true x y h k = h refl
within-if false x y h k = k refl

pub within-appended :
    {A : Type 0} (wrote : Bool) (before after : PilotLedger) (value : A)
    → WithinBudget before
    → WithinBudget after
    → WithinBudget (appended wrote before after value).0
within-appended true before after value w v = v
within-appended false before after value w v = within-halt before w

pub within-check : (n m : ℕ) (l : PilotLedger) → WithinBudget l → WithinBudget (check n m l).0
unfolding check
within-check n m l w =
    within-if (l.halted || leb (l.started + 5400) n) (l, false) _ (λ e. w)
      (λ e.
        within-if (is_some l.episode && leb (l.episode_started + 1800) m) (halt l, false) (l, true)
          (λ g. within-halt l w) (λ g. w))

-- An operation that begins with `_check` and leaves the budget alone otherwise.
pub within-checked :
    {A : Type 0} (n m : ℕ) (l : PilotLedger) (answer : Outcome A)
    → WithinBudget l
    → WithinBudget answer.0
    → WithinBudget (if not (check n m l).1 then ((check n m l).0, none) else answer).0
within-checked n m l answer w v =
    within-if (not (check n m l).1) ((check n m l).0, none) answer (λ e. within-check n m l w)
      (λ e. v)

pub claim_session-within :
    (clock : ℕ → ℕ) (handle : String) (l : PilotLedger)
    → WithinBudget l
    → WithinBudget (claim_session clock handle l).0
unfolding claim_session
claim_session-within clock handle l w = within-checked (clock 0) (clock 1) l _ w (
    within-if (leb 4 (length l.leases)) (l, none) _ (λ e. w)
      (λ e.
        within-sets l (if contains handle l.leases then l.leases else handle ∷ l.leases) l.sessions
          l.halted l.is_open w))

pub release_session-within :
    (handle : String) (l : PilotLedger) → WithinBudget l → WithinBudget (release_session handle l).0
unfolding release_session
release_session-within handle l w =
    within-if (contains handle l.leases) _ (l, none)
      (λ e. within-sets l (minus l.leases (handle ∷ [])) l.sessions l.halted l.is_open w) (λ e. w)

pub bind_session-within :
    (clock : ℕ → ℕ) (wrote : Bool) (session : String) (l : PilotLedger)
    → WithinBudget l
    → WithinBudget (bind_session clock wrote session l).0
unfolding bind_session
bind_session-within clock wrote session l w = within-checked (clock 0) (clock 1) l _ w (
    within-if (session == "" || contains session l.sessions) (l, none) _ (λ e. w)
      (λ e.
        within-appended wrote l (record l { sessions = session ∷ l.sessions }) tt w
          (within-sets l l.leases (session ∷ l.sessions) l.halted l.is_open w)))

is_episode-maximum : (e : String) → is_episode e ≡ true → 4 ≤ maximum e
unfolding is_episode maximum
is_episode-maximum e h = ground arith

admitted-within :
    (episode : String) (now : ℕ) (l : PilotLedger)
    → WithinBudget l
    → is_episode episode ≡ true
    → is_some (find episode l.counts) ≡ false
    → WithinBudget (record l {
      episode = some episode;
      episode_started = now;
      counts = put episode 0 l.counts;
      final_count = 0;
    })
admitted-within episode now l w known new = record {
  campaign = ground (arith, w.campaign, total-put episode 0 l.counts);
  episodes = λ e. ground (arith, w.episodes e, find-put episode e 0 l.counts);
  underway = w.underway;
  few = w.few;
  finals = omega arith;
  finals_fit = λ e same.
      let here : episode ≡ e = cc in
      ground (
        arith,
        here,
        find-put episode e 0 l.counts,
        eq_iff episode e,
        is_episode-maximum episode known,
        ap (λ (s : String). maximum s),
      );
}

pub admit-within :
    (clock : ℕ → ℕ) (wrote : Bool) (episode : String) (l : PilotLedger)
    → WithinBudget l
    → WithinBudget (admit clock wrote episode l).0
unfolding admit
admit-within clock wrote episode l w = within-checked (clock 0) (clock 1) l _ w (
    within-if (not (is_episode episode) || (is_some (find episode l.counts) || is_some l.episode))
      (l, none) _ (λ e. w)
      (λ e.
        within-appended wrote l _ tt w
          (admitted-within episode (clock 2) l w (ground arith) (ground arith))))

active-with_turn :
    (ticket : String) (deadline : ℕ) (is_final : Bool) (turns : Dict Turn)
    → active (with_turn ticket deadline is_final turns) ≤ suc (active turns)
unfolding with_turn
active-with_turn ticket deadline is_final turns =
    let one : Turn = record { deadline = deadline; status = TurnStatus.reserved } in
    let mark : Turn = record { deadline = deadline; status = TurnStatus.final } in
    ground
      (arith, active-put ticket one turns, active-put "final-phase" mark (put ticket one turns))

pub reserved-within :
    (identity : TurnIdentity) (is_final : Bool) (ticket : String) (deadline : ℕ) (episode : String)
    (l : PilotLedger)
    → WithinBudget l
    → l.episode ≡ some episode
    → reservable identity is_final episode l ≡ true
    → WithinBudget (reserved_ledger identity is_final ticket deadline episode l)
unfolding reserved_ledger reservable
reserved-within identity is_final ticket deadline episode l w opened r = record {
  campaign =
      ground (arith, r, w.campaign, total-put episode (suc (find_or 0 episode l.counts)) l.counts);
  episodes = λ e. ground (
    arith,
    r,
    w.episodes e,
    find-put episode e (suc (find_or 0 episode l.counts)) l.counts,
    eq_iff episode e,
    ap (λ (s : String). maximum s),
  );
  underway = ground (arith, r, active-with_turn ticket deadline is_final l.turns);
  few = w.few;
  finals = ground (arith, r, w.finals);
  finals_fit = λ e same.
      let here : episode ≡ e = cc in
      ground (
        arith,
        r,
        here,
        w.finals_fit episode opened,
        find-put episode e (suc (find_or 0 episode l.counts)) l.counts,
        eq_iff episode e,
        ap (λ (s : String). maximum s),
      );
}
