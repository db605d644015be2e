-- ===== src/Lanes/Sound/Answering.antt =====
-- `transmission` and `complete` of experimental_model.py, the calls that name a lane and a turn.
use unrest.Base.{
  ℕ, suc, ◌+◌, ◌≡◌, refl, sym, subst, ap, ◌∙◌, arith, Bool, true, false, not, ◌&&◌, List, [], ◌∷◌,
  String, none, some, ◌⊎◌, ◌==◌, Option-cases, Bool-cases, inl, inr,
}
use unrest.Lanes.{
  Reason, TurnStatus, TurnOutcome, Turn, Lane, State, Refusal, Result, ok, err, ◌>>=◌, halted,
}
use unrest.Lanes.Places.{
  get_elem?, last, get_elem?-set, get_elem?-last, last-some, last-set_last, length-set_last,
}
use unrest.Lanes.Steps.{lane_at, turn_at, with_lane, replace, index_from, index_of, attend}
use unrest.Lanes.Progress.{
  Transmission, is_ordinal, with_turn, transmit, is_uncertain, is_sent, transmit_turn,
  transmission_at, transmission, is_acked, is_pass, is_foreign, completed_lane, settle,
  complete_turn, complete_at, complete,
}
use unrest.Lanes.Sound.{
  IsFlight, IsSoundLane, IsSound, validated-ok, Returns, Answers, Answers-Returns, Answers-raise_if,
  Answers-if,
}
use unrest.Lanes.Sound.Lanes.{some_turn, with_turn-IsSoundLane, completed-IsSoundLane}
use unrest.Lanes.Sound.Attending.{lane_at-ok}
use unrest.Lanes.Sound.Reserving.{attend-Returns, replace-Returns}
use unrest.Lanes.Sound.Completing.{changed-IsSound, sound_lane, settle-Returns}

-- The turn that a lane has in flight is its last.
pub turn_at-ok :
    {h : Bool} (l : Lane) (n : ℕ)
    → IsSoundLane h l
    → is_ordinal l.active n ≡ true
    → (t : Turn) × (turn_at l n ≡ ok t) × (last l.turns ≡ some t) × (l.active ≡ some n)
turn_at-ok {h} l n v named =
    let busy : l.active ≡ some n = ground arith in
    let (t, is_last) = last-some l.turns (some_turn h l n v busy) in
    (t, turn_found l n t v busy is_last, is_last, busy)
  where
    turn_found :
        (l : Lane) (n : ℕ) (t : Turn)
        → IsSoundLane h l
        → l.active ≡ some n
        → last l.turns ≡ some t
        → turn_at l n ≡ ok t
    turn_found l n t v busy is_last = ground (arith, v.names, get_elem?-last l.turns n)

complete_turn_steps :
    (s s' : State) (i : ℕ) (l : Lane) (t : Turn) (o : TurnOutcome)
    → is_foreign t.phase o ≡ false
    → replace s i (completed_lane s l t o) ≡ ok s'
    → complete_turn s i l t o ≡ settle s' i (completed_lane s l t o) t o
unfolding complete_turn
complete_turn_steps s s' i l t o own first = rw (own, first)

completed_idle :
    (s : State) (l : Lane) (t : Turn) (o : TurnOutcome) → (completed_lane s l t o).active ≡ none
unfolding completed_lane
completed_idle s l t o = refl

pub complete_turn-Returns :
    (s : State) (i : ℕ) (l : Lane) (t : Turn) (o : TurnOutcome) (n : ℕ)
    → get_elem? s.lanes i ≡ some l
    → IsSound s
    → l.active ≡ some n
    → last l.turns ≡ some t
    → is_foreign t.phase o ≡ false
    → Returns (complete_turn s i l t o)
unfolding replace completed_lane
complete_turn-Returns s i l t o n e v busy is_last own =
    let c = completed_lane s l t o in
    let w = sound_lane s i l e v in
    let done : Turn = record t { status = TurnStatus.completed; outcome = some o } in
    let f : IsFlight l.phase l.candidate l.spec.targets t = w.flight t (ground arith) is_last in
    let v' : IsSound (with_lane s i c) =
      changed-IsSound s i l e v c refl (omega arith) (omega arith) refl refl
        (omega (arith, length-set_last l.turns done (some_turn (halted s) l n w busy)))
        (completed-IsSoundLane s l t o n w busy is_last) in
    subst Returns
      (sym
        (complete_turn_steps s (with_lane s i c) i l t o own (validated-ok (with_lane s i c) v')))
      (settle-Returns (with_lane s i c) i c t o (get_elem?-set s.lanes i l c e) v' refl
        (λ validation passes. record {
          turn = done;
          is_last = last-set_last l.turns done;
          by_validator = validation;
          has_completed = refl;
          has_passed = passing o passes;
          candidate_is = f.candidate_is;
          targets_are = f.targets_are;
        }))
  where
    passing : (o : TurnOutcome) → is_pass o ≡ true → some o ≡ some TurnOutcome.pass
    passing TurnOutcome.pass h = refl
    passing _ h = cc

complete_turn_foreign :
    (s : State) (i : ℕ) (l : Lane) (t : Turn) (o : TurnOutcome)
    → is_foreign t.phase o ≡ true
    → complete_turn s i l t o ≡ err Refusal.role_outcome
unfolding complete_turn
complete_turn_foreign s i l t o foreign = rw foreign

complete_turn-Answers :
    (s : State) (i : ℕ) (l : Lane) (t : Turn) (o : TurnOutcome) (n : ℕ)
    → get_elem? s.lanes i ≡ some l
    → IsSound s
    → l.active ≡ some n
    → last l.turns ≡ some t
    → Answers (complete_turn s i l t o)
complete_turn-Answers s i l t o n e v busy is_last = elim (Bool-cases (is_foreign t.phase o)) [
  | inl foreign ↦ subst Answers (sym (complete_turn_foreign s i l t o foreign)) refl
  | inr own ↦ Answers-Returns _ (complete_turn-Returns s i l t o n e v busy is_last own)
]

complete_at-Answers :
    (s : State) (i : ℕ) (l : Lane) (n : ℕ) (o : TurnOutcome)
    → get_elem? s.lanes i ≡ some l
    → IsSound s
    → Answers (complete_at s i l n o)
unfolding complete_at
complete_at-Answers s i l n o e v =
    Answers-raise_if (not (is_ordinal l.active n)) Refusal.unacknowledged_turn _ refl (λ named.
      let (t, at, is_last, busy) = turn_at-ok l n (sound_lane s i l e v) (ground (arith, named)) in
      rw at (
        Answers-raise_if (not (is_acked t.status)) Refusal.unacknowledged_turn _ refl
          (λ acked. complete_turn-Answers s i l t o n e v busy is_last)))

-- `_index` finds a lane, or refuses.
index_from-cases :
    (ls : List Lane) (k : ℕ) (id : String)
    → (index_from k ls id ≡ err Refusal.unknown_lane)
      ⊎ ((j : ℕ) × (l : Lane) × (index_from k ls id ≡ ok (k + j)) × (get_elem? ls j ≡ some l))
unfolding index_from
index_from-cases [] k id = inl refl
index_from-cases (x ∷ xs) k id = elim (Bool-cases (x.spec.id == id)) [
  | inl here ↦ inr (0, x, rw here (ap ok (omega arith)), refl)
  | inr there ↦ elim (index_from-cases xs (suc k) id) [
    | inl unknown ↦ inl (rw there unknown)
    | inr (j, l, found, e) ↦ inr (suc j, l, rw there (found ∙ ap ok (omega arith)), e)
  ]
]

pub index_of-cases :
    (s : State) (id : String)
    → (index_of s id ≡ err Refusal.unknown_lane)
      ⊎ ((i : ℕ) × (l : Lane) × (index_of s id ≡ ok i) × (get_elem? s.lanes i ≡ some l))
unfolding index_of
index_of-cases s id = elim (index_from-cases s.lanes 0 id) [
  | inl unknown ↦ inl unknown
  | inr (j, l, found, e) ↦ inr (j, l, found ∙ ap ok (omega arith), e)
]

-- A call that names its lane answers if it does so at the lane found.
pub Answers-named :
    (s : State) (id : String) (k : ℕ → Lane → Result State)
    → ((i : ℕ) (l : Lane) → get_elem? s.lanes i ≡ some l → Answers (k i l))
    → Answers (index_of s id >>= λ i. lane_at s i >>= λ l. k i l)
Answers-named s id k answers = elim (index_of-cases s id) [
  | inl unknown ↦ rw unknown refl
  | inr (i, l, found, e) ↦ rw (found, lane_at-ok s i l e) (answers i l e)
]

-- `complete` refuses its caller by name, or returns a sound state.
pub complete-Answers :
    (s : State) (id : String) (n : ℕ) (o : TurnOutcome) → IsSound s → Answers (complete s id n o)
unfolding complete
complete-Answers s id n o v =
    Answers-named s id (λ i l. complete_at s i l n o) (λ i l e. complete_at-Answers s i l n o e v)

transmitted-IsSound :
    (s : State) (i : ℕ) (l : Lane) (t : Turn) (n : ℕ) (next : TurnStatus)
    → get_elem? s.lanes i ≡ some l
    → IsSound s
    → l.active ≡ some n
    → last l.turns ≡ some t
    → IsSound (with_lane s i (with_turn l (record t { status = next })))
transmitted-IsSound s i l t n next e v busy is_last =
    let w = sound_lane s i l e v in
    let f : IsFlight l.phase l.candidate l.spec.targets t = w.flight t (ground arith) is_last in
    let t' : Turn = record t { status = next } in
    changed-IsSound s i l e v (with_turn l t') refl (omega arith) (omega arith) refl refl
      (omega (arith, length-set_last l.turns t' (some_turn (halted s) l n w busy)))
      (with_turn-IsSoundLane (halted s) l t' n w busy (record {
        phase_is = f.phase_is;
        candidate_is = f.candidate_is;
        targets_are = f.targets_are;
      }))

transmit_turn-Answers :
    (s : State) (i : ℕ) (l : Lane) (t : Turn) (n : ℕ) (status : Transmission)
    → get_elem? s.lanes i ≡ some l
    → IsSound s
    → l.active ≡ some n
    → last l.turns ≡ some t
    → Answers (transmit_turn s i l t status)
unfolding transmit_turn
transmit_turn-Answers s i l t n status e v busy is_last =
    elim (Option-cases (transmit t.status status)) [
      | inl refused ↦ rw (refused, transmit_turn) refl
      | inr (next, allowed) ↦
          rw (allowed, transmit_turn)
            (Answers-if (is_sent status && halted s) (err Refusal.dispatch_halted) _
              (λ stopped. refl)
              (λ going. Answers-Returns _ (
                replace-Returns s i (with_turn l (record t { status = next }))
                  (transmitted-IsSound s i l t n next e v busy is_last))))
    ]

transmission_at-Answers :
    (s : State) (i : ℕ) (l : Lane) (n : ℕ) (status : Transmission)
    → get_elem? s.lanes i ≡ some l
    → IsSound s
    → Answers (transmission_at s i l n status)
unfolding transmission_at
transmission_at-Answers s i l n status e v =
    Answers-raise_if (not (is_ordinal l.active n)) Refusal.inactive_turn _ refl (λ named.
      let (t, at, is_last, busy) = turn_at-ok l n (sound_lane s i l e v) (ground (arith, named)) in
      rw at (
        Answers-if (is_uncertain status) (attend s i Reason.ambiguous_send true)
          (transmit_turn s i l t status)
          (λ lost. Answers-Returns _ (attend-Returns s i l Reason.ambiguous_send true e v))
          (λ told. transmit_turn-Answers s i l t n status e v busy is_last)))

-- `transmission` refuses its caller by name, or returns a sound state.
pub transmission-Answers :
    (s : State) (id : String) (n : ℕ) (status : Transmission)
    → IsSound s
    → Answers (transmission s id n status)
unfolding transmission
transmission-Answers s id n status v =
    Answers-named s id (λ i l. transmission_at s i l n status)
      (λ i l e. transmission_at-Answers s i l n status e v)
