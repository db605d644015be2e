-- ===== src/Lanes/Sound/Clock.antt =====
-- `advance` and `restart` of experimental_model.py on a sound state.
use unrest.Base.{
  ℕ, zero, suc, ◌+◌, ◌≤◌, ◌<◌, ◌≡◌, refl, sym, subst, ◌∙◌, arith, Bool, true, false, not, ◌&&◌,
  List, none, some, if◌then◌else◌, length, is_some, any, All, ltb, leb, Bool-cases, Option-cases,
  inl, inr,
}
use unrest.Lanes.{
  Reason, Turn, Lane, State, Result, ok, active_count, parking_count, owner_count, turn_count,
  halted, validated,
}
use unrest.Lanes.Places.{get_elem?, last, get_some, All-get, get_elem?-last, last-some}
use unrest.Lanes.Steps.{lane_at, unparked, attend}
use unrest.Lanes.Progress.{
  is_overdue, is_expired, expire, each, advance, is_final, interrupt, restart,
}
use unrest.Lanes.Sound.{IsSoundLane, IsSound, validated-ok}
use unrest.Lanes.Sound.Lanes.{some_turn}
use unrest.Lanes.Sound.Attending.{lane_at-ok}
use unrest.Lanes.Sound.Sweeping.{each_inv, IsSwept, attend-IsSwept, keep-IsSwept, All-IsSwept}

-- The turn in flight is before its deadline, and no parked session is an hour old.
pub record IsInTime (now : ℕ) (l : Lane) : Type 0 where
  pub before : (t : Turn) → is_some l.active ≡ true → last l.turns ≡ some t → now < t.deadline
  pub fresh : any (is_expired now) l.leases ≡ false

is_overdue-ok :
    {h : Bool} (now : ℕ) (l : Lane)
    → IsSoundLane h l
    → (b : Bool) × (is_overdue now l ≡ ok b)
      × (b ≡ false
          → (t : Turn) → is_some l.active ≡ true
          → last l.turns ≡ some t
          → now < t.deadline)
is_overdue-ok now l v = elim (Option-cases l.active) [
  | inl idle ↦ (false, ground arith, λ _ t busy is_last. absurd (ground arith))
  | inr (a, busy) ↦
      let (t, is_last) = last-some l.turns (some_turn _ l a v busy) in
      let at : get_elem? l.turns a ≡ some t =
        get_elem?-last l.turns a (ground (arith, v.names)) ∙ is_last in
      (
        leb t.deadline now,
        ground arith,
        λ early u going other.
            subst (λ (w : Turn). now < w.deadline) (one_turn t u l.turns is_last other)
              (ground (arith, early)),
      )
]
  where
    one_turn : (t u : Turn) (ts : List Turn) → last ts ≡ some t → last ts ≡ some u → t ≡ u
    one_turn t u ts p q = cc

expire_found :
    (now : ℕ) (s : State) (i : ℕ) (l : Lane) (late : Bool)
    → lane_at s i ≡ ok l
    → is_overdue now l ≡ ok late
    → expire now s i ≡ (
        if late
        then attend s i Reason.deadline false
        else if any (is_expired now) l.leases
        then attend s i Reason.expired false
        else ok s)
unfolding expire
expire_found now s i l late at told = rw (at, told)

module _ (now m : ℕ) where
  expire_case :
      (i : ℕ) (s : State) (l : Lane) (late : Bool)
      → get_elem? s.lanes i ≡ some l
      → ((k : Lane) → IsInTime now k → IsInTime now (unparked k))
      → IsSwept (IsInTime now) m now i s
      → (late ≡ false
          → (t : Turn) → is_some l.active ≡ true
          → last l.turns ≡ some t
          → now < t.deadline)
      → (s' : State) × ((if late
            then attend s i Reason.deadline false
            else if any (is_expired now) l.leases
            then attend s i Reason.expired false
            else ok s)
          ≡ ok s')
        × IsSwept (IsInTime now) m now (suc i) s'
  expire_case i s l true e keeps w before =
      attend-IsSwept (IsInTime now) m now i s l Reason.deadline false e keeps
        (λ ts. record { before = λ t busy. cc; fresh = refl }) w
  expire_case i s l false e keeps w before = elim (Bool-cases (any (is_expired now) l.leases)) [
    | inl old ↦ rw old (
        attend-IsSwept (IsInTime now) m now i s l Reason.expired false e keeps
          (λ ts. record { before = λ t busy. cc; fresh = refl }) w)
    | inr new ↦ rw new (
      s,
      refl,
      keep-IsSwept (IsInTime now) m now i s l e (record { before = before refl; fresh = new }) w,
    )
  ]

  expire-IsSwept :
      (i : ℕ) (s : State)
      → i < m
      → IsSwept (IsInTime now) m now i s
      → (s' : State) × (expire now s i ≡ ok s') × IsSwept (IsInTime now) m now (suc i) s'
  expire-IsSwept i s lt w =
      let (l, e) = get_some s.lanes i (omega (arith, w.size)) in
      let v = All-get (IsSoundLane (halted s)) s.lanes i l w.sound.lanes_in e in
      let (late, told, before) = is_overdue-ok now l v in
      let keeps : (k : Lane) → IsInTime now k → IsInTime now (unparked k) =
        λ k h. record { before = h.before; fresh = refl } in
      subst
        (λ (r : Result State). (s' : State) × (r ≡ ok s') × IsSwept (IsInTime now) m now (suc i) s')
        (sym (expire_found now s i l late (lane_at-ok s i l e) told))
        (expire_case i s l late e keeps w before)

clock-IsSound : (s : State) (now : ℕ) → IsSound s → IsSound (record s { now = now })
unfolding active_count parking_count owner_count turn_count halted
clock-IsSound s now v = record {
  in_capacity = v.in_capacity;
  in_parking = v.in_parking;
  one_owner = v.one_owner;
  in_budget = v.in_budget;
  distinct_ids = v.distinct_ids;
  lanes_in = v.lanes_in;
}

advance_steps :
    (s s' : State) (now : ℕ)
    → s.now ≤ now
    → validated (record s { now = now }) ≡ ok (record s { now = now })
    → each (expire now) (length s.lanes) 0 (record s { now = now }) ≡ ok s'
    → advance s now ≡ ok s'
unfolding advance
advance_steps s s' now le valid swept =
    let forward : ltb now s.now ≡ false = ground arith in rw (forward, valid) swept

-- `advance` to a time that is not in the past always ends, in a sound state at that time, and there
-- no turn in flight is at its deadline and no parked session is an hour old.
pub advance-IsInTime :
    (s : State) (now : ℕ)
    → IsSound s
    → s.now ≤ now
    → (s' : State) × (advance s now ≡ ok s')
      × IsSound s'
      × (s'.now ≡ now)
      × All (IsInTime now) s'.lanes
advance-IsInTime s now v le =
    let start : State = record s { now = now } in
    let sound = clock-IsSound s now v in
    let (s', swept, w) =
      each_inv (IsSwept (IsInTime now) (length s.lanes) now) (length s.lanes) (expire now)
        (expire-IsSwept now (length s.lanes)) (length s.lanes) 0 start (omega arith)
        (record {
          sound = sound;
          size = refl;
          clock_is = refl;
          swept = λ j l lt e. absurd (omega arith);
        }) in
    (
      s',
      advance_steps s s' now le (validated-ok start sound) swept,
      w.sound,
      w.clock_is,
      All-IsSwept (IsInTime now) (length s.lanes) now s' w,
    )

-- No turn is in flight, and a lane that was given one is passed or blocked.
pub record IsSettled (l : Lane) : Type 0 where
  pub idle : l.active ≡ none
  pub ended : l.admitted ≡ true → is_final l.phase ≡ true

interrupt_found :
    (s : State) (i : ℕ) (l : Lane)
    → lane_at s i ≡ ok l
    → interrupt s i ≡ (
        if is_some l.active
        then attend s i Reason.ambiguous_send true
        else if l.admitted && not (is_final l.phase)
        then attend s i Reason.restart false
        else ok s)
unfolding interrupt
interrupt_found s i l at = rw at

module _ (m clock : ℕ) where
  interrupt_case :
      (i : ℕ) (s : State) (l : Lane)
      → get_elem? s.lanes i ≡ some l
      → IsSwept IsSettled m clock i s
      → (s' : State) × ((if is_some l.active
            then attend s i Reason.ambiguous_send true
            else if l.admitted && not (is_final l.phase)
            then attend s i Reason.restart false
            else ok s)
          ≡ ok s')
        × IsSwept IsSettled m clock (suc i) s'
  interrupt_case i s l e w =
      let keeps : (k : Lane) → IsSettled k → IsSettled (unparked k) =
        λ k h. record { idle = h.idle; ended = h.ended } in
      elim (Bool-cases (is_some l.active)) [
        | inl busy ↦ rw busy (
            attend-IsSwept IsSettled m clock i s l Reason.ambiguous_send true e keeps
              (λ ts. record { idle = refl; ended = λ h. refl }) w)
        | inr idle ↦ rw idle (elim (Bool-cases (l.admitted && not (is_final l.phase))) [
          | inl begun ↦ rw begun (
              attend-IsSwept IsSettled m clock i s l Reason.restart false e keeps
                (λ ts. record { idle = refl; ended = λ h. refl }) w)
          | inr over ↦ rw over (
            s,
            refl,
            keep-IsSwept IsSettled m clock i s l e
                (record { idle = ground arith; ended = ground arith }) w,
          )
        ])
      ]

  interrupt-IsSwept :
      (i : ℕ) (s : State)
      → i < m
      → IsSwept IsSettled m clock i s
      → (s' : State) × (interrupt s i ≡ ok s') × IsSwept IsSettled m clock (suc i) s'
  interrupt-IsSwept i s lt w =
      let (l, e) = get_some s.lanes i (omega (arith, w.size)) in
      subst
        (λ (r : Result State). (s' : State) × (r ≡ ok s') × IsSwept IsSettled m clock (suc i) s')
        (sym (interrupt_found s i l (lane_at-ok s i l e))) (interrupt_case i s l e w)

-- `restart` always ends, in a sound state with no turn in flight, where each lane that was ever
-- given a turn has passed or is blocked.
pub restart-IsSettled :
    (s : State)
    → IsSound s
    → (s' : State) × (restart s ≡ ok s') × IsSound s' × All IsSettled s'.lanes
unfolding restart
restart-IsSettled s v =
    let (s', swept, w) =
      each_inv (IsSwept IsSettled (length s.lanes) s.now) (length s.lanes) interrupt
        (interrupt-IsSwept (length s.lanes) s.now) (length s.lanes) 0 s (omega arith)
        (record {
          sound = v;
          size = refl;
          clock_is = refl;
          swept = λ j l lt e. absurd (omega arith);
        }) in
    (s', swept, w.sound, All-IsSwept IsSettled (length s.lanes) s.now s' w)

settled_lane :
    (s : State) (l : Lane) (i : ℕ)
    → get_elem? s.lanes i ≡ some l
    → IsSettled l
    → interrupt s i ≡ ok s
unfolding interrupt
settled_lane s l i e h = rw (lane_at-ok s i l e) (ground (arith, h.idle, h.ended))

settled_round :
    (s : State)
    → All IsSettled s.lanes
    → (n i : ℕ) → n + i ≡ length s.lanes
    → each interrupt n i s ≡ ok s
settled_round s a zero i e = refl
settled_round s a (suc n) i e =
    let (l, at) = get_some s.lanes i (omega arith) in
    rw (settled_lane s l i at (All-get IsSettled s.lanes i l a at))
      (settled_round s a n (suc i) (omega arith))

-- A second restart changes nothing.
pub restart_self : (s s' : State) → IsSound s → restart s ≡ ok s' → restart s' ≡ ok s'
unfolding restart
restart_self s s' v e =
    let (t, returns, sound, settled) = restart-IsSettled s v in
    let same : t ≡ s' = cc in
    settled_round s' (subst (λ (u : State). All IsSettled u.lanes) same settled) (length s'.lanes) 0
      (omega arith)
