-- ===== src/Lanes/Sound/Reserving.antt =====
-- `reserve_next` of experimental_model.py on a sound state.
use unrest.Base.{
  ℕ, ◌+◌, ◌-◌, ◌≤◌, ◌<◌, ◌≡◌, refl, sym, subst, arith, min, Bool, true, false, ◌&&◌, ◌||◌, List, [],
  ◌∷◌, String, some, if◌then◌else◌, length, is_none, is_empty, All, leb, length-append,
}
use unrest.Lanes.{
  Reason, Lane, Halt, State, Result, ok, ◌>>=◌, flag, is_active, active_count, parking_count,
  owner_count, turn_count, halted, validated,
}
use unrest.Lanes.Places.{get_elem?, All-get, All-set, sum_by-set}
use unrest.Lanes.Steps.Ready.{is_idle, ready}
use unrest.Lanes.Steps.{
  lane_at, with_lane, replace, index_of, lease_of, role_of, closed, attend, is_correction,
  is_recheck, needs_parking, crowded, reserved_lane, next_turn, reserve_lane, reserve_first,
  reserve_next, close_parked,
}
use unrest.Lanes.Sound.{IsSoundLane, IsSound, lane_ids-set, validated-ok, halted-with_lane, Returns}
use unrest.Lanes.Sound.Lanes.{reserved-IsSoundLane}
use unrest.Lanes.Sound.Attending.{attend-ok, lane_at-ok, halt_with, halt_closed}
use unrest.Lanes.Sound.Finding.{IsReady, ready-IsReady}

pub Returns-if :
    (b : Bool) (r q : Result State)
    → (b ≡ true → Returns r)
    → (b ≡ false → Returns q)
    → Returns (if b then r else q)
Returns-if true r q f g = f refl
Returns-if false r q f g = g refl

pub attend-Returns :
    (s : State) (i : ℕ) (l : Lane) (reason : Reason) (u : Bool)
    → get_elem? s.lanes i ≡ some l
    → IsSound s
    → Returns (attend s i reason u)
attend-Returns s i l reason u e v =
    let (ts, ends, returns, sound) = attend-ok s i l reason u e v in
    record { state = _; returns = returns; sound = sound }

pub replace-Returns :
    (s : State) (i : ℕ) (l : Lane) → IsSound (with_lane s i l) → Returns (replace s i l)
unfolding replace
replace-Returns s i l v = record {
  state = with_lane s i l;
  returns = validated-ok (with_lane s i l) v;
  sound = v;
}

-- A turn is reserved where a turn, a place in flight and a place to park are left.
module _ (s : State) (i : ℕ) (l : Lane) (e : get_elem? s.lanes i ≡ some l) (v : IsSound s) where
  reserved-IsSound :
      is_idle l ≡ true
      → active_count s < min s.config.capacity 4
      → turn_count s + s.config.final_turns < s.config.turn_budget
      → crowded s l ≡ false
      → length l.turns ≤ 5
      → IsSound (with_lane s i (reserved_lane s l))
  unfolding active_count parking_count owner_count turn_count crowded reserved_lane
  reserved-IsSound idle capacity budget uncrowded few =
      let new = reserved_lane s l in
      let same : halted (with_lane s i new) ≡ halted s = halted-with_lane s i l new e refl in
      let w = All-get (IsSoundLane (halted s)) s.lanes i l v.lanes_in e in
      record {
        in_capacity = omega (arith, sum_by-set is_active s.lanes i l new e);
        in_parking =
            ground (arith, v.in_parking, sum_by-set (λ l. l.parking_reserved) s.lanes i l new e);
        one_owner =
            omega (arith, v.one_owner, sum_by-set (λ l. flag l.reuse_owner) s.lanes i l new e);
        in_budget = omega (
          arith,
          sum_by-set (λ l. length l.turns) s.lanes i l new e,
          length-append l.turns (next_turn s l ∷ []),
        );
        distinct_ids = rw (lane_ids-set s.lanes i l new e refl) v.distinct_ids;
        lanes_in = rw same (
            All-set (IsSoundLane (halted s)) s.lanes i new v.lanes_in
              (reserved-IsSoundLane s l w (ground (arith, idle)) (ground (arith, idle)) few));
      }

  reserve_lane-Returns :
      is_idle l ≡ true
      → active_count s < min s.config.capacity 4
      → turn_count s + s.config.final_turns < s.config.turn_budget
      → crowded s l ≡ false
      → Returns (reserve_lane s i l)
  unfolding reserve_lane
  reserve_lane-Returns idle capacity budget uncrowded =
      Returns-if (leb 6 (length l.turns) || (is_correction l.phase && l.correction_reserved))
        (attend s i Reason.extra_generation false) _
        (λ over. attend-Returns s i l Reason.extra_generation false e v)
        (λ within.
          Returns-if
            (needs_parking l
              && ((is_correction l.phase || is_recheck l.phase)
                  && is_none (lease_of (role_of l.phase) l.leases)))
            (attend s i Reason.expired false) (replace s i (reserved_lane s l))
            (λ lost. attend-Returns s i l Reason.expired false e v)
            (λ kept.
              replace-Returns s i (reserved_lane s l)
                (reserved-IsSound idle capacity budget uncrowded (ground (arith, within)))))

pub halt_closed-Returns :
    (s : State) (h : Halt) → IsSound s → Returns (validated (halt_with s h) >>= close_parked)
halt_closed-Returns s h v =
    let (returns, sound) = halt_closed s h v in
    record { state = closed (halt_with s h); returns = returns; sound = sound }

reserve_first_found :
    (s : State) (id : String) (ids : List String) (i : ℕ) (l : Lane)
    → index_of s id ≡ ok i
    → lane_at s i ≡ ok l
    → reserve_first s (id ∷ ids) ≡ (if crowded s l then reserve_first s ids else reserve_lane s i l)
unfolding reserve_first
reserve_first_found s id ids i l found at = rw (found, at)

reserve_first-Returns :
    (s : State) (ids : List String)
    → IsSound s
    → active_count s < min s.config.capacity 4
    → turn_count s + s.config.final_turns < s.config.turn_budget
    → All (IsReady s) ids
    → Returns (reserve_first s ids)
unfolding reserve_first
reserve_first-Returns s [] v capacity budget named = record { state = s; returns = refl; sound = v }
reserve_first-Returns s (id ∷ ids) v capacity budget (r, more) =
    subst Returns
      (sym (
        reserve_first_found s id ids r.index r.lane r.found (lane_at-ok s r.index r.lane r.stands)))
      (Returns-if (crowded s r.lane) (reserve_first s ids) (reserve_lane s r.index r.lane)
        (λ full. reserve_first-Returns s ids v capacity budget more)
        (λ free. reserve_lane-Returns s r.index r.lane r.stands v r.idle capacity budget free))

-- `reserve_next` never raises: neither the bounds of the state nor an index can fail, and the state
-- that it returns is sound again.
pub reserve_next-Returns : (s : State) → IsSound s → Returns (reserve_next s)
unfolding reserve_next
reserve_next-Returns s v =
    let unchanged : Returns (ok s) = record { state = s; returns = refl; sound = v } in
    Returns-if (halted s || leb (min s.config.capacity 4) (active_count s)) (ok s) _
      (λ pressed. unchanged)
      (λ going.
        Returns-if (is_empty (ready s)) (ok s) _ (λ idle. unchanged)
          (λ some_ready.
            Returns-if (leb (s.config.turn_budget - s.config.final_turns) (turn_count s))
              (validated (halt_with s Halt.budget) >>= close_parked) (reserve_first s (ready s))
              (λ spent. halt_closed-Returns s Halt.budget v)
              (λ left.
                reserve_first-Returns s (ready s) v (ground (arith, going))
                  (ground (arith, left, v.in_budget)) (ready-IsReady s v))))
