-- ===== src/Lanes/Lifecycle/Reserved.antt =====
-- `reserve_next` of experimental_model.py, and the life of a lane.
use unrest.Base.{
  ℕ, zero, suc, ◌-◌, ◌≡◌, refl, subst, arith, Bool, true, false, ◌&&◌, ◌||◌, List, [], ◌∷◌, String,
  none, some, if◌then◌else◌, length, is_some, any, All, leb, min, is_none, is_empty,
}
use unrest.Lanes.{
  Reason, Lane, Halt, State, ok, ◌>>=◌, is_blocked, halted, validated, active_count, turn_count,
}
use unrest.Lanes.Places.{get_elem?}
use unrest.Lanes.Steps.Ready.{priority, is_idle, ready}
use unrest.Lanes.Steps.{
  lane_at, replace, index_of, attend, is_correction, is_recheck, needs_parking, crowded, lease_of,
  role_of, reserved_lane, reserve_lane, reserve_first, reserve_next, close_parked,
}
use unrest.Lanes.Sound.{IsSound}
use unrest.Lanes.Sound.Attending.{halt_with, lane_at-ok}
use unrest.Lanes.Sound.Finding.{IsReady, ready-IsReady}
use unrest.Lanes.Lifecycle.{View, view_of, begun, rests, begin, Lives, here, next}
use unrest.Lanes.Lifecycle.Following.{
  Follows-refl, FollowsBut-refl, Traces, Traces-if, Traces-validated, Traces-closing,
  Traces-replace, Traces-attend,
}

pub view_rests :
    (l : Lane) (b : Bool)
    → l.active ≡ none
    → is_blocked l ≡ b
    → rests l.phase l.generation l.correction_reserved b ≡ view_of l
view_rests l b idle e = ground arith

unblocked :
    (ls : List Lane) (i : ℕ) (l : Lane)
    → any is_blocked ls ≡ false
    → get_elem? ls i ≡ some l
    → is_blocked l ≡ false
unblocked [] i l h e = cc
unblocked (x ∷ xs) zero l h e =
    subst (λ (y : Lane). is_blocked y ≡ false) (same_lane x l e) (ground arith)
  where
    same_lane : (x l : Lane) → some x ≡ some l → x ≡ l
    same_lane x l e = cc
unblocked (x ∷ xs) (suc i) l h e = unblocked xs i l (ground arith) e

reserved-Lives :
    (s : State) (l : Lane)
    → l.active ≡ none
    → is_blocked l ≡ false
    → is_some (priority l.phase) ≡ true
    → (is_correction l.phase && l.correction_reserved) ≡ false
    → Lives (view_of l) (view_of (reserved_lane s l))
unfolding reserved_lane
reserved-Lives s l idle free eligible fresh =
    let marked = l.correction_reserved || is_correction l.phase in
    subst (λ (v : View). Lives (view_of l) v) (began (reserved_lane s l) (length l.turns) refl free)
      (subst (λ (v : View). Lives v (begun l.phase l.generation marked false))
        (view_rests l false idle free)
        (next here (begin l.phase l.generation l.correction_reserved eligible fresh)))
  where
    began :
        (k : Lane) (a : ℕ)
        → k.active ≡ some a
        → is_blocked k ≡ false
        → begun k.phase k.generation k.correction_reserved false ≡ view_of k
    began k a busy free = ground arith

reserve_lane-Traces :
    (s : State) (i : ℕ) (l : Lane)
    → get_elem? s.lanes i ≡ some l
    → is_idle l ≡ true
    → is_blocked l ≡ false
    → Traces s.lanes (reserve_lane s i l)
unfolding reserve_lane reserved_lane
reserve_lane-Traces s i l e idle free =
    let base = FollowsBut-refl i s.lanes in
    Traces-if s.lanes (leb 6 (length l.turns) || (is_correction l.phase && l.correction_reserved))
      (attend s i Reason.extra_generation false) _
      (λ over. Traces-attend s.lanes s i l l Reason.extra_generation false base e e refl refl)
      (λ within.
        Traces-if s.lanes
          (needs_parking l
            && ((is_correction l.phase || is_recheck l.phase)
                && is_none (lease_of (role_of l.phase) l.leases)))
          (attend s i Reason.expired false) (replace s i (reserved_lane s l))
          (λ lost. Traces-attend s.lanes s i l l Reason.expired false base e e refl refl)
          (λ kept'. Traces-replace s.lanes s i l (reserved_lane s l) base e (
            reserved-Lives s l (ground (arith, idle)) free (ground (arith, idle))
              (ground (arith, within)))))

reserve_first_step :
    (s : State) (id : String) (ids : List String) (i : ℕ) (l : Lane)
    → index_of s id ≡ ok i
    → lane_at s i ≡ ok l
    → (if crowded s l then reserve_first s ids else reserve_lane s i l) ≡ reserve_first s (id ∷ ids)
unfolding reserve_first
reserve_first_step s id ids i l found at = rw (found, at)

reserve_first-Traces :
    (s : State) (ids : List String)
    → any is_blocked s.lanes ≡ false
    → All (IsReady s) ids
    → Traces s.lanes (reserve_first s ids)
unfolding reserve_first
reserve_first-Traces s [] free a = Follows-refl s.lanes
reserve_first-Traces s (id ∷ ids) free (r, more) =
    subst (Traces s.lanes)
      (reserve_first_step s id ids r.index r.lane r.found (lane_at-ok s r.index r.lane r.stands))
      (Traces-if s.lanes (crowded s r.lane) (reserve_first s ids) (reserve_lane s r.index r.lane)
        (λ full. reserve_first-Traces s ids free more)
        (λ room.
          reserve_lane-Traces s r.index r.lane r.stands r.idle
            (unblocked s.lanes r.index r.lane free r.stands)))

pub halt_closed-Traces :
    (s : State) (h : Halt) → Traces s.lanes (validated (halt_with s h) >>= close_parked)
halt_closed-Traces s h =
    Traces-closing s.lanes (validated (halt_with s h))
      (Traces-validated s.lanes (halt_with s h) (Follows-refl s.lanes))

none_blocked : (s : State) → halted s ≡ false → any is_blocked s.lanes ≡ false
unfolding halted
none_blocked s h = ground arith

pub reserve_next-Traces : (s : State) → IsSound s → Traces s.lanes (reserve_next s)
unfolding reserve_next
reserve_next-Traces s v =
    let stay : Traces s.lanes (ok s) = Follows-refl s.lanes in
    Traces-if s.lanes (halted s || leb (min s.config.capacity 4) (active_count s)) (ok s) _
      (λ pressed. stay)
      (λ going.
        Traces-if s.lanes (is_empty (ready s)) (ok s) _ (λ idle. stay)
          (λ some_ready.
            Traces-if s.lanes (leb (s.config.turn_budget - s.config.final_turns) (turn_count s))
              (validated (halt_with s Halt.budget) >>= close_parked) (reserve_first s (ready s))
              (λ spent. halt_closed-Traces s Halt.budget)
              (λ left.
                reserve_first-Traces s (ready s) (none_blocked s (ground (arith, going)))
                  (ready-IsReady s v))))
