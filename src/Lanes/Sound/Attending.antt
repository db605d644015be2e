-- ===== src/Lanes/Sound/Attending.antt =====
-- `_attention`, `_close_parked` and a halt of experimental_model.py on a sound state.
use unrest.Base.{
  ℕ, ◌≤◌, ◌≡◌, refl, ap, ◌∙◌, arith, Bool, true, ◌||◌, List, [], ◌∷◌, String, some, length, is_some,
  any, All, map,
}
use unrest.Lanes.{
  Reason, Turn, Lane, Halt, State, ok, ◌>>=◌, sum_by, flag, is_active, active_count, parking_count,
  owner_count, turn_count, is_blocked, halted, validated,
}
use unrest.Lanes.Places.{get_elem?, All-get}
use unrest.Lanes.Steps.{
  lane_at, with_lane, replace, unparked, closed, close_parked, ended_turns, blocked_lane, attend,
}
use unrest.Lanes.Sound.{
  lane_ids, IsSoundLane, IsSound, All-halted, validated-ok, halted-blocked, with_lane-IsSound,
}
use unrest.Lanes.Sound.Lanes.{unparked-IsSoundLane, blocked-IsSoundLane, ended_turns-ok}

any-unparked : (ls : List Lane) → any is_blocked (map unparked ls) ≡ any is_blocked ls
any-unparked [] = refl
any-unparked (l ∷ ls) = ap (λ b. is_blocked l || b) (any-unparked ls)

pub halted-closed : (s : State) → halted (closed s) ≡ halted s
unfolding halted
halted-closed s = ap (λ b. is_some s.halt || b) (any-unparked s.lanes)

sum_by-unparked :
    (f : Lane → ℕ) (ls : List Lane)
    → ((l : Lane) → f (unparked l) ≤ f l)
    → sum_by f (map unparked ls) ≤ sum_by f ls
sum_by-unparked f [] le = omega arith
sum_by-unparked f (l ∷ ls) le = omega (arith, sum_by-unparked f ls le, le l)

pub lane_ids-unparked : (ls : List Lane) → lane_ids (map unparked ls) ≡ lane_ids ls
lane_ids-unparked [] = refl
lane_ids-unparked (l ∷ ls) = ap (λ (ids : List String). l.spec.id ∷ ids) (lane_ids-unparked ls)

All-unparked :
    (h : Bool) (ls : List Lane) → All (IsSoundLane h) ls → All (IsSoundLane true) (map unparked ls)
All-unparked h [] a = a
All-unparked h (l ∷ ls) a = (unparked-IsSoundLane h l a.0, All-unparked h ls a.1)

pub closed-IsSound : (s : State) → halted s ≡ true → IsSound s → IsSound (closed s)
unfolding active_count parking_count owner_count turn_count
closed-IsSound s stopped v = record {
  in_capacity = omega (arith, v.in_capacity, sum_by-unparked is_active s.lanes (λ l. omega arith));
  in_parking =
      omega
        (arith, v.in_parking, sum_by-unparked (λ l. l.parking_reserved) s.lanes (λ l. omega arith));
  one_owner =
      omega
        (arith, v.one_owner, sum_by-unparked (λ l. flag l.reuse_owner) s.lanes (λ l. omega arith));
  in_budget =
      omega (arith, v.in_budget, sum_by-unparked (λ l. length l.turns) s.lanes (λ l. omega arith));
  distinct_ids = rw (lane_ids-unparked s.lanes) v.distinct_ids;
  lanes_in = rw (halted-closed s ∙ stopped) (All-unparked (halted s) s.lanes v.lanes_in);
}

pub close_parked-ok :
    (s : State)
    → halted s ≡ true
    → IsSound s
    → (close_parked s ≡ ok (closed s)) × IsSound (closed s)
unfolding close_parked
close_parked-ok s stopped v =
    let v' = closed-IsSound s stopped v in (validated-ok (closed s) v', v')

pub lane_at-ok : (s : State) (i : ℕ) (l : Lane) → get_elem? s.lanes i ≡ some l → lane_at s i ≡ ok l
lane_at-ok s i l e = ground arith

attend_steps :
    (s s' s'' : State) (i : ℕ) (l : Lane) (ts : List Turn) (reason : Reason) (u : Bool)
    → lane_at s i ≡ ok l
    → ended_turns l u ≡ ok ts
    → replace s i (blocked_lane l ts reason) ≡ ok s'
    → close_parked s' ≡ ok s''
    → attend s i reason u ≡ ok s''
unfolding attend
attend_steps s s' s'' i l ts reason u a b c d = rw (a, b, c, d)

-- `_attention` on a lane of a sound state always ends in a sound state.
pub attend-ok :
    (s : State) (i : ℕ) (l : Lane) (reason : Reason) (u : Bool)
    → get_elem? s.lanes i ≡ some l
    → IsSound s
    → (ts : List Turn) × (ended_turns l u ≡ ok ts)
      × (attend s i reason u ≡ ok (closed (with_lane s i (blocked_lane l ts reason))))
      × IsSound (closed (with_lane s i (blocked_lane l ts reason)))
unfolding replace
attend-ok s i l reason u e v =
    let w = All-get (IsSoundLane (halted s)) s.lanes i l v.lanes_in e in
    let (ts, ends, same) = ended_turns-ok (halted s) l u w in
    let b = blocked_lane l ts reason in
    let stopped : halted (with_lane s i b) ≡ true = halted-blocked s i l b e refl in
    let v' : IsSound (with_lane s i b) =
      with_lane-IsSound s i l b true e v stopped (λ going. cc) (omega arith) (omega arith) refl refl
        (omega arith) (blocked-IsSoundLane (halted s) l ts reason w same) in
    let (closes, v'') = close_parked-ok (with_lane s i b) stopped v' in
    (
      ts,
      ends,
      attend_steps s (with_lane s i b) (closed (with_lane s i b)) i l ts reason u
          (lane_at-ok s i l e) ends (validated-ok (with_lane s i b) v') closes,
      v'',
    )

abbrev pub halt_with : State → Halt → State
halt_with s h = record s { halt = some h }

halt-IsSound : (s : State) (h : Halt) → IsSound s → IsSound (halt_with s h)
unfolding active_count parking_count owner_count turn_count halted
halt-IsSound s h v = record {
  in_capacity = v.in_capacity;
  in_parking = v.in_parking;
  one_owner = v.one_owner;
  in_budget = v.in_budget;
  distinct_ids = v.distinct_ids;
  lanes_in = All-halted (halted s) true s.lanes (λ going. cc) v.lanes_in;
}

-- The campaign is halted, and its parked sessions are closed.
pub halt_closed :
    (s : State) (h : Halt)
    → IsSound s
    → ((validated (halt_with s h) >>= close_parked) ≡ ok (closed (halt_with s h)))
      × IsSound (closed (halt_with s h))
unfolding halted
halt_closed s h v =
    let v' = halt-IsSound s h v in
    let (closes, v'') = close_parked-ok (halt_with s h) refl v' in
    (rw (validated-ok (halt_with s h) v') closes, v'')
