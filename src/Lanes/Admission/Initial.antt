-- ===== src/Lanes/Admission/Initial.antt =====
-- The state that `admit` of experimental_model.py returns.
use unrest.Base.{
  ℕ, suc, ◌≤◌, ◌≡◌, refl, sym, subst, ap, ◌∙◌, ◌⊎◌, inl, inr, arith, Bool, true, List, [], ◌∷◌,
  String, none, some, length, All, distinct, Option-cases,
}
use unrest.Lanes.{
  Reason, LaneSpec, Config, Lane, State, ok, sum_by, flag, is_active, active_count, parking_count,
  owner_count, turn_count, halted, validated,
}
use unrest.Lanes.Admission.{
  spec_ids, refusal_of, fresh_lane, lanes_from, initial_state, Admission, admit,
}
use unrest.Lanes.Sound.{lane_ids, IsSoundLane, IsSound, validated-ok}

fresh-IsSoundLane :
    (c : Config) (i : ℕ) (x : LaneSpec) (h : Bool) → IsSoundLane h (fresh_lane c i x)
fresh-IsSoundLane c i x h = record {
  turns_in = omega arith;
  generation_in = omega arith;
  names = refl;
  parked_in = omega arith;
  one_worker = omega arith;
  one_validator = omega arith;
  room = λ going. cc;
  no_room = λ unparked. refl;
  busy_phase = cc;
  flight = λ t. cc;
  judged = cc;
}

fresh-All :
    (c : Config) (i : ℕ) (specs : List LaneSpec) (h : Bool)
    → All (IsSoundLane h) (lanes_from c i specs)
fresh-All c i [] h = tt
fresh-All c i (x ∷ xs) h = (fresh-IsSoundLane c i x h, fresh-All c (suc i) xs h)

fresh-ids :
    (c : Config) (i : ℕ) (specs : List LaneSpec) → lane_ids (lanes_from c i specs) ≡ spec_ids specs
fresh-ids c i [] = refl
fresh-ids c i (x ∷ xs) = ap (λ (ids : List String). x.id ∷ ids) (fresh-ids c (suc i) xs)

fresh_sum :
    (f : Lane → ℕ) (c : Config) (i : ℕ) (specs : List LaneSpec)
    → ((i : ℕ) (x : LaneSpec) → f (fresh_lane c i x) ≡ 0)
    → sum_by f (lanes_from c i specs) ≡ 0
fresh_sum f c i [] h = refl
fresh_sum f c i (x ∷ xs) h = omega (arith, h i x, fresh_sum f c (suc i) xs h)

later_owner :
    (c : Config) (i : ℕ) (specs : List LaneSpec)
    → sum_by (λ l. flag l.reuse_owner) (lanes_from c (suc i) specs) ≡ 0
later_owner c i [] = refl
later_owner c i (x ∷ xs) = ground (arith, later_owner c (suc i) xs)

one_owner-fresh :
    (c : Config) (specs : List LaneSpec)
    → sum_by (λ l. flag l.reuse_owner) (lanes_from c 0 specs) ≤ 1
one_owner-fresh c [] = omega arith
one_owner-fresh c (x ∷ xs) = ground (arith, later_owner c 0 xs)

accepted_ids :
    (specs : List LaneSpec) (base : String) (clean isolated : Bool) (config : Config)
    → refusal_of specs base clean isolated config ≡ none
    → distinct (spec_ids specs) ≡ true
unfolding refusal_of
accepted_ids specs base clean isolated config h = ground arith

accepted_budget :
    (specs : List LaneSpec) (base : String) (clean isolated : Bool) (config : Config)
    → refusal_of specs base clean isolated config ≡ none
    → config.final_turns ≤ config.turn_budget
unfolding refusal_of
accepted_budget specs base clean isolated config h = ground arith

initial-IsSound :
    (specs : List LaneSpec) (base : String) (clean isolated : Bool) (config : Config)
    → refusal_of specs base clean isolated config ≡ none
    → IsSound (initial_state specs base config)
unfolding active_count parking_count owner_count turn_count
initial-IsSound specs base clean isolated config h = record {
  in_capacity = omega (arith, fresh_sum is_active config 0 specs (λ i x. refl));
  in_parking = omega (arith, fresh_sum (λ l. l.parking_reserved) config 0 specs (λ i x. refl));
  one_owner = one_owner-fresh config specs;
  in_budget = omega (
    arith,
    fresh_sum (λ l. length l.turns) config 0 specs (λ i x. refl),
    accepted_budget specs base clean isolated config h,
  );
  distinct_ids = rw (fresh-ids config 0 specs) (accepted_ids specs base clean isolated config h);
  lanes_in = fresh-All config 0 specs (halted (initial_state specs base config));
}

refused :
    (specs : List LaneSpec) (base : String) (clean isolated : Bool) (config : Config) (r : Reason)
    → refusal_of specs base clean isolated config ≡ some r
    → admit specs base clean isolated config ≡ ok (record { reason = some r; state = none })
unfolding admit
refused specs base clean isolated config r h = ground arith

accepted :
    (specs : List LaneSpec) (base : String) (clean isolated : Bool) (config : Config)
    → refusal_of specs base clean isolated config ≡ none
    → validated (initial_state specs base config) ≡ ok (initial_state specs base config)
    → admit specs base clean isolated config
      ≡ ok (record { reason = none; state = some (initial_state specs base config) })
unfolding admit
accepted specs base clean isolated config h v = ground arith

-- `admit` never raises: it refuses the plan with a reason and no state, or returns a sound state and
-- no reason.
pub admit-IsSound :
    (specs : List LaneSpec) (base : String) (clean isolated : Bool) (config : Config)
    → ((r : Reason) × (admit specs base clean isolated config
          ≡ ok (record { reason = some r; state = none })))
      ⊎ ((s : State) × (admit specs base clean isolated config
            ≡ ok (record { reason = none; state = some s }))
          × IsSound s)
admit-IsSound specs base clean isolated config =
    elim (Option-cases (refusal_of specs base clean isolated config)) [
      | inl none_holds ↦
          let v = initial-IsSound specs base clean isolated config none_holds in
          inr (
            initial_state specs base config,
            accepted specs base clean isolated config none_holds
                (validated-ok (initial_state specs base config) v),
            v,
          )
      | inr (r, holds) ↦ inl (r, refused specs base clean isolated config r holds)
    ]

pub admitted-IsSound :
    (specs : List LaneSpec) (base : String) (clean isolated : Bool) (config : Config)
    (a : Admission) (s : State)
    → admit specs base clean isolated config ≡ ok a
    → a.state ≡ some s
    → IsSound s
admitted-IsSound specs base clean isolated config a s h e =
    elim (admit-IsSound specs base clean isolated config) [
      | inl (r, refuses) ↦ no_state a s r (ok_inj _ a (sym refuses ∙ h)) e
      | inr (t, returns, v) ↦ subst IsSound (same_state a s t (ok_inj _ a (sym returns ∙ h)) e) v
    ]
  where
    ok_inj : (x y : Admission) → ok x ≡ ok y → x ≡ y
    ok_inj x y p = cc

    no_state :
        (a : Admission) (s : State) (r : Reason)
        → record { reason = some r; state = none } ≡ a
        → a.state ≡ some s
        → IsSound s
    no_state a s r p q = cc

    same_state :
        (a : Admission) (s t : State)
        → record { reason = none; state = some t } ≡ a
        → a.state ≡ some s
        → t ≡ s
    same_state a s t p q = cc
