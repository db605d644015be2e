-- ===== src/Lanes/Lifecycle/Following.antt =====
-- Lists of lanes that follow one another along the life of a lane of experimental_model.py.
use unrest.Base.{
  ℕ, zero, suc, ◌≡◌, refl, subst, arith, Bool, true, false, List, [], ◌∷◌, none, some, String,
  Option-cases, inl, inr, if◌then◌else◌, map,
}
use unrest.Lanes.Sound.Attending.{lane_at-ok}
use unrest.Lanes.Sound.Answering.{index_of-cases}
use unrest.Lanes.{
  Phase, Reason, Turn, Lane, State, Refusal, Result, ok, err, ◌>>=◌, ◌>>◌, raise_if, validated,
  bounds,
}
use unrest.Lanes.Places.{get_elem?, set}
use unrest.Lanes.Steps.{
  lane_at, index_of, replace, with_lane, unparked, closed, close_parked, blocked_lane, attend,
  ended_turns,
}
use unrest.Lanes.Lifecycle.{view_of, Lives, here, next, block, rests, Lives_trans}

-- Each lane of the second list is a later state of the lane in its place in the first.
abbrev pub Follows : List Lane → List Lane → Type 0
Follows [] [] = Unit
Follows [] (y ∷ ys) = ⊥
Follows (x ∷ xs) [] = ⊥
Follows (x ∷ xs) (y ∷ ys) = Lives (view_of x) (view_of y) × Follows xs ys

pub Follows-refl : (xs : List Lane) → Follows xs xs
Follows-refl [] = tt
Follows-refl (x ∷ xs) = (here, Follows-refl xs)

pub Follows-trans : (xs ys zs : List Lane) → Follows xs ys → Follows ys zs → Follows xs zs
Follows-trans [] [] [] p q = tt
Follows-trans [] [] (z ∷ zs) p q = absurd q
Follows-trans [] (y ∷ ys) zs p q = absurd p
Follows-trans (x ∷ xs) [] zs p q = absurd p
Follows-trans (x ∷ xs) (y ∷ ys) [] p q = absurd q
Follows-trans (x ∷ xs) (y ∷ ys) (z ∷ zs) p q = (Lives_trans p.0 q.0, Follows-trans xs ys zs p.1 q.1)

lane_inj : (x y : Lane) → some x ≡ some y → x ≡ y
lane_inj x y e = cc

lane_back : (x a : Lane) → some a ≡ some x → x ≡ a
lane_back x a e = cc

pub Follows-get :
    (xs ys : List Lane) (i : ℕ) (x y : Lane)
    → Follows xs ys
    → get_elem? xs i ≡ some x
    → get_elem? ys i ≡ some y
    → Lives (view_of x) (view_of y)
Follows-get [] ys i x y f e h = cc
Follows-get (a ∷ as') [] i x y f e h = absurd f
Follows-get (a ∷ as') (b ∷ bs) zero x y f e h =
    subst (λ (l : Lane). Lives (view_of l) (view_of y)) (lane_inj a x e)
      (subst (λ (l : Lane). Lives (view_of a) (view_of l)) (lane_inj b y h) f.0)
Follows-get (a ∷ as') (b ∷ bs) (suc i) x y f e h = Follows-get as' bs i x y f.1 e h

pub Follows-unparked : (xs ys : List Lane) → Follows xs ys → Follows xs (map unparked ys)
Follows-unparked [] [] f = tt
Follows-unparked [] (y ∷ ys) f = absurd f
Follows-unparked (x ∷ xs) [] f = absurd f
Follows-unparked (x ∷ xs) (y ∷ ys) f = (f.0, Follows-unparked xs ys f.1)

-- The second list follows the first, but at index `i`, where it may hold any lane.
abbrev pub FollowsBut : ℕ → List Lane → List Lane → Type 0
FollowsBut i [] [] = Unit
FollowsBut i [] (y ∷ ys) = ⊥
FollowsBut i (x ∷ xs) [] = ⊥
FollowsBut zero (x ∷ xs) (y ∷ ys) = Follows xs ys
FollowsBut (suc i) (x ∷ xs) (y ∷ ys) = Lives (view_of x) (view_of y) × FollowsBut i xs ys

pub FollowsBut-refl : (i : ℕ) (xs : List Lane) → FollowsBut i xs xs
FollowsBut-refl i [] = tt
FollowsBut-refl zero (x ∷ xs) = Follows-refl xs
FollowsBut-refl (suc i) (x ∷ xs) = (here, FollowsBut-refl i xs)

pub FollowsBut-set :
    (i : ℕ) (xs ys : List Lane) (y : Lane) → FollowsBut i xs ys → FollowsBut i xs (set ys i y)
FollowsBut-set i [] [] y f = tt
FollowsBut-set i [] (b ∷ bs) y f = absurd f
FollowsBut-set i (a ∷ as') [] y f = absurd f
FollowsBut-set zero (a ∷ as') (b ∷ bs) y f = f
FollowsBut-set (suc i) (a ∷ as') (b ∷ bs) y f = (f.0, FollowsBut-set i as' bs y f.1)

pub Follows-set :
    (i : ℕ) (xs ys : List Lane) (x y : Lane)
    → FollowsBut i xs ys
    → get_elem? xs i ≡ some x
    → Lives (view_of x) (view_of y)
    → Follows xs (set ys i y)
Follows-set i [] ys x y f e v = cc
Follows-set i (a ∷ as') [] x y f e v = absurd f
Follows-set zero (a ∷ as') (b ∷ bs) x y f e v =
    (subst (λ (l : Lane). Lives (view_of l) (view_of y)) (lane_back x a e) v, f)
Follows-set (suc i) (a ∷ as') (b ∷ bs) x y f e v = (f.0, Follows-set i as' bs x y f.1 e v)

-- The result of a call, if it returns one, follows the lanes.
abbrev pub Traces : List Lane → Result State → Type 0
Traces xs (ok s) = Follows xs s.lanes
Traces xs (err e) = Unit

pub Traces-raise_if :
    (xs : List Lane) (b : Bool) (e : Refusal) (r : Result State)
    → (b ≡ false → Traces xs r)
    → Traces xs (raise_if b e >> r)
Traces-raise_if xs true e r f = tt
Traces-raise_if xs false e r f = f refl

pub Traces-if :
    (xs : List Lane) (b : Bool) (r q : Result State)
    → (b ≡ true → Traces xs r)
    → (b ≡ false → Traces xs q)
    → Traces xs (if b then r else q)
Traces-if xs true r q f g = f refl
Traces-if xs false r q f g = g refl

valid_or_not :
    (xs : List Lane) (s : State) (v : Result (Unit {0}))
    → Follows xs s.lanes
    → Traces xs (v >> ok s)
valid_or_not xs s (ok u) f = f
valid_or_not xs s (err e) f = tt

pub Traces-validated : (xs : List Lane) (s : State) → Follows xs s.lanes → Traces xs (validated s)
unfolding validated
Traces-validated xs s f = valid_or_not xs s (bounds s) f

pub Traces-closing :
    (xs : List Lane) (r : Result State) → Traces xs r → Traces xs (r >>= close_parked)
unfolding close_parked
Traces-closing xs (ok s) f = Traces-validated xs (closed s) (Follows-unparked xs s.lanes f)
Traces-closing xs (err e) f = tt

pub Traces-replace :
    (xs : List Lane) (s : State) (i : ℕ) (x y : Lane)
    → FollowsBut i xs s.lanes
    → get_elem? xs i ≡ some x
    → Lives (view_of x) (view_of y)
    → Traces xs (replace s i y)
unfolding replace
Traces-replace xs s i x y f e v =
    Traces-validated xs (with_lane s i y) (Follows-set i xs s.lanes x y f e v)

blocks :
    (x l : Lane) (ts : List Turn) (r : Reason)
    → x.generation ≡ l.generation
    → x.correction_reserved ≡ l.correction_reserved
    → Lives (view_of x) (view_of (blocked_lane l ts r))
blocks x l ts r e d =
    subst (λ (g : ℕ). Lives (view_of x) (rests Phase.attention g l.correction_reserved true)) e
      (subst (λ (c : Bool). Lives (view_of x) (rests Phase.attention x.generation c true)) d
        (next here (block _ _ _ _ _)))

pub Traces-attend :
    (xs : List Lane) (s : State) (i : ℕ) (x l : Lane) (reason : Reason) (u : Bool)
    → FollowsBut i xs s.lanes
    → get_elem? xs i ≡ some x
    → get_elem? s.lanes i ≡ some l
    → x.generation ≡ l.generation
    → x.correction_reserved ≡ l.correction_reserved
    → Traces xs (attend s i reason u)
unfolding attend
Traces-attend xs s i x l reason u f e at same mark =
    rw (lane_at-ok s i l at) (ended_or_not (ended_turns l u))
  where
    ended_or_not :
        (r : Result (List Turn))
        → Traces xs (r >>= λ ts. replace s i (blocked_lane l ts reason) >>= close_parked)
    ended_or_not (ok ts) =
        Traces-closing xs (replace s i (blocked_lane l ts reason))
          (Traces-replace xs s i x (blocked_lane l ts reason) f e (blocks x l ts reason same mark))
    ended_or_not (err e') = tt

pub Traces-after :
    (xs ys : List Lane) (r : Result State) → Follows xs ys → Traces ys r → Traces xs r
Traces-after xs ys (ok s) f t = Follows-trans xs ys s.lanes f t
Traces-after xs ys (err e) f t = tt

valid_bind :
    (xs : List Lane) (s : State) (v : Result (Unit {0})) (k : State → Result State)
    → Traces xs (k s)
    → Traces xs ((v >> ok s) >>= k)
valid_bind xs s (ok u) k t = t
valid_bind xs s (err e) k t = tt

pub Traces-replaced :
    (xs : List Lane) (s : State) (i : ℕ) (y : Lane) (k : State → Result State)
    → Traces xs (k (with_lane s i y))
    → Traces xs (replace s i y >>= k)
unfolding replace validated
Traces-replaced xs s i y k t = valid_bind xs (with_lane s i y) (bounds (with_lane s i y)) k t

pub Traces-named :
    (s : State) (id : String) (k : ℕ → Lane → Result State)
    → ((i : ℕ) (l : Lane) → get_elem? s.lanes i ≡ some l → Traces s.lanes (k i l))
    → Traces s.lanes (index_of s id >>= λ i. lane_at s i >>= λ l. k i l)
Traces-named s id k traces = elim (index_of-cases s id) [
  | inl unknown ↦ rw unknown tt
  | inr (i, l, found, e) ↦ rw (found, lane_at-ok s i l e) (traces i l e)
]

lane_at-none :
    (s : State) (i : ℕ) → get_elem? s.lanes i ≡ none → lane_at s i ≡ err Refusal.index_error
lane_at-none s i gone = ground arith

pub Traces-at :
    (s : State) (i : ℕ) (k : Lane → Result State)
    → ((l : Lane) → get_elem? s.lanes i ≡ some l → Traces s.lanes (k l))
    → Traces s.lanes (lane_at s i >>= k)
Traces-at s i k traces = elim (Option-cases (get_elem? s.lanes i)) [
  | inl gone ↦ rw (lane_at-none s i gone) tt
  | inr (l, e) ↦ rw (lane_at-ok s i l e) (traces l e)
]
