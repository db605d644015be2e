-- ===== src/Lanes/Admission/Scopes.antt =====
-- The write scopes of a plan that `admit` of experimental_model.py accepts.
use unrest.Base.{
  ℕ, zero, suc, ◌<◌, ◌≡◌, refl, sym, ap, ◌∙◌, subst, arith, Bool, true, false, ◌||◌, List, [], ◌∷◌,
  ◌++◌, String, none, some, any, codes,
}
use unrest.Lanes.{LaneSpec, Config, Lane, State, ok}
use unrest.Lanes.Places.{get_elem?}
use unrest.Lanes.Admission.{
  slash, same_codes, has_prefix, is_under, overlaps, any_overlap, paths_of, refusal_of, lanes_from,
  initial_state, Admission, admit,
}

-- The path is the scope itself, or stands below it.
unfoldable pub covers : String → String → Bool
covers p scope = same_codes (codes scope) (codes p) || is_under p scope

same_codes-eq : (xs ys : List ℕ) → same_codes xs ys ≡ true → xs ≡ ys
same_codes-eq [] [] h = refl
same_codes-eq (x ∷ xs) (y ∷ ys) h = ground (arith, same_codes-eq xs ys)
same_codes-eq [] (y ∷ ys) h = cc
same_codes-eq (x ∷ xs) [] h = cc

same_codes_refl : (xs : List ℕ) → same_codes xs xs ≡ true
same_codes_refl [] = refl
same_codes_refl (x ∷ xs) = ground (arith, same_codes_refl xs)

-- Two directories above one path are the same, or one is above the other.
prefixes_meet :
    (as' bs ps : List ℕ)
    → has_prefix (as' ++ slash ∷ []) ps ≡ true
    → has_prefix (bs ++ slash ∷ []) ps ≡ true
    → (same_codes as' bs
        || (has_prefix (bs ++ slash ∷ []) as' || has_prefix (as' ++ slash ∷ []) bs))
      ≡ true
prefixes_meet [] [] ps h k = refl
prefixes_meet [] (b ∷ bs) [] h k = cc
prefixes_meet [] (b ∷ bs) (p ∷ ps) h k = ground arith
prefixes_meet (a ∷ as') [] [] h k = cc
prefixes_meet (a ∷ as') [] (p ∷ ps) h k = ground arith
prefixes_meet (a ∷ as') (b ∷ bs) [] h k = cc
prefixes_meet (a ∷ as') (b ∷ bs) (p ∷ ps) h k = ground (arith, prefixes_meet as' bs ps)

-- Two scopes of one path overlap.
pub overlaps-covers : (p a b : String) → covers p a ≡ true → covers p b ≡ true → overlaps a b ≡ true
unfolding covers overlaps
overlaps-covers p a b h k = ground (
  arith,
  same_codes-eq (codes a) (codes p),
  same_codes-eq (codes b) (codes p),
  same_codes_refl (codes p),
  prefixes_meet (codes a) (codes b) (codes p),
)

any-append : (q : String → Bool) (xs ys : List String) → any q (xs ++ ys) ≡ (any q xs || any q ys)
any-append q [] ys = refl
any-append q (x ∷ xs) ys = ground (arith, any-append q xs ys)

any_overlap-append : (xs ys : List String) → any_overlap (xs ++ ys) ≡ false → any_overlap ys ≡ false
unfolding any_overlap
any_overlap-append [] ys h = h
any_overlap-append (x ∷ xs) ys h = any_overlap-append xs ys (ground arith)

uncovered :
    (p x : String) (ys : List String)
    → covers p x ≡ true
    → any (overlaps x) ys ≡ false
    → any (covers p) ys ≡ false
uncovered p x [] h k = refl
uncovered p x (y ∷ ys) h k = ground (arith, uncovered p x ys h, overlaps-covers p x y h)

apart :
    (p : String) (xs ys : List String)
    → any_overlap (xs ++ ys) ≡ false
    → any (covers p) xs ≡ true
    → any (covers p) ys ≡ false
unfolding any_overlap
apart p [] ys h k = cc
apart p (x ∷ xs) ys h k =
    ground (arith, apart p xs ys, uncovered p x ys, any-append (overlaps x) xs ys)

some_inj : (x y : LaneSpec) → some x ≡ some y → x ≡ y
some_inj x y e = cc

lane_inj : (x y : Lane) → some x ≡ some y → x ≡ y
lane_inj x y e = cc

none_at :
    (q : String → Bool) (specs : List LaneSpec) (j : ℕ) (b : LaneSpec)
    → any q (paths_of specs) ≡ false
    → get_elem? specs j ≡ some b
    → any q b.writes ≡ false
none_at q [] j b h e = cc
none_at q (x ∷ xs) zero b h e =
    let same : x ≡ b = some_inj x b e in
    subst (λ (t : LaneSpec). any q t.writes ≡ false) same
      (ground (arith, any-append q x.writes (paths_of xs)))
none_at q (x ∷ xs) (suc j) b h e =
    none_at q xs j b (ground (arith, any-append q x.writes (paths_of xs))) e

scopes_apart :
    (p : String) (specs : List LaneSpec) (i j : ℕ) (a b : LaneSpec)
    → any_overlap (paths_of specs) ≡ false
    → i < j
    → get_elem? specs i ≡ some a
    → get_elem? specs j ≡ some b
    → any (covers p) a.writes ≡ true
    → any (covers p) b.writes ≡ false
scopes_apart p [] i j a b h lt e f c = cc
scopes_apart p (x ∷ xs) i zero a b h lt e f c = absurd (omega arith)
scopes_apart p (x ∷ xs) zero (suc j) a b h lt e f c =
    let same : x ≡ a = some_inj x a e in
    let held : any (covers p) x.writes ≡ true =
      subst (λ (t : LaneSpec). any (covers p) t.writes ≡ true) (sym same) c in
    none_at (covers p) xs j b (apart p x.writes (paths_of xs) h held) f
scopes_apart p (x ∷ xs) (suc i) (suc j) a b h lt e f c =
    scopes_apart p xs i j a b (any_overlap-append x.writes (paths_of xs) h) (omega arith) e f c

spec_at :
    (c : Config) (k : ℕ) (specs : List LaneSpec) (i : ℕ) (l : Lane)
    → get_elem? (lanes_from c k specs) i ≡ some l
    → get_elem? specs i ≡ some l.spec
spec_at c k [] i l e = cc
spec_at c k (x ∷ xs) zero l e = ap some (ap (λ (t : Lane). t.spec) (lane_inj _ l e))
spec_at c k (x ∷ xs) (suc i) l e = spec_at c (suc k) xs i l e

-- A plan that is not refused.
admitted_apart :
    (specs : List LaneSpec) (base : String) (clean isolated : Bool) (config : Config)
    → refusal_of specs base clean isolated config ≡ none
    → any_overlap (paths_of specs) ≡ false
unfolding refusal_of
admitted_apart specs base clean isolated config h = ground arith

admitted_state :
    (specs : List LaneSpec) (base : String) (clean isolated : Bool) (config : Config)
    (a : Admission) (s : State)
    → admit specs base clean isolated config ≡ ok a
    → a.state ≡ some s
    → (refusal_of specs base clean isolated config ≡ none) × (s ≡ initial_state specs base config)
unfolding admit
admitted_state specs base clean isolated config a s h e = ground arith

-- In the state of an admitted plan, no path that one lane may write lies in the write scope of a
-- later lane.
pub admit-apart :
    (specs : List LaneSpec) (base : String) (clean isolated : Bool) (config : Config)
    (a : Admission) (s : State) (i j : ℕ) (l k : Lane) (p : String)
    → admit specs base clean isolated config ≡ ok a
    → a.state ≡ some s
    → i < j
    → get_elem? s.lanes i ≡ some l
    → get_elem? s.lanes j ≡ some k
    → any (covers p) l.spec.writes ≡ true
    → any (covers p) k.spec.writes ≡ false
admit-apart specs base clean isolated config a s i j l k p h e lt at_l at_k c =
    let (accepted, same) = admitted_state specs base clean isolated config a s h e in
    let lanes : s.lanes ≡ lanes_from config 0 specs = ap (λ (t : State). t.lanes) same in
    scopes_apart p specs i j l.spec k.spec
      (admitted_apart specs base clean isolated config accepted) lt
      (spec_at config 0 specs i l (ap (λ (ls : List Lane). get_elem? ls i) (sym lanes) ∙ at_l))
      (spec_at config 0 specs j k (ap (λ (ls : List Lane). get_elem? ls j) (sym lanes) ∙ at_k)) c
