-- ===== src/Lanes/Sound/Finding.antt =====
-- `_index` and `ready` of experimental_model.py: identities and positions of lanes.
use unrest.Base.{
  ℕ, zero, suc, ◌+◌, ◌≡◌, refl, ap, ◌∙◌, arith, Bool, true, List, [], ◌∷◌, String, some, contains,
  distinct, select, map, All, eq_iff, Bool-cases, inl, inr,
}
use unrest.Lanes.{Lane, State, ok, halted}
use unrest.Lanes.Places.{get_elem?}
use unrest.Lanes.Steps.Ready.{
  enumerated, is_idle, is_eligible, precedes, place, ordered, eligible, ready,
}
use unrest.Lanes.Steps.{index_from, index_of}
use unrest.Lanes.Sound.{IsSound, lane_ids}

first_some : (x l : Lane) → some x ≡ some l → x ≡ l
first_some x l e = cc

contains-lane_ids :
    (ls : List Lane) (j : ℕ) (l : Lane)
    → get_elem? ls j ≡ some l
    → contains l.spec.id (lane_ids ls) ≡ true
contains-lane_ids [] j l e = cc
contains-lane_ids (x ∷ xs) zero l e =
    let named : x.spec.id ≡ l.spec.id = ap (λ (l : Lane). l.spec.id) (first_some x l e) in
    ground (arith, eq_iff l.spec.id x.spec.id)
contains-lane_ids (x ∷ xs) (suc j) l e = ground (arith, contains-lane_ids xs j l e)

-- Identities are distinct, so `_index` finds the lane that was meant.
pub index_from-ok :
    (ls : List Lane) (k j : ℕ) (l : Lane)
    → distinct (lane_ids ls) ≡ true
    → get_elem? ls j ≡ some l
    → index_from k ls l.spec.id ≡ ok (k + j)
unfolding index_from
index_from-ok [] k j l d e = cc
index_from-ok (x ∷ xs) k zero l d e =
    let named : x.spec.id ≡ l.spec.id = ap (λ (l : Lane). l.spec.id) (first_some x l e) in
    ground (arith, eq_iff x.spec.id l.spec.id)
index_from-ok (x ∷ xs) k (suc j) l d e = ground (
  arith,
  index_from-ok xs (suc k) j l,
  contains-lane_ids xs j l e,
  eq_iff x.spec.id l.spec.id,
  ap (λ (id : String). contains id (lane_ids xs)),
)

-- The pair is a lane with its position, and the lane may be given a turn.
abbrev IsPlaced : List Lane → ℕ → ℕ × Lane → Type 0
IsPlaced ls k a = (j : ℕ) × (a.0 ≡ k + j) × (get_elem? ls j ≡ some a.1)

shifted :
    (x : Lane) (ls : List Lane) (k : ℕ) (xs : List (ℕ × Lane))
    → All (IsPlaced ls (suc k)) xs
    → All (IsPlaced (x ∷ ls) k) xs
shifted x ls k [] a = a
shifted x ls k (y ∷ ys) ((j, at, e), more) = ((suc j, omega arith, e), shifted x ls k ys more)

enumerated-IsPlaced : (k : ℕ) (ls : List Lane) → All (IsPlaced ls k) (enumerated k ls)
enumerated-IsPlaced k [] = tt
enumerated-IsPlaced k (l ∷ ls) = (
  (0, omega arith, refl),
  shifted l ls k (enumerated (suc k) ls) (enumerated-IsPlaced (suc k) ls),
)

module _ (P : ℕ × Lane → Type 0) where
  selected-All :
      (p : ℕ × Lane → Bool) (xs : List (ℕ × Lane))
      → All P xs
      → All (λ a. P a × (p a ≡ true)) (select p xs)
  selected-All p [] a = tt
  selected-All p (x ∷ xs) a = elim (Bool-cases (p x)) [
    | inl holds ↦ rw holds ((a.0, holds), selected-All p xs a.1)
    | inr fails ↦ rw fails (selected-All p xs a.1)
  ]

  place-All : (a : ℕ × Lane) (xs : List (ℕ × Lane)) → P a → All P xs → All P (place a xs)
  unfolding place
  place-All a [] h hs = (h, tt)
  place-All a (x ∷ xs) h hs = elim (Bool-cases (precedes a x)) [
    | inl first ↦ rw first (h, hs)
    | inr later ↦ rw later (hs.0, place-All a xs h hs.1)
  ]

  ordered-All : (xs : List (ℕ × Lane)) → All P xs → All P (ordered xs)
  unfolding ordered
  ordered-All [] hs = tt
  ordered-All (x ∷ xs) hs = place-All x (ordered xs) hs.0 (ordered-All xs hs.1)

-- A text that names an eligible lane of the state.
pub record IsReady (s : State) (id : String) : Type 0 where
  pub index : ℕ
  pub lane : Lane
  pub found : index_of s id ≡ ok index
  pub stands : get_elem? s.lanes index ≡ some lane
  pub idle : is_idle lane ≡ true

named :
    (s : State) (xs : List (ℕ × Lane))
    → IsSound s
    → All (λ a. IsPlaced s.lanes 0 a × (is_eligible s a.1 ≡ true)) xs
    → All (IsReady s) (map (λ (a : ℕ × Lane). a.1.spec.id) xs)
unfolding index_of
named s [] v a = tt
named s (x ∷ xs) v (((j, at, e), ready'), more) = (
  record {
    index = j;
    lane = x.1;
    found = index_from-ok s.lanes 0 j x.1 v.distinct_ids e ∙ ap ok (omega arith);
    stands = e;
    idle = ground (arith, ready');
  },
  named s xs v more,
)

pub ready-IsReady : (s : State) → IsSound s → All (IsReady s) (ready s)
unfolding ready
ready-IsReady s v = elim (Bool-cases (halted s)) [
  | inl stopped ↦ rw stopped tt
  | inr going ↦ rw going (
      named s (ordered (eligible s)) v (
        ordered-All (λ a. IsPlaced s.lanes 0 a × (is_eligible s a.1 ≡ true)) (eligible s)
          (selected-All (IsPlaced s.lanes 0) (λ a. is_eligible s a.1) (enumerated 0 s.lanes)
            (enumerated-IsPlaced 0 s.lanes))))
]
