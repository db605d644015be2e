-- ===== src/Coordinator/Gates/Currency.antt =====
-- src/unrest_harness/coordinator.py: `_current_validators_by_target`.
use unrest.Base.{
  ◌≡◌, refl, ap, ◌↔◌, Bool, Bool-cases, inl, inr, true, false, not, ◌&&◌, ◌||◌, List, [], ◌∷◌,
  String, arith, ◌==◌, eq_iff, if◌then◌else◌, contains, contains-select, is_empty, select, ℕ, ◌<◌,
  ◌≤◌, All, map, concat_map, contains-append, ltb, distinct,
}
use unrest.Model.Task.{Task, TaskList, TaskStateFile}
use unrest.Validation.Fields.{ids_of}
use unrest.Validation.Graph.Acyclic.{IsRanked, check_acyclic-IsRanked}
use unrest.Validation.Graph.{check_acyclic}
use unrest.Coordinator.Search.{downstream_of}
use unrest.Coordinator.Search.Exact.{Reached, search_down_exact}
use unrest.Coordinator.Gates.{candidates, dominated, current_validators}

pub select-known :
    (p : Task → Bool) (tasks : List Task) (id : String)
    → contains id (ids_of (select p tasks)) ≡ true
    → contains id (ids_of tasks) ≡ true
select-known p [] id h = h
select-known p (t ∷ ts) id h = ground (arith, select-known p ts id)

rises-deps :
    (rank : String → ℕ) (ids : List String) (id y x : String) (deps : List String)
    → contains y ids ≡ true
    → All (λ dep. contains dep ids ≡ true → rank dep < rank id) deps
    → contains x (map (λ dep. id) (select (λ dep. dep == y) deps)) ≡ true
    → rank y < rank x
rises-deps rank ids id y x [] k h c = cc
rises-deps rank ids id y x (d ∷ ds) k h c = ground (
  arith,
  rises-deps rank ids id y x ds k h.1,
  h.0,
  eq_iff d y,
  eq_iff x id,
  ap (λ (s : String). contains s ids),
  ap (λ (s : String). rank s),
)

rises-tasks :
    (rank : String → ℕ) (ids : List String) (y x : String) (tasks : List Task)
    → contains y ids ≡ true
    → All (λ t. All (λ dep. contains dep ids ≡ true → rank dep < rank t.id) t.depends_on) tasks
    → contains x (concat_map (λ t. map (λ dep. t.id) (select (λ dep. dep == y) t.depends_on)) tasks)
      ≡ true
    → rank y < rank x
rises-tasks rank ids y x [] k h c = cc
rises-tasks rank ids y x (t ∷ ts) k h c =
    let here = map (λ dep. t.id) (select (λ dep. dep == y) t.depends_on) in
    let later = concat_map (λ t. map (λ dep. t.id) (select (λ dep. dep == y) t.depends_on)) ts in
    ground (
      arith,
      rises-tasks rank ids y x ts k h.1,
      rises-deps rank ids t.id y x t.depends_on k h.0,
      contains-append x here later,
    )

downstream-rises :
    (rank : String → ℕ) (tasks : List Task)
    → IsRanked rank tasks
    → (y x : String) → contains x (downstream_of tasks y) ≡ true
    → rank y < rank x
unfolding downstream_of
downstream-rises rank tasks ranked y x c = elim (Bool-cases (contains y (ids_of tasks))) [
  | inl k ↦ rises-tasks rank (ids_of tasks) y x tasks k ranked (ground (arith, c, k))
  | inr k ↦ ground (arith, c, k)
]

-- The text of the highest rank among some texts and one more.
abbrev highest : (String → ℕ) → String → List String → String
highest rank top [] = top
highest rank top (x ∷ xs) = highest rank (if ltb (rank top) (rank x) then x else top) xs

highest-contains :
    (rank : String → ℕ) (top : String) (xs ys : List String)
    → contains top ys ≡ true
    → ((x : String) → contains x xs ≡ true → contains x ys ≡ true)
    → contains (highest rank top xs) ys ≡ true
highest-contains rank top [] ys c h = c
highest-contains rank top (x ∷ xs) ys c h =
    highest-contains rank (if ltb (rank top) (rank x) then x else top) xs ys
      (ground (arith, h x, eq_iff x x, c)) (λ y m. h y (ground (arith, m)))

highest-top :
    (rank : String → ℕ) (top x : String) (xs : List String)
    → contains x xs || x == top ≡ true
    → rank x ≤ rank (highest rank top xs)
highest-top rank top x [] h = ground (arith, eq_iff x top, ap (λ (s : String). rank s))
highest-top rank top x (y ∷ ys) h =
    let new = if ltb (rank top) (rank y) then y else top in
    ground (
      arith,
      highest-top rank new x ys,
      highest-top rank new new ys,
      eq_iff x top,
      eq_iff x y,
      eq_iff new new,
      ap (λ (s : String). rank s),
      eq_iff x new,
    )

module _ (tl : TaskList) (ts : TaskStateFile) (gate : Task) (target : String) where
  abbrev covers : List String
  covers = candidates tl ts gate target

  -- Another candidate of the target stands down the graph from the validator, on a way that does not
  -- pass the gate.
  abbrev pub Overtaken : String → Type 0
  Overtaken id =
      (later : String) × Reached tl.tasks (λ current. current == gate.id)
        (λ current. contains current covers) (downstream_of tl.tasks id) later
      × (contains later covers ≡ true)

  candidate-known : (id : String) → contains id covers ≡ true → contains id (ids_of tl.tasks) ≡ true
  unfolding candidates
  candidate-known id = select-known _ tl.tasks id

  pub contains-current_validators :
      (id : String)
      → contains id (current_validators tl ts gate target)
        ≡ (contains id covers && not (dominated tl gate covers id))
  unfolding current_validators
  contains-current_validators id = ground (
    arith,
    contains-select (λ i. contains i covers && not (dominated tl gate covers i)) (ids_of tl.tasks)
        id,
    candidate-known id,
  )

  -- A validator is current for a target of a gate exactly where it is a candidate for the target (it
  -- stands up the graph from the gate, names the target and is not superseded) and no way down the graph
  -- that does not pass the gate leads from it to a candidate; on a list without cycles that is another one.
  pub current_validators_exact :
      (id : String)
      → (contains id (current_validators tl ts gate target) ≡ true)
        ↔ ((contains id covers ≡ true) × ¬ (Overtaken id))
  unfolding dominated
  current_validators_exact id =
      let overtaken =
        search_down_exact tl.tasks (λ current. current == gate.id)
          (λ current. contains current covers) (downstream_of tl.tasks id) in
      let is_current = contains-current_validators id in
      (
        λ h. (ground (arith, h, is_current), λ o. ground (arith, h, is_current, overtaken.1 o)),
        λ (c, n). elim (Bool-cases (dominated tl gate covers id)) [
          | inl found ↦ absurd (n (overtaken.0 found))
          | inr none_found ↦ ground (arith, is_current, c, none_found)
        ],
      )

  module _ (rank : String → ℕ) (ranked : IsRanked rank tl.tasks) where
    later-higher :
        (starts : List String) (id later : String)
        → ((x : String) → contains x starts ≡ true → rank id < rank x)
        → Reached tl.tasks
            (λ current. current == gate.id)
            (λ current. contains current covers)
            starts
            later
        → rank id < rank later
    later-higher starts id later h (Reached.start m s) = h later m
    later-higher starts id later h (Reached.down y r m s) =
        omega (arith, later-higher starts id y h r, downstream-rises rank tl.tasks ranked y later m)

    highest_current :
        (id : String)
        → contains id covers ≡ true
        → ((x : String) → contains x covers ≡ true → rank x ≤ rank id)
        → contains id (current_validators tl ts gate target) ≡ true
    highest_current id c top = (current_validators_exact id).1 (
      c,
      λ (later, r, m). omega (
        arith,
        top later m,
        later-higher (downstream_of tl.tasks id) id later (downstream-rises rank tl.tasks ranked id)
            r,
      ),
    )

contains-is_empty : (x : String) (xs : List String) → contains x xs ≡ true → is_empty xs ≡ false
contains-is_empty x [] h = cc
contains-is_empty x (y ∷ ys) h = refl

-- In a list of distinct ids in which `check_acyclic` finds nothing, a target of a gate that has a
-- candidate has a current validator: the candidates cannot all overtake one another.
pub current_validators-is_empty :
    (tl : TaskList) (ts : TaskStateFile) (gate : Task) (target id : String)
    → distinct (ids_of tl.tasks) ≡ true
    → check_acyclic tl ≡ []
    → contains id (candidates tl ts gate target) ≡ true
    → is_empty (current_validators tl ts gate target) ≡ false
current_validators-is_empty tl ts gate target id apart acyclic c =
    let (rank, ranked) = check_acyclic-IsRanked tl apart acyclic in
    let all_of = candidates tl ts gate target in
    let top = highest rank id all_of in
    contains-is_empty top (current_validators tl ts gate target) (
      highest_current tl ts gate target rank ranked top
        (highest-contains rank id all_of all_of c (λ x m. m))
        (λ x m. highest-top rank id x all_of (ground (arith, m))))
