-- ===== src/Validation/Graph/Acyclic.antt =====
-- src/unrest_harness/task_validation.py: `check_acyclic` against rankings of the tasks.
use unrest.Base.{
  ℕ, zero, suc, ◌≤◌, ◌<◌, ◌≡◌, ◌↔◌, refl, true, List, [], ◌∷◌, ◌++◌, String, arith, eq_iff, eqb,
  if◌then◌else◌, Bool-cases, inl, inr, contains, distinct, count, length, length-map, All,
  append-nil, concat_map, ◌&&◌,
}
use unrest.Model.Task.{Task, TaskList}
use unrest.Validation.Fields.{ids_of}
use unrest.Validation.Graph.{
  Edge, task_edges, edges, degree, Sweep, start, adjacency, final_sweep, check_acyclic,
}
use unrest.Validation.Graph.Counts.{
  contains-eq-count, count-distinct, length-le_of_count, count-eq_of_length,
}
use unrest.Validation.Graph.Degrees.{waits}
use unrest.Validation.Graph.Initial.{Joins, edges-Joins, adjacency-Holds}
use unrest.Validation.Graph.Loop.{start-Inv}
use unrest.Validation.Graph.Finish.{Swept, sweep-Swept}

-- Every task has a higher rank than each task of the list that it depends on.
abbrev pub IsRanked : (String → ℕ) → List Task → Type 0
IsRanked rank tasks =
    All (λ t. All (λ dep. contains dep (ids_of tasks) ≡ true → rank dep < rank t.id) t.depends_on)
      tasks

abbrev Rises : (String → ℕ) → Edge → Type 0
Rises rank (u, w) = rank u < rank w

module _ (rank : String → ℕ) (ids : List String) where
  task_edges-Rises :
      (id : String) (deps : List String)
      → All (Rises rank) (task_edges ids id deps)
        ↔ All (λ dep. contains dep ids ≡ true → rank dep < rank id) deps
  unfolding task_edges
  task_edges-Rises id [] = ((λ h. tt), λ h. tt)
  task_edges-Rises id (dep ∷ deps) =
      let ih = task_edges-Rises id deps in
      elim (Bool-cases (contains dep ids)) [
        | inl known ↦ rw known ((λ h. ((λ _. h.0), ih.0 h.1)), λ h. (h.0 refl, ih.1 h.1))
        | inr unknown ↦ rw unknown ((λ h. ((λ e. cc), ih.0 h)), λ h. ih.1 h.1)
      ]

  All-append_iff :
      (xs ys : List Edge)
      → All (Rises rank) (xs ++ ys) ↔ (All (Rises rank) xs × All (Rises rank) ys)
  All-append_iff [] ys = ((λ h. (tt, h)), λ h. h.1)
  All-append_iff (x ∷ xs) ys =
      let ih = All-append_iff xs ys in
      ((λ h. ((h.0, (ih.0 h.1).0), (ih.0 h.1).1)), λ h. (h.0.0, ih.1 (h.0.1, h.1)))

  edges-Rises :
      (tasks : List Task)
      → All (Rises rank) (concat_map (λ t. task_edges ids t.id t.depends_on) tasks)
        ↔ All (λ t. All (λ dep. contains dep ids ≡ true → rank dep < rank t.id) t.depends_on) tasks
  edges-Rises [] = ((λ h. tt), λ h. tt)
  edges-Rises (t ∷ ts) =
      let ih = edges-Rises ts in
      let here = task_edges-Rises t.id t.depends_on in
      let ap =
        All-append_iff (task_edges ids t.id t.depends_on)
          (concat_map (λ u. task_edges ids u.id u.depends_on) ts) in
      ((λ h. (here.0 (ap.0 h).0, ih.0 (ap.0 h).1)), λ h. ap.1 (here.1 h.0, ih.1 h.1))

module _ (tasks : List Task) (apart : distinct (ids_of tasks) ≡ true) where
  abbrev ids : List String
  ids = ids_of tasks

  final-Swept : Swept ids (edges tasks) (adjacency tasks).adj (final_sweep tasks)
  unfolding final_sweep
  final-Swept =
      let holds = adjacency-Holds tasks apart in
      sweep-Swept ids (edges tasks) (adjacency tasks).adj (edges-Joins tasks) holds.out apart
        (length tasks) [] (λ v. 0) (start (adjacency tasks).indeg)
        (start-Inv ids (edges tasks) (adjacency tasks).adj (adjacency tasks).indeg apart
          holds.indeg_keys holds.into)
        (record { below = λ v h. absurd (omega arith); sorted = vacuous (edges tasks) })
        (omega (arith, length-map (λ t. t.id) tasks))
    where
      vacuous : (es : List Edge) → All (λ (u, w). 0 < count w [] → 0 < 0) es
      vacuous [] = tt
      vacuous (e ∷ es) = ((λ h. h), vacuous es)

  open final-Swept use {popped, rank, inv, ord, empty}

  abbrev last : Sweep
  last = final_sweep tasks

  popped_at :
      (v : String)
      → count v popped ≡ (if contains v ids && eqb (degree v last.indeg) 0 then 1 else 0)
  popped_at v = rw (empty, append-nil) at (inv.placed v)

  popped-le : (v : String) → count v popped ≤ count v ids
  popped-le v = ground (arith, popped_at v, count-distinct v ids apart)

  all_popped :
      last.visited ≡ length tasks → (v : String) → contains v ids ≡ true → 0 < count v popped
  all_popped e v k = ground (
    arith,
    count-eq_of_length popped ids v popped-le,
    inv.number,
    length-map (λ t. t.id) tasks,
    count-distinct v ids apart,
  )

  all_rise :
      (es : List Edge)
      → last.visited ≡ length tasks
      → All (Joins ids) es
      → All (λ (u, w). 0 < count w popped → rank u < rank w) es
      → All (Rises rank) es
  all_rise [] e j h = tt
  all_rise ((u, w) ∷ es) e j h = (h.0 (all_popped e w j.0.1), all_rise es e j.1 h.1)

  accepted-IsRanked : last.visited ≡ length tasks → IsRanked rank tasks
  accepted-IsRanked e =
      (edges-Rises rank ids tasks).0
        (unfold edges in all_rise (edges tasks) e (edges-Joins tasks) ord.sorted)

  module _ (r : String → ℕ) (ranked : IsRanked r tasks) where
    rises : All (Rises r) (edges tasks)
    unfolding edges
    rises = (edges-Rises r ids tasks).1 ranked

    no_waits :
        (v : String) (es : List Edge)
        → All (Joins ids) es
        → All (Rises r) es
        → ((u : String) → contains u ids ≡ true → r u < r v → contains u popped ≡ true)
        → waits popped v es ≡ 0
    unfolding waits
    no_waits v [] j h f = refl
    no_waits v ((u, w) ∷ es) j h f = ground (arith, no_waits v es j.1 h.1 f, eq_iff w v, f u j.0.0)

    by_rank : (n : ℕ) (v : String) → r v < n → contains v ids ≡ true → 0 < count v popped
    by_rank zero v l k = absurd (omega arith)
    by_rank (suc n) v l k =
        let none_left = no_waits v (edges tasks) (edges-Joins tasks) rises (λ u known lower.
          let earlier = by_rank n u (omega arith) known in
          ground (arith, earlier, contains-eq-count u popped)) in
        ground (arith, popped_at v, inv.into v, none_left)

    all_visited : last.visited ≡ length tasks
    all_visited =
        let longer = length-le_of_count ids popped (λ v. ground (
          arith,
          by_rank (suc (r v)) v,
          count-distinct v ids apart,
          popped_at v,
          contains-eq-count v ids,
        )) in
        let shorter = length-le_of_count popped ids popped-le in
        omega (arith, longer, shorter, inv.number, length-map (λ t. t.id) tasks)

-- The loop of `check_acyclic` runs until its queue is empty, on every task list with distinct ids:
-- as many rounds as there are tasks are enough.
final_sweep-empties :
    (tasks : List Task) → distinct (ids_of tasks) ≡ true → (final_sweep tasks).queue ≡ []
final_sweep-empties tasks apart = (final-Swept tasks apart).empty

-- If the ids are distinct and `check_acyclic` reports nothing, then the tasks can be ranked so that
-- each stands above every task of the list that it depends on: there is no cycle.
pub check_acyclic-IsRanked :
    (tl : TaskList)
    → distinct (ids_of tl.tasks) ≡ true
    → check_acyclic tl ≡ []
    → (rank : String → ℕ) × IsRanked rank tl.tasks
unfolding check_acyclic
check_acyclic-IsRanked tl apart e =
    ((final-Swept tl.tasks apart).rank, accepted-IsRanked tl.tasks apart (ground arith))

-- If the ids are distinct and some ranking puts each task above those that it depends on, then
-- `check_acyclic` reports nothing.
pub check_acyclic_of_ranked :
    (tl : TaskList) (rank : String → ℕ)
    → distinct (ids_of tl.tasks) ≡ true
    → IsRanked rank tl.tasks
    → check_acyclic tl ≡ []
unfolding check_acyclic
check_acyclic_of_ranked tl rank apart h = ground (arith, all_visited tl.tasks apart rank h)
