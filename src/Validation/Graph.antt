-- ===== src/Validation/Graph.antt =====
-- src/unrest_harness/task_validation.py: `check_acyclic`, Kahn's algorithm over the dependencies.
mod Counts
mod Degrees
mod Initial
mod Loop
mod Finish
pub mod Acyclic
use unrest.Base.{
  ℕ, zero, suc, Bool, List, [], ◌∷◌, ◌++◌, map, String, pred, if◌then◌else◌, contains, foldl,
  length, ltb, eqb, select, concat_map, Dict, find, find_or, put, modify, keys,
}
use unrest.Model.Task.{Task, TaskList}
use unrest.Validation.Errors.{ValidationError}
use unrest.Validation.Fields.{ids_of}

-- An edge leads from a dependency to the task that names it.
abbrev pub Edge : Type 0
Edge = String × String

-- The edges of one task: `for dep in task.depends_on: if dep in indeg`.
unfoldable pub task_edges : List String → String → List String → List Edge
task_edges ids id [] = []
task_edges ids id (dep ∷ deps) =
    let rest = task_edges ids id deps in if contains dep ids then (dep, id) ∷ rest else rest

unfoldable pub edges : List Task → List Edge
unfolding task_edges
edges tasks = concat_map (λ t. task_edges (ids_of tasks) t.id t.depends_on) tasks

pub record Adjacency : Type 0 where
  pub indeg : Dict ℕ
  pub adj : Dict (List String)

-- `{t.id: 0 for t in tl.tasks}` and `{t.id: [] for t in tl.tasks}`
unfoldable pub no_edges : List String → Adjacency
no_edges ids = record {
  indeg = foldl (λ d id. put id 0 d) [] ids;
  adj = foldl (λ d id. put id [] d) [] ids;
}

unfoldable pub add_edge : Adjacency → Edge → Adjacency
add_edge g (dep, id) = record {
  indeg = modify id suc g.indeg;
  adj = modify dep (λ l. l ++ id ∷ []) g.adj;
}

unfoldable pub degree : String → Dict ℕ → ℕ
degree v d = find_or 0 v d

-- The inner loop: a count that falls from 1 to 0 puts its task into the queue. A count that is 0 is
-- never decremented to 0, so that stopping at 0 hides nothing.
unfoldable pub release : List String → Dict ℕ → List String → Dict ℕ × List String
release [] indeg queue = (indeg, queue)
release (nxt ∷ rest) indeg queue =
    release rest (modify nxt pred indeg)
      (if eqb (degree nxt indeg) 1 then queue ++ nxt ∷ [] else queue)

pub record Sweep : Type 0 where
  pub indeg : Dict ℕ
  pub queue : List String
  pub visited : ℕ

-- The body of the `while queue` loop, after `current = queue.pop(0)`.
unfoldable pub visit : Dict (List String) → String → List String → Dict ℕ → ℕ → Sweep
unfolding release
visit adj current queue indeg visited =
    let (indeg', queue') = release (find_or [] current adj) indeg queue in
    record { indeg = indeg'; queue = queue'; visited = suc visited }

-- The `while queue` loop. The fuel bounds the rounds; the number of tasks is enough.
unfoldable pub sweep : ℕ → Dict (List String) → Sweep → Sweep
unfolding visit
sweep zero adj s = s
sweep (suc fuel) adj s = elim s.queue [
  | [] ↦ s
  | current ∷ queue ↦ sweep fuel adj (visit adj current queue s.indeg s.visited)
]

-- The state before the loop.
unfoldable pub start : Dict ℕ → Sweep
unfolding degree
start indeg = record {
  indeg = indeg;
  queue = select (λ tid. eqb (degree tid indeg) 0) (keys indeg);
  visited = 0;
}

unfoldable pub adjacency : List Task → Adjacency
unfolding edges no_edges add_edge
adjacency tasks = foldl add_edge (no_edges (ids_of tasks)) (edges tasks)

unfoldable pub final_sweep : List Task → Sweep
unfolding adjacency start sweep
final_sweep tasks = let g = adjacency tasks in sweep (length tasks) g.adj (start g.indeg)

unfoldable pub check_acyclic : TaskList → List ValidationError
unfolding final_sweep degree
check_acyclic tl =
    let s = final_sweep tl.tasks in
    if eqb s.visited (length tl.tasks)
    then []
    else ValidationError.cycle_detected (select (λ tid. ltb 0 (degree tid s.indeg)) (keys s.indeg))
      ∷ []
