-- ===== src/Validation/Navigation.antt =====
-- src/unrest_harness/task_validation.py: the helpers that walk the graph of tasks.
pub mod Closure
use unrest.Base.{
  ℕ, zero, suc, ◌+◌, Bool, true, false, ◌&&◌, ◌||◌, List, [], ◌∷◌, ◌++◌, map, String, Option, none,
  some, ◌==◌, if◌then◌else◌, contains, length, select,
}
use mathlib.Core.List.{reverse}
use unrest.Model.Task.{Task, TaskList, is_gate}

-- `by_id.get(id)` of `{t.id: t for t in tl.tasks}`: the last task with the id.
unfoldable pub task_by_id : String → List Task → Option Task
task_by_id id [] = none
task_by_id id (t ∷ ts) = elim (task_by_id id ts) [
  | some u ↦ some u
  | none ↦ if t.id == id then some t else none
]

-- The first task with the id.
unfoldable pub predecessors_from : List Task → String → List String
predecessors_from [] task_id = []
predecessors_from (t ∷ ts) task_id =
    let rest = predecessors_from ts task_id in if t.id == task_id then t.depends_on else rest

unfoldable pub predecessors_of : TaskList → String → List String
unfolding predecessors_from
predecessors_of tl task_id = predecessors_from tl.tasks task_id

unfoldable pub successors_of : TaskList → String → List String
successors_of tl task_id = map (λ t. t.id) (select (λ t. contains task_id t.depends_on) tl.tasks)

unfoldable pub gates_in_order : TaskList → List Task
gates_in_order tl = select (λ t. is_gate t.type) tl.tasks

-- One round of `while stack`: `cur = stack.pop()`, skipped if seen or unknown, otherwise added and
-- its dependencies pushed. The head of the list is the top of the stack.
unfoldable pub walk_step :
    List Task → String → List String → List String → List String × List String
walk_step tasks cur seen stack =
    if contains cur seen then (seen, stack) else elim (task_by_id cur tasks) [
      | none ↦ (seen, stack)
      | some t ↦ (seen ++ cur ∷ [], reverse t.depends_on ++ stack)
    ]

-- The loop of `_sealed_task_ids`, of `upstream_tasks` and of `reachable` in the coordinator: the
-- tasks in the order in which they are added, and the stack. The fuel bounds the rounds.
unfoldable pub walk : ℕ → List Task → List String → List String → List String × List String
unfolding walk_step
walk zero tasks seen stack = (seen, stack)
walk (suc fuel) tasks seen [] = (seen, [])
walk (suc fuel) tasks seen (cur ∷ stack) =
    let (seen', stack') = walk_step tasks cur seen stack in walk fuel tasks seen' stack'

-- All dependencies of all tasks, which bounds the pushes.
unfoldable pub total_deps : List Task → ℕ
total_deps [] = 0
total_deps (t ∷ ts) = length t.depends_on + total_deps ts

-- The walk from a list of ids, on as much fuel as it can use.
unfoldable pub upstream_closure : List Task → List String → List String
unfolding walk total_deps
upstream_closure tasks starts =
    (walk (length starts + total_deps tasks) tasks [] (reverse starts)).0

-- The tasks of a list of known ids that satisfy the predicate.
unfoldable pub tasks_at : List Task → (Task → Bool) → List String → List Task
unfolding task_by_id
tasks_at tasks predicate [] = []
tasks_at tasks predicate (id ∷ ids) =
    let rest = tasks_at tasks predicate ids in
    elim (task_by_id id tasks) [ none ↦ rest | some t ↦ if predicate t then t ∷ rest else rest ]

unfoldable pub upstream_tasks : TaskList → String → (Task → Bool) → List Task
unfolding upstream_closure predecessors_of tasks_at
upstream_tasks tl task_id predicate =
    tasks_at tl.tasks predicate (upstream_closure tl.tasks (predecessors_of tl task_id))
