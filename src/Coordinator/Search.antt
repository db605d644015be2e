-- ===== src/Coordinator/Search.antt =====
-- src/unrest_harness/coordinator.py: the depth-first search down the graph that two of its functions
-- make, with the test that ends it.
pub mod Exact
use unrest.Base.{
  ℕ, zero, suc, ◌+◌, ◌*◌, Bool, true, false, ◌||◌, List, [], ◌∷◌, ◌++◌, map, String, ◌==◌,
  if◌then◌else◌, contains, length, select, concat_map,
}
use mathlib.Core.List.{reverse}
use unrest.Model.Task.{Task}
use unrest.Validation.Fields.{ids_of}
use unrest.Validation.Navigation.{total_deps}

-- `adj[dep].append(task.id)` for every task and dependency, read at one id; an id that is no task's
-- has no entry.
unfoldable pub downstream_of : List Task → String → List String
downstream_of tasks id =
    if contains id (ids_of tasks)
    then concat_map (λ t. map (λ dep. t.id) (select (λ dep. dep == id) t.depends_on)) tasks
    else []

-- The loop: pop an id, pass over it if it was seen or is skipped, stop if it is hit, and otherwise
-- push what is downstream of it. The head of the list is the top of the stack.
unfoldable pub search :
    (String → List String)
    → (String → Bool)
    → (String → Bool)
    → ℕ
    → List String
    → List String
    → Bool
search next skip hit zero seen pending = false
search next skip hit (suc fuel) seen [] = false
search next skip hit (suc fuel) seen (current ∷ pending) =
    let passed_over = search next skip hit fuel seen pending in
    let deeper = search next skip hit fuel (current ∷ seen) (reverse (next current) ++ pending) in
    if contains current seen || skip current
    then passed_over
    else if hit current
    then true
    else deeper

-- Rounds for any search down the tasks.
unfoldable pub search_fuel : List Task → List String → ℕ
unfolding total_deps
search_fuel tasks pending = length pending + length tasks * total_deps tasks

unfoldable pub search_down : List Task → (String → Bool) → (String → Bool) → List String → Bool
unfolding search search_fuel downstream_of
search_down tasks skip hit pending =
    search (downstream_of tasks) skip hit (search_fuel tasks pending) [] (reverse pending)
