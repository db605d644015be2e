-- ===== src/Tests/Planning.antt =====
-- The checks of a plan at the small mission, and what may be dispatched.
use unrest.Base.{
  ℕ, ◌≡◌, ◌≢◌, ◌≤◌, ◌↔◌, refl, Bool, true, false, List, [], ◌∷◌, String, none, some, contains, All,
  all, is_empty, is_some, length, max, arith, keys, modify, put, find, if◌then◌else◌, ◌==◌,
}
use unrest.Model.Task.{Task, TaskList, status_of}
use unrest.Validation.Graph.{check_acyclic}
use unrest.Validation.Graph.Acyclic.{IsRanked, check_acyclic-IsRanked, check_acyclic_of_ranked}
use unrest.Validation.Coverage.{check_coverage}
use unrest.Validation.Coverage.Exact.{owners, check_coverage_exact}
use unrest.Validation.Submission.{validate_task_list_submission}
use unrest.Validation.Submission.Exact.{IsRunnable, validate_exact}
use unrest.Validation.Navigation.{task_by_id, gates_in_order, upstream_closure}
use unrest.Validation.Navigation.Closure.{Upstream, upstream_closure_exact}
use unrest.Coordinator.Search.{search_down}
use unrest.Coordinator.Search.Exact.{Reached, search_down_exact}
use unrest.Coordinator.Runnable.{is_ready, all_runnable_tasks, batch_allowed, select_dispatch_tasks}
use unrest.Coordinator.Runnable.Dispatch.{chosen, select_dispatch_bounds, select_dispatch_allowed}
use unrest.Tests.Samples.{contract, worker, plan, untouched_state}

validate_exact_example :
    (validate_task_list_submission contract plan ≡ [])
    ↔ ((is_empty contract ≢ true) × (is_empty plan.tasks ≢ true) × IsRunnable contract plan none)
validate_exact_example = validate_exact contract plan refl

plan-acyclic : check_acyclic plan ≡ []
unfolding check_acyclic keys modify put find
plan-acyclic = refl

abbrev plan_rank : String → ℕ
plan_rank id = if id == "build" then 0 else if id == "check" then 1 else 2

plan-IsRanked : IsRanked plan_rank plan.tasks
plan-IsRanked = ground arith

check_acyclic-IsRanked_example : (rank : String → ℕ) × IsRanked rank plan.tasks
check_acyclic-IsRanked_example = check_acyclic-IsRanked plan refl plan-acyclic

check_acyclic_of_ranked_example : check_acyclic plan ≡ []
check_acyclic_of_ranked_example = check_acyclic_of_ranked plan plan_rank refl plan-IsRanked

check_coverage_exact_example : (check_coverage contract plan (some untouched_state) ≡ []) ↔ (
    All (λ t. All (λ a. contains a contract ≡ true) t.targets) plan.tasks
    × All (λ a. owners (some untouched_state) a plan.tasks ≡ 1) contract)
check_coverage_exact_example = check_coverage_exact contract plan (some untouched_state) refl

upstream_closure_exact_example :
    (contains "build" (upstream_closure plan.tasks ("gate" ∷ [])) ≡ true)
    ↔ (Upstream plan.tasks ("gate" ∷ []) "build" × (is_some (task_by_id "build" plan.tasks) ≡ true))
upstream_closure_exact_example = upstream_closure_exact plan.tasks ("gate" ∷ []) "build"

abbrev skips : String → Bool
skips id = false

abbrev hits : String → Bool
hits id = contains id ("gate" ∷ [])

search_down_exact_example :
    (search_down plan.tasks skips hits ("check" ∷ []) ≡ true)
    ↔ ((x : String) × Reached plan.tasks skips hits ("check" ∷ []) x × (hits x ≡ true))
search_down_exact_example = search_down_exact plan.tasks skips hits ("check" ∷ [])

-- Two workers that may run at once.
abbrev pair : TaskList
pair = record { tasks = worker "one" contract [] ∷ worker "two" [] [] ∷ [] }

abbrev always : List Task → Bool
always batch = true

pair-runnable : is_empty (all_runnable_tasks pair untouched_state) ≡ false
unfolding all_runnable_tasks status_of find
pair-runnable = refl

pair-chosen : 2 ≤ length (chosen always 4 pair untouched_state)
unfolding select_dispatch_tasks all_runnable_tasks gates_in_order status_of find
pair-chosen = omega arith

select_dispatch_bounds_example :
    (is_empty (chosen always 4 pair untouched_state) ≡ false)
    × (length (chosen always 4 pair untouched_state) ≤ max 1 4)
    × (all (is_ready untouched_state) (chosen always 4 pair untouched_state) ≡ true)
select_dispatch_bounds_example = select_dispatch_bounds always 4 pair untouched_state pair-runnable

select_dispatch_allowed_example :
    batch_allowed always 4 (chosen always 4 pair untouched_state) ≡ true
select_dispatch_allowed_example =
    select_dispatch_allowed always 4 pair untouched_state refl pair-chosen
