-- ===== src/Coordinator/Runnable/Dispatch.antt =====
-- src/unrest_harness/coordinator.py: `_select_dispatch_tasks` and `_dispatch_batch`.
use unrest.Base.{
  ℕ, zero, suc, ◌≤◌, ◌<◌, ◌≡◌, refl, Bool, true, false, List, [], ◌∷◌, arith, is_empty, length,
  take, all, length-take-le, length-select-le, all-take, all-select, all-select_of, max, distinct,
}
use unrest.Model.Task.{Task, TaskList, TaskStateFile}
use unrest.Validation.Fields.{ids_of}
use unrest.Coordinator.Runnable.{
  is_ready, all_runnable_tasks, validator_batch_for_pending_gate, capacity, select_dispatch_tasks,
  batch_allowed,
}
use unrest.Coordinator.Runnable.Batch.{
  works, validates, ready_validates, any-none, distinct-select, batch-all, batch-validates,
}

take-nonempty :
    (n : ℕ) (xs : List Task) → 0 < n → is_empty xs ≡ false → is_empty (take n xs) ≡ false
take-nonempty zero xs h e = absurd (omega arith)
take-nonempty (suc n) [] h e = cc
take-nonempty (suc n) (x ∷ xs) h e = refl

module _ (isolated : List Task → Bool) (max_parallel_nodes : ℕ) (tl : TaskList)
    (ts : TaskStateFile) where
  abbrev pub runnable : List Task
  runnable = all_runnable_tasks tl ts

  abbrev pub chosen : List Task
  chosen = select_dispatch_tasks isolated max_parallel_nodes tl ts runnable

  abbrev room : ℕ
  room = capacity isolated max_parallel_nodes

  runnable-ready : all (is_ready ts) runnable ≡ true
  unfolding all_runnable_tasks
  runnable-ready = all-select (is_ready ts) tl.tasks

  runnable-distinct : distinct (ids_of tl.tasks) ≡ true → distinct (ids_of runnable) ≡ true
  unfolding all_runnable_tasks
  runnable-distinct h = distinct-select (is_ready ts) tl.tasks h

  chosen-all : (p : Task → Bool) → all p runnable ≡ true → all p chosen ≡ true
  unfolding select_dispatch_tasks
  chosen-all p h =
      let first = all-take p room runnable h in
      ground (
        arith,
        all-take p room (validator_batch_for_pending_gate tl ts runnable)
            (batch-all tl ts runnable p h),
        first,
        all-select_of p works (take room runnable) first,
        all-take p 1 (take room runnable) first,
      )

  length-chosen : length chosen ≤ max 1 max_parallel_nodes
  unfolding select_dispatch_tasks
  length-chosen = ground (
    arith,
    length-take-le room (validator_batch_for_pending_gate tl ts runnable),
    length-take-le room runnable,
    length-select-le works (take room runnable),
    length-take-le 1 (take room runnable),
  )

  chosen-nonempty : is_empty runnable ≡ false → is_empty chosen ≡ false
  unfolding select_dispatch_tasks
  chosen-nonempty h =
      let some_room = take-nonempty room runnable (omega arith) h in
      ground (
        arith,
        some_room,
        take-nonempty room (validator_batch_for_pending_gate tl ts runnable) (omega arith),
        take-nonempty 1 (take room runnable) (omega arith),
      )

  chosen-allowed :
      distinct (ids_of tl.tasks) ≡ true
      → 2 ≤ length chosen
      → batch_allowed isolated max_parallel_nodes chosen ≡ true
  unfolding select_dispatch_tasks batch_allowed
  chosen-allowed d h =
      let lane = validator_batch_for_pending_gate tl ts runnable in
      let candidate = take room runnable in
      let lane_ok =
        all-take validates room lane (batch-validates tl ts runnable (runnable-distinct d)) in
      ground (
        arith,
        any-none (take room lane) lane_ok,
        ready_validates ts candidate (all-take (is_ready ts) room runnable runnable-ready),
        any-none candidate,
        length-take-le 1 candidate,
        all-select works candidate,
      )

-- If some task is runnable, the selection for dispatch is not empty and has at most as many tasks as
-- the configured capacity (at least one), and each of them is ready: no gate, pending, and with all
-- dependencies cleared.
pub select_dispatch_bounds :
    (isolated : List Task → Bool) (max_parallel_nodes : ℕ) (tl : TaskList) (ts : TaskStateFile)
    → is_empty (all_runnable_tasks tl ts) ≡ false
    → (is_empty (chosen isolated max_parallel_nodes tl ts) ≡ false)
      × (length (chosen isolated max_parallel_nodes tl ts) ≤ max 1 max_parallel_nodes)
      × (all (is_ready ts) (chosen isolated max_parallel_nodes tl ts) ≡ true)
select_dispatch_bounds isolated n tl ts h = (
  chosen-nonempty isolated n tl ts h,
  length-chosen isolated n tl ts,
  chosen-all isolated n tl ts (is_ready ts) (runnable-ready isolated n tl ts),
)

-- On a task list with distinct ids, a selection of two or more tasks passes the tests of
-- `_dispatch_batch`: work and validation never share a batch, and several work tasks run together
-- only where they are isolated.
pub select_dispatch_allowed :
    (isolated : List Task → Bool) (max_parallel_nodes : ℕ) (tl : TaskList) (ts : TaskStateFile)
    → distinct (ids_of tl.tasks) ≡ true
    → 2 ≤ length (chosen isolated max_parallel_nodes tl ts)
    → batch_allowed isolated max_parallel_nodes (chosen isolated max_parallel_nodes tl ts) ≡ true
select_dispatch_allowed isolated n tl ts d h = chosen-allowed isolated n tl ts d h
