-- ===== src/Coordinator/Runnable/Batch.antt =====
-- src/unrest_harness/coordinator.py: lemmas on `_select_dispatch_tasks`.
use unrest.Base.{
  ◌≡◌, refl, Bool, true, false, not, ◌&&◌, ◌||◌, List, [], ◌∷◌, String, Option, none, some, arith,
  contains, is_empty, select, all, any, all-select_of, distinct, eq_iff, eq_refl,
}
use unrest.Model.Task.{Task, TaskList, TaskStateFile, is_work, is_validate}
use unrest.Validation.Fields.{ids_of}
use unrest.Validation.Navigation.{gates_in_order}
use unrest.Coordinator.Runnable.{
  lane_batch, is_ready, validator_batch_for_pending_gate, first_lane, is_validator_id,
}

abbrev pub works : Task → Bool
works t = is_work t.type

abbrev pub validates : Task → Bool
validates t = is_validate t.type

all_map :
    (p q : Task → Bool) (xs : List Task)
    → ((x : Task) → p x ≡ true → q x ≡ true)
    → all p xs ≡ true
    → all q xs ≡ true
all_map p q [] f h = refl
all_map p q (x ∷ xs) f h = ground (arith, f x, all_map p q xs f)

-- Of ready tasks without work, all are validators.
pub ready_validates :
    (ts : TaskStateFile) (xs : List Task)
    → all (is_ready ts) xs ≡ true
    → is_empty (select works xs) ≡ true
    → all validates xs ≡ true
unfolding is_ready
ready_validates ts [] h e = refl
ready_validates ts (x ∷ xs) h e = ground (arith, ready_validates ts xs)

pub any-none : (xs : List Task) → all validates xs ≡ true → any works xs ≡ false
any-none [] h = refl
any-none (x ∷ xs) h = ground (arith, any-none xs)

-- In a list with distinct ids, an id of a selected task is the id of no other task.
select-ids :
    (p : Task → Bool) (xs : List Task) (y : String)
    → contains y (ids_of xs) ≡ false
    → contains y (ids_of (select p xs)) ≡ false
select-ids p [] y h = refl
select-ids p (x ∷ xs) y h = ground (arith, select-ids p xs y)

pub distinct-select :
    (p : Task → Bool) (xs : List Task)
    → distinct (ids_of xs) ≡ true
    → distinct (ids_of (select p xs)) ≡ true
distinct-select p [] h = refl
distinct-select p (x ∷ xs) h = ground (arith, distinct-select p xs, select-ids p xs x.id)

abbrev named : (Task → Bool) → List String → Task → Bool
named p ids t = not (contains t.id ids) || p t

named_mono :
    (p : Task → Bool) (id : String) (ids : List String) (xs : List Task)
    → contains id (ids_of xs) ≡ false
    → all (named p ids) xs ≡ true
    → all (named p (id ∷ ids)) xs ≡ true
named_mono p id ids [] n h = refl
named_mono p id ids (x ∷ xs) n h =
    ground (arith, named_mono p id ids xs, eq_iff x.id id, eq_iff id x.id)

select-named :
    (p : Task → Bool) (xs : List Task)
    → distinct (ids_of xs) ≡ true
    → all (named p (ids_of (select p xs))) xs ≡ true
select-named p [] h = refl
select-named p (x ∷ xs) h = ground (
  arith,
  select-named p xs,
  select-ids p xs x.id,
  named_mono p x.id (ids_of (select p xs)) xs,
  eq_refl x.id,
)

select_where :
    (p q r : Task → Bool) (xs : List Task)
    → all r xs ≡ true
    → ((x : Task) → r x ≡ true → q x ≡ true → p x ≡ true)
    → all p (select q xs) ≡ true
select_where p q r [] h f = refl
select_where p q r (x ∷ xs) h f = ground (arith, select_where p q r xs, f x)

module _ (tl : TaskList) (ts : TaskStateFile) (runnable : List Task) where
  abbrev runnable_ids : List String
  runnable_ids = ids_of (select validates runnable)

  lane-all :
      (p : Task → Bool) (lane : Option Task)
      → all p runnable ≡ true
      → all p (lane_batch tl runnable_ids runnable lane) ≡ true
  unfolding lane_batch
  lane-all p none h = refl
  lane-all p (some gate) h =
      all-select_of p
        (λ t.
          contains t.id runnable_ids
          && contains t.id (select (is_validator_id tl.tasks) gate.depends_on))
        runnable h

  lane-validates :
      (lane : Option Task)
      → distinct (ids_of runnable) ≡ true
      → all validates (lane_batch tl runnable_ids runnable lane) ≡ true
  unfolding lane_batch
  lane-validates none h = refl
  lane-validates (some gate) h =
      select_where validates
        (λ t.
          contains t.id runnable_ids
          && contains t.id (select (is_validator_id tl.tasks) gate.depends_on))
        (named validates runnable_ids) runnable (select-named validates runnable h)
        (λ t n m. ground arith)

  pub batch-all :
      (p : Task → Bool)
      → all p runnable ≡ true
      → all p (validator_batch_for_pending_gate tl ts runnable) ≡ true
  unfolding validator_batch_for_pending_gate
  batch-all p h = lane-all p (first_lane tl ts runnable_ids (gates_in_order tl)) h

  pub batch-validates :
      distinct (ids_of runnable) ≡ true
      → all validates (validator_batch_for_pending_gate tl ts runnable) ≡ true
  unfolding validator_batch_for_pending_gate
  batch-validates h = lane-validates (first_lane tl ts runnable_ids (gates_in_order tl)) h
