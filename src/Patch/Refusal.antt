-- ===== src/Patch/Refusal.antt =====
-- src/unrest_harness/task_list_patch.py: the stages of `apply_patch`, and how a patch comes out of them.
use unrest.Base.{
  ◌≡◌, ◌≢◌, ◌⊎◌, inl, inr, refl, sym, ap, ◌∙◌, true, false, List, [], ◌∷◌, ◌++◌, String, Option,
  some, arith, if◌then◌else◌, Bool-cases, distinct, distinct-union, union, concat_map, Dict, find,
  is_some, eq_iff,
}
use unrest.Model.Task.{
  TaskList, TaskListPatch, TaskStateFile, TaskStateEntry, TaskStatus, entry_status, status_of,
  is_empty_patch,
}
use unrest.Validation.Errors.{ValidationError}
use unrest.Validation.Fields.{ids_of}
use unrest.Validation.Submission.Exact.{IsRunnable, five_checks, five_checks-IsRunnable}
use unrest.Patch.{
  item_errors, orphan_errors, add_errors, retire_errors, patched_list, patched_state, PatchResult,
  entries_after, shared_state, unless_errors, apply_patch,
}

unless_errors-some :
    (before : PatchResult) (es : List ValidationError) (next : PatchResult)
    → es ≢ []
    → unless_errors before es next ≡ record before { errors = es }
unless_errors-some before [] next n = absurd (n refl)
unless_errors-some before (e ∷ es) next n = refl

module _ (before shared after : PatchResult) where
  abbrev stages : (e1 e2 e3 e4 : List ValidationError) → PatchResult
  stages e1 e2 e3 e4 =
      unless_errors before e1
        (unless_errors before e2 (unless_errors before e3 (unless_errors shared e4 after)))

  -- Every stage passes.
  abbrev Passes : (e1 e2 e3 e4 : List ValidationError) → Type 0
  Passes e1 e2 e3 e4 = (e1 ≡ []) × (e2 ≡ []) × (e3 ≡ []) × (e4 ≡ []) × (stages e1 e2 e3 e4 ≡ after)

  -- Some stage stops the patch, one before the last, or the last alone.
  abbrev Stops : (e1 e2 e3 e4 : List ValidationError) → Type 0
  Stops e1 e2 e3 e4 =
      (es : List ValidationError) × (es ≢ [])
      × ((stages e1 e2 e3 e4 ≡ record before { errors = es })
          ⊎ (stages e1 e2 e3 e4 ≡ record shared { errors = es }))

  stages-cases : (e1 e2 e3 e4 : List ValidationError) → Passes e1 e2 e3 e4 ⊎ Stops e1 e2 e3 e4
  stages-cases (e ∷ es) e2 e3 e4 = inr (e ∷ es, (λ h. cc), inl refl)
  stages-cases [] (e ∷ es) e3 e4 = inr (e ∷ es, (λ h. cc), inl refl)
  stages-cases [] [] (e ∷ es) e4 = inr (e ∷ es, (λ h. cc), inl refl)
  stages-cases [] [] [] (e ∷ es) = inr (e ∷ es, (λ h. cc), inr refl)
  stages-cases [] [] [] [] = inl (refl, refl, refl, refl, refl)

find-entries_after :
    (patched : TaskStateFile) (entries : Dict TaskStateEntry) (x : String)
    → entry_status (find x (entries_after patched entries))
      ≡ (if is_some (find x entries) then status_of patched x else TaskStatus.pending)
unfolding entries_after find
find-entries_after patched [] x = refl
find-entries_after patched ((k, e) ∷ d) x =
    ground
      (arith, find-entries_after patched d x, eq_iff k x, ap (λ (s : String). status_of patched s))

-- Only the tasks that have an entry take the patched status.
pub status_of-shared_state :
    (ts : TaskStateFile) (patch : TaskListPatch) (x : String)
    → status_of (shared_state ts patch) x
      ≡ (if is_some (find x ts.tasks) then status_of (patched_state ts patch) x else status_of ts x)
unfolding status_of shared_state
status_of-shared_state ts patch x =
    ground (arith, find-entries_after (patched_state ts patch) ts.tasks x)

module _ (tl : TaskList) (ts : TaskStateFile) (c : List String) (patch : TaskListPatch)
    (on_disk : Option (List String)) where
  abbrev result : PatchResult
  result = apply_patch tl ts c patch on_disk

  -- What an accepted patch passed, and what it leaves.
  pub record Accepted : Type 0 where
    pub items :
        concat_map (item_errors c on_disk) patch.add_items ++ orphan_errors patch.add_items on_disk
        ≡ []
    pub adds : add_errors (ids_of tl.tasks) [] patch.add ≡ []
    pub retires : retire_errors tl ts patch ≡ []
    pub checks :
        five_checks
          (union c patch.add_items)
          (patched_list tl patch)
          (some (patched_state ts patch))
        ≡ []
    pub list_lem : result.task_list ≡ patched_list tl patch
    pub state_lem : result.task_state ≡ patched_state ts patch
    pub contract_lem : result.contract_ids ≡ union c patch.add_items

  pub record Refused : Type 0 where
    pub list_kept : result.task_list ≡ tl
    pub state_kept : (result.task_state ≡ ts) ⊎ (result.task_state ≡ shared_state ts patch)
    pub contract_kept : result.contract_ids ≡ c

  abbrev before : PatchResult
  before = record { task_list = tl; task_state = ts; contract_ids = c; errors = [] }

  abbrev shared : PatchResult
  shared = record before { task_state = shared_state ts patch }

  abbrev after : PatchResult
  after = record {
    task_list = patched_list tl patch;
    task_state = patched_state ts patch;
    contract_ids = union c patch.add_items;
    errors = [];
  }

  abbrev item_stage : List ValidationError
  item_stage =
      concat_map (item_errors c on_disk) patch.add_items ++ orphan_errors patch.add_items on_disk

  abbrev check_stage : List ValidationError
  check_stage =
      five_checks (union c patch.add_items) (patched_list tl patch) (some (patched_state ts patch))

  abbrev staged : PatchResult
  staged =
      stages before shared after item_stage (add_errors (ids_of tl.tasks) [] patch.add)
        (retire_errors tl ts patch) check_stage

  apply_patch_lem : result ≡ (
      if is_empty_patch patch
      then record before { errors = ValidationError.empty_patch ∷ [] }
      else staged)
  unfolding apply_patch
  apply_patch_lem = refl

  -- The last stage alone stops the patch.
  pub apply_patch-last :
      is_empty_patch patch ≡ false
      → item_stage ≡ []
      → add_errors (ids_of tl.tasks) [] patch.add ≡ []
      → retire_errors tl ts patch ≡ []
      → check_stage ≢ []
      → result ≡ record shared { errors = check_stage }
  apply_patch-last e i a r f =
      (rw (e, i, a, r) at apply_patch_lem) ∙ unless_errors-some shared check_stage after f

  refused :
      (es : List ValidationError)
      → es ≢ []
      → (result ≡ record before { errors = es }) ⊎ (result ≡ record shared { errors = es })
      → (result.errors ≢ []) × Refused
  refused es n (inl e) = (
    (λ h. n (sym (ap (λ (r : PatchResult). r.errors) e) ∙ h)),
    record {
      list_kept = ap (λ (r : PatchResult). r.task_list) e;
      state_kept = inl (ap (λ (r : PatchResult). r.task_state) e);
      contract_kept = ap (λ (r : PatchResult). r.contract_ids) e;
    },
  )
  refused es n (inr e) = (
    (λ h. n (sym (ap (λ (r : PatchResult). r.errors) e) ∙ h)),
    record {
      list_kept = ap (λ (r : PatchResult). r.task_list) e;
      state_kept = inr (ap (λ (r : PatchResult). r.task_state) e);
      contract_kept = ap (λ (r : PatchResult). r.contract_ids) e;
    },
  )

  pub apply_patch-cases : ((result.errors ≡ []) × Accepted) ⊎ ((result.errors ≢ []) × Refused)
  apply_patch-cases = elim (Bool-cases (is_empty_patch patch)) [
    | inl e ↦
        inr (refused (ValidationError.empty_patch ∷ []) (λ h. cc) (inl (rw e at apply_patch_lem)))
    | inr n ↦
        let same : result ≡ staged = rw n at apply_patch_lem in
        elim (stages-cases before shared after item_stage
          (add_errors (ids_of tl.tasks) [] patch.add) (retire_errors tl ts patch) check_stage) [
            | inl (a, b, r, k, e) ↦
                let whole = same ∙ e in
                inl (
                  ap (λ (r : PatchResult). r.errors) whole,
                  record {
                    items = a;
                    adds = b;
                    retires = r;
                    checks = k;
                    list_lem = ap (λ (r : PatchResult). r.task_list) whole;
                    state_lem = ap (λ (r : PatchResult). r.task_state) whole;
                    contract_lem = ap (λ (r : PatchResult). r.contract_ids) whole;
                  },
                )
            | inr (es, some_error, inl e) ↦ inr (refused es some_error (inl (same ∙ e)))
            | inr (es, some_error, inr e) ↦ inr (refused es some_error (inr (same ∙ e)))
          ]
  ]

  pub apply_patch-Accepted : result.errors ≡ [] → Accepted
  apply_patch-Accepted h = elim apply_patch-cases [ inl (_, a) ↦ a | inr (n, _) ↦ absurd (n h) ]

-- For a set of assertions, a patch without errors leaves a task list that is runnable against the
-- new contract and the new statuses.
pub apply_patch-IsRunnable :
    (tl : TaskList) (ts : TaskStateFile) (c : List String) (patch : TaskListPatch)
    (on_disk : Option (List String))
    → distinct c ≡ true
    → (apply_patch tl ts c patch on_disk).errors ≡ []
    → IsRunnable
        (apply_patch tl ts c patch on_disk).contract_ids
        (apply_patch tl ts c patch on_disk).task_list
        (some (apply_patch tl ts c patch on_disk).task_state)
apply_patch-IsRunnable tl ts c patch on_disk apart h =
    let a = apply_patch-Accepted tl ts c patch on_disk h in
    rw (a.contract_lem, a.list_lem, a.state_lem)
      (five_checks-IsRunnable (union c patch.add_items) (patched_list tl patch)
        (some (patched_state ts patch)) (distinct-union c patch.add_items apart) a.checks)
