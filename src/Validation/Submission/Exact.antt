-- ===== src/Validation/Submission/Exact.antt =====
-- src/unrest_harness/task_validation.py: the checks of a submission together.
use unrest.Base.{
  ℕ, ◌≡◌, ◌≢◌, ◌↔◌, refl, true, List, [], ◌∷◌, String, Option, none, arith, contains, distinct, All,
  all, is_empty,
}
use unrest.Model.Names.{matches_task_id}
use unrest.Model.Task.{TaskList, TaskStateFile}
use unrest.Validation.Errors.{ValidationError}
use unrest.Validation.Fields.{ids_of, check_task_ids, check_task_shape, check_deps_resolve}
use unrest.Validation.Fields.Exact.{
  ShapeOf, check_task_ids_exact, check_task_shape_exact, check_deps_resolve_exact,
}
use unrest.Validation.Graph.{check_acyclic}
use unrest.Validation.Graph.Acyclic.{IsRanked, check_acyclic-IsRanked, check_acyclic_of_ranked}
use unrest.Validation.Coverage.{check_coverage}
use unrest.Validation.Coverage.Exact.{owners, check_coverage_exact}
use unrest.Validation.Submission.{or_next, validate_task_list_submission}

-- A task list that the harness can run against a contract.
pub record IsRunnable (c : List String) (tl : TaskList) (ts : Option TaskStateFile) : Type 0 where
  pub ids_match : all (λ t. matches_task_id t.id) tl.tasks ≡ true
  pub ids_distinct : distinct (ids_of tl.tasks) ≡ true
  pub shapes : All (λ t. ShapeOf t.type t) tl.tasks
  pub resolved :
      All
        (λ t. All (λ dep. (dep ≢ t.id) × (contains dep (ids_of tl.tasks) ≡ true)) t.depends_on)
        tl.tasks
  pub rank : String → ℕ
  pub ranked : IsRanked rank tl.tasks
  pub known : All (λ t. All (λ a. contains a c ≡ true) t.targets) tl.tasks
  pub owned : All (λ a. owners ts a tl.tasks ≡ 1) c

-- The five checks that `submit_plan` and `apply_patch` share.
abbrev pub five_checks : List String → TaskList → Option TaskStateFile → List ValidationError
five_checks c tl ts = or_next (check_task_ids tl) (
    or_next (check_task_shape tl)
      (or_next (check_deps_resolve tl) (or_next (check_acyclic tl) (check_coverage c tl ts))))

or_next-eq-nil : (xs ys : List ValidationError) → or_next xs ys ≡ [] → (xs ≡ []) × (ys ≡ [])
or_next-eq-nil [] ys h = (refl, h)
or_next-eq-nil (x ∷ xs) ys h = cc

module _ (c : List String) (tl : TaskList) (ts : Option TaskStateFile)
    (apart : distinct c ≡ true) where
  pub five_checks-IsRunnable : five_checks c tl ts ≡ [] → IsRunnable c tl ts
  five_checks-IsRunnable h =
      let (a, h1) = or_next-eq-nil (check_task_ids tl) _ h in
      let (b, h2) = or_next-eq-nil (check_task_shape tl) _ h1 in
      let (d, h3) = or_next-eq-nil (check_deps_resolve tl) _ h2 in
      let (e, f) = or_next-eq-nil (check_acyclic tl) _ h3 in
      let (matching, distinct_ids) = (check_task_ids_exact tl).0 a in
      let (rank, ranked) = check_acyclic-IsRanked tl distinct_ids e in
      let (known, owned) = (check_coverage_exact c tl ts apart).0 f in
      record {
        ids_match = matching;
        ids_distinct = distinct_ids;
        shapes = (check_task_shape_exact tl).0 b;
        resolved = (check_deps_resolve_exact tl).0 d;
        rank = rank;
        ranked = ranked;
        known = known;
        owned = owned;
      }

  pub IsRunnable-five_checks : IsRunnable c tl ts → five_checks c tl ts ≡ []
  IsRunnable-five_checks r =
      rw
        (
          (check_task_ids_exact tl).1 (r.ids_match, r.ids_distinct),
          (check_task_shape_exact tl).1 r.shapes,
          (check_deps_resolve_exact tl).1 r.resolved,
          check_acyclic_of_ranked tl r.rank r.ids_distinct r.ranked,
        )
        ((check_coverage_exact c tl ts apart).1 (r.known, r.owned))

-- For a set of assertions, `validate_task_list_submission` reports nothing exactly when there is an
-- assertion and a task, and the list is runnable: ids that match the pattern and are distinct, the
-- fields of each type, dependencies on other tasks of the list, no cycle, only known targets, and
-- each assertion named exactly once among the targets of all the work tasks, so that a task that names
-- it twice is refused.
pub validate_exact :
    (c : List String) (tl : TaskList)
    → distinct c ≡ true
    → (validate_task_list_submission c tl ≡ [])
      ↔ ((is_empty c ≢ true) × (is_empty tl.tasks ≢ true) × IsRunnable c tl none)
unfolding validate_task_list_submission
validate_exact c tl apart = (
  (λ h. (
    (λ e. ground arith),
    (λ e. ground arith),
    five_checks-IsRunnable c tl none apart (ground arith),
  )),
  λ h. ground (arith, IsRunnable-five_checks c tl none apart h.2),
)
