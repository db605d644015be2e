-- ===== src/Validation/Fields/Exact.antt =====
-- src/unrest_harness/task_validation.py: the checks of ids, fields and references against descriptions.
use unrest.Base.{
  Bool, true, false, ◌≡◌, refl, ◌≢◌, ◌↔◌, List, [], ◌∷◌, ◌++◌, String, Option, none, some, arith,
  eq_iff, contains, distinct, disjoint, disjoint-nil, disjoint-cons, All, all, concat_map,
}
use unrest.Model.Names.{matches_task_id, has_text}
use unrest.Model.Task.{Task, TaskType, TaskList}
use unrest.Validation.Fields.{
  check_ids_from, check_task_ids, shape_errors, check_task_shape, ids_of, dep_errors,
  check_deps_resolve,
}

check_ids_from_exact :
    (seen : List String) (tasks : List Task)
    → (check_ids_from seen tasks ≡ []) ↔ (
        (all (λ t. matches_task_id t.id) tasks ≡ true)
        × (distinct (ids_of tasks) ≡ true)
        × (disjoint (ids_of tasks) seen ≡ true))
unfolding check_ids_from
check_ids_from_exact seen [] = ((λ _. (refl, refl, refl)), λ _. refl)
check_ids_from_exact seen (t ∷ ts) =
    let ih = check_ids_from_exact (t.id ∷ seen) ts in
    (
      (λ e. ground (arith, ih.0, disjoint-cons t.id (ids_of ts) seen)),
      λ h. ground (arith, ih.1, disjoint-cons t.id (ids_of ts) seen),
    )

-- `check_task_ids` reports nothing exactly when each id matches the pattern and no id occurs twice.
pub check_task_ids_exact :
    (tl : TaskList)
    → (check_task_ids tl ≡ [])
      ↔ ((all (λ t. matches_task_id t.id) tl.tasks ≡ true) × (distinct (ids_of tl.tasks) ≡ true))
unfolding check_task_ids
check_task_ids_exact tl =
    let ex = check_ids_from_exact [] tl.tasks in
    ((λ e. ((ex.0 e).0, (ex.0 e).1)), λ h. ex.1 (h.0, h.1, disjoint-nil (ids_of tl.tasks)))

pub append-eq-nil {ℓ} : {A : Type ℓ} (xs ys : List A) → (xs ++ ys ≡ []) ↔ ((xs ≡ []) × (ys ≡ []))
append-eq-nil [] ys = ((λ e. (refl, e)), λ h. h.1)
append-eq-nil (x ∷ xs) ys = ((λ e. cc), λ h. cc)

pub concat_map-eq-nil {ℓ κ} :
    {A : Type ℓ} {B : Type κ} (f : A → List B) (xs : List A)
    → (concat_map f xs ≡ []) ↔ All (λ x. f x ≡ []) xs
concat_map-eq-nil f [] = ((λ _. tt), λ _. refl)
concat_map-eq-nil f (x ∷ xs) =
    let ih = concat_map-eq-nil f xs in
    let ap = append-eq-nil (f x) (concat_map f xs) in
    ((λ e. ((ap.0 e).0, ih.0 (ap.0 e).1)), λ h. ap.1 (h.0, ih.1 h.1))

-- A map of predicates over a list.
pub All-map {ℓ κ μ} :
    {A : Type ℓ} {P : A → Type κ} {Q : A → Type μ} (xs : List A)
    → ((x : A) → P x → Q x)
    → All P xs
    → All Q xs
All-map [] f h = tt
All-map (x ∷ xs) f h = (f x h.0, All-map xs f h.1)

-- The fields that each type of task asks for.
abbrev pub ShapeOf : TaskType → Task → Type 0
ShapeOf TaskType.gate t = (t.skill ≡ none) × (has_text t.body ≡ false) × (t.targets ≢ [])
ShapeOf TaskType.work t = (t.skill ≢ none) × (t.skill ≢ some "") × (has_text t.body ≡ true)
ShapeOf TaskType.validate t =
    (t.skill ≢ none) × (t.skill ≢ some "") × (has_text t.body ≡ true) × (t.targets ≢ [])

module _ (id body : String) (auto_merge : Bool) (depends_on : List String) where
  abbrev with_fields : TaskType → Option String → List String → Task
  with_fields ty skill targets = record {
    id = id;
    type = ty;
    body = body;
    targets = targets;
    skill = skill;
    auto_merge = auto_merge;
    depends_on = depends_on;
  }

  shape_fields_exact :
      (ty : TaskType) (skill : Option String) (targets : List String)
      → (shape_errors (with_fields ty skill targets) ≡ [])
        ↔ ShapeOf ty (with_fields ty skill targets)
  unfolding shape_errors
  shape_fields_exact TaskType.gate none [] = ((λ h. ground arith), λ h. ground arith)
  shape_fields_exact TaskType.gate none (x ∷ xs) = ((λ h. ground arith), λ h. ground arith)
  shape_fields_exact TaskType.gate (some s) ts = ((λ h. ground arith), λ h. ground arith)
  shape_fields_exact TaskType.work none ts = ((λ h. ground arith), λ h. absurd (h.0 refl))
  shape_fields_exact TaskType.work (some s) ts =
      ((λ h. ground (arith, eq_iff s "")), λ h. ground (arith, eq_iff s ""))
  shape_fields_exact TaskType.validate none ts = ((λ h. ground arith), λ h. absurd (h.0 refl))
  shape_fields_exact TaskType.validate (some s) [] =
      ((λ h. ground (arith, eq_iff s "")), λ h. absurd (h.3 refl))
  shape_fields_exact TaskType.validate (some s) (x ∷ xs) =
      ((λ h. ground (arith, eq_iff s "")), λ h. ground (arith, eq_iff s ""))

shape_errors_exact : (t : Task) → (shape_errors t ≡ []) ↔ ShapeOf t.type t
shape_errors_exact t =
    shape_fields_exact t.id t.body t.auto_merge t.depends_on t.type t.skill t.targets

-- `check_task_shape` reports nothing exactly when every gate has no skill, no text in its body and a
-- target, every work task a skill and a body, and every validator a skill, a body and a target.
pub check_task_shape_exact :
    (tl : TaskList) → (check_task_shape tl ≡ []) ↔ All (λ t. ShapeOf t.type t) tl.tasks
unfolding check_task_shape
check_task_shape_exact tl =
    let ex = concat_map-eq-nil shape_errors tl.tasks in
    (
      (λ e. All-map tl.tasks (λ t. (shape_errors_exact t).0) (ex.0 e)),
      λ h. ex.1 (All-map tl.tasks (λ t. (shape_errors_exact t).1) h),
    )

dep_errors_exact :
    (ids : List String) (id dep : String)
    → (dep_errors ids id dep ≡ []) ↔ ((dep ≢ id) × (contains dep ids ≡ true))
unfolding dep_errors
dep_errors_exact ids id dep =
    ((λ h. ground (arith, eq_iff dep id)), λ h. ground (arith, eq_iff dep id))

-- `check_deps_resolve` reports nothing exactly when every dependency is the id of another task of
-- the list.
pub check_deps_resolve_exact :
    (tl : TaskList)
    → (check_deps_resolve tl ≡ [])
      ↔ All
          (λ t. All (λ dep. (dep ≢ t.id) × (contains dep (ids_of tl.tasks) ≡ true)) t.depends_on)
          tl.tasks
unfolding check_deps_resolve
check_deps_resolve_exact tl =
    let ids = ids_of tl.tasks in
    let outer = concat_map-eq-nil (λ t. concat_map (dep_errors ids t.id) t.depends_on) tl.tasks in
    (
      (λ e.
          All-map tl.tasks
            (λ t h.
              All-map t.depends_on (λ dep. (dep_errors_exact ids t.id dep).0)
                ((concat_map-eq-nil (dep_errors ids t.id) t.depends_on).0 h))
            (outer.0 e)),
      λ h. outer.1 (
          All-map tl.tasks
            (λ t k.
              (concat_map-eq-nil (dep_errors ids t.id) t.depends_on).1
                (All-map t.depends_on (λ dep. (dep_errors_exact ids t.id dep).1) k))
            h),
    )
