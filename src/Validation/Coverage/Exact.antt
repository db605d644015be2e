-- ===== src/Validation/Coverage/Exact.antt =====
-- src/unrest_harness/task_validation.py: `check_coverage` against the number of owners.
use unrest.Base.{
  ℕ, ◌+◌, ◌≡◌, ◌↔◌, refl, sym, ◌∙◌, true, not, List, [], ◌∷◌, ◌++◌, String, Option, arith,
  if◌then◌else◌, contains, distinct, count, length, foldl, concat_map, All, Dict, find, find_or,
  put, modify, keys, find-put, find-modify, keys-modify, contains-keys, length-append,
  keys-foldl-put, disjoint-nil, eq_refl,
}
use unrest.Model.Task.{Task, TaskList, TaskStateFile}
use unrest.Validation.Errors.{ValidationError}
use unrest.Validation.Fields.{error_if}
use unrest.Validation.Fields.Exact.{append-eq-nil, concat_map-eq-nil, All-map}
use unrest.Validation.Coverage.{
  unknown_targets, append_coverer, is_active_work, cover, coverers_of, assertion_errors,
  check_coverage,
}

-- How often the active work tasks name an assertion among their targets.
unfoldable pub owners : Option TaskStateFile → String → List Task → ℕ
owners ts a [] = 0
owners ts a (t ∷ tasks) = (if is_active_work ts t then count a t.targets else 0) + owners ts a tasks

-- The number of covering tasks that a dict holds for an assertion.
held : String → Dict (List String) → ℕ
held a d = length (find_or [] a d)

held-append_coverers :
    (id a : String) (tgts : List String) (d : Dict (List String))
    → contains a (keys d) ≡ true
    → held a (foldl (append_coverer id) d tgts) ≡ held a d + count a tgts
unfolding append_coverer held
held-append_coverers id a [] d h = omega arith
held-append_coverers id a (t ∷ ts) d h =
    let d' = modify t (λ l. l ++ id ∷ []) d in
    ground (
      arith,
      held-append_coverers id a ts d' (rw (keys-modify t (λ l. l ++ id ∷ []) d) h),
      find-modify t a (λ l. l ++ id ∷ []) d,
      contains-keys a d,
      length-append (find_or [] a d) (id ∷ []),
    )

keys-append_coverers :
    (id : String) (tgts : List String) (d : Dict (List String))
    → keys (foldl (append_coverer id) d tgts) ≡ keys d
unfolding append_coverer
keys-append_coverers id [] d = refl
keys-append_coverers id (t ∷ ts) d =
    keys-append_coverers id ts (append_coverer id d t) ∙ keys-modify t (λ l. l ++ id ∷ []) d

module _ (ts : Option TaskStateFile) where
  keys-cover : (d : Dict (List String)) (t : Task) → keys (cover ts d t) ≡ keys d
  unfolding cover
  keys-cover d t = ground (arith, keys-append_coverers t.id t.targets d)

  held-cover :
      (a : String) (d : Dict (List String)) (t : Task)
      → contains a (keys d) ≡ true
      → held a (cover ts d t) ≡ held a d + (if is_active_work ts t then count a t.targets else 0)
  unfolding cover
  held-cover a d t h = ground (arith, held-append_coverers t.id a t.targets d h)

  keys-covers :
      (tasks : List Task) (d : Dict (List String)) → keys (foldl (cover ts) d tasks) ≡ keys d
  keys-covers [] d = refl
  keys-covers (t ∷ tasks) d = keys-covers tasks (cover ts d t) ∙ keys-cover d t

  held-covers :
      (a : String) (tasks : List Task) (d : Dict (List String))
      → contains a (keys d) ≡ true
      → held a (foldl (cover ts) d tasks) ≡ held a d + owners ts a tasks
  unfolding owners
  held-covers a [] d h = omega arith
  held-covers a (t ∷ tasks) d h =
      omega (arith, held-covers a tasks (cover ts d t) (rw (keys-cover d t) h), held-cover a d t h)

-- The dict before the loop.
held-foldl-put :
    (ids : List String) (d : Dict (List String)) (a : String)
    → held a d ≡ 0
    → held a (foldl (λ e id. put id [] e) d ids) ≡ 0
held-foldl-put [] d a h = h
held-foldl-put (id ∷ ids) d a h =
    held-foldl-put ids (put id [] d) a (unfold held in ground (arith, find-put id a [] d))

unknown_targets_exact :
    (c : List String) (t : Task)
    → (unknown_targets c t ≡ []) ↔ All (λ a. contains a c ≡ true) t.targets
unfolding unknown_targets
unknown_targets_exact c t =
    let ex =
      concat_map-eq-nil
        (λ tgt.
          error_if (not (contains tgt c)) (ValidationError.task_targets_unknown_assertion t.id tgt))
        t.targets in
    (
      (λ e. All-map t.targets (λ a h. ground arith) (ex.0 e)),
      λ h. ex.1 (All-map t.targets (λ a k. ground arith) h),
    )

assertion_errors_exact :
    (a : String) (tasks : List String) → (assertion_errors a tasks ≡ []) ↔ (length tasks ≡ 1)
unfolding assertion_errors
assertion_errors_exact a [] = ((λ h. ground arith), λ h. ground arith)
assertion_errors_exact a (t ∷ ts) = ((λ h. ground arith), λ h. ground arith)

module _ (c : List String) (apart : distinct c ≡ true) (ts : Option TaskStateFile)
    (tasks : List Task) where
  abbrev empty_dict : Dict (List String)
  empty_dict = foldl (λ d a. put a [] d) [] c

  keys-coverers_of : keys (coverers_of c ts tasks) ≡ c
  unfolding coverers_of keys
  keys-coverers_of = keys-covers ts tasks empty_dict ∙ keys-foldl-put [] c [] apart (disjoint-nil c)

  held-coverers_of :
      (a : String) → contains a c ≡ true → held a (coverers_of c ts tasks) ≡ owners ts a tasks
  unfolding coverers_of keys
  held-coverers_of a h = omega (
    arith,
    held-covers ts a tasks empty_dict
        (rw (keys-foldl-put {V = List String} [] c [] apart (disjoint-nil c)) h),
    held-foldl-put c [] a (unfold held find in refl),
  )

-- Every member of a list is a member.
pub All-contains : (xs : List String) → All (λ a. contains a xs ≡ true) xs
All-contains [] = tt
All-contains (x ∷ xs) =
    (ground (arith, eq_refl x), All-map xs (λ a h. ground arith) (All-contains xs))

pub All-zip {ℓ κ μ} :
    {A : Type ℓ} (P : A → Type κ) (Q : A → Type μ) (xs : List A)
    → All P xs
    → All Q xs
    → All (λ x. P x × Q x) xs
All-zip P Q [] p q = tt
All-zip P Q (x ∷ xs) p q = ((p.0, q.0), All-zip P Q xs p.1 q.1)

-- For a set of assertions, `check_coverage` reports nothing exactly when every target of a task is
-- an assertion, and the active work tasks (of type work and not superseded) name each assertion
-- exactly once among their targets.
pub check_coverage_exact :
    (c : List String) (tl : TaskList) (ts : Option TaskStateFile)
    → distinct c ≡ true
    → (check_coverage c tl ts ≡ []) ↔ (
        All (λ t. All (λ a. contains a c ≡ true) t.targets) tl.tasks
        × All (λ a. owners ts a tl.tasks ≡ 1) c)
unfolding check_coverage
check_coverage_exact c tl ts apart =
    let d = coverers_of c ts tl.tasks in
    let unknown = concat_map-eq-nil (unknown_targets c) tl.tasks in
    let split =
      append-eq-nil (concat_map (unknown_targets c) tl.tasks)
        (concat_map (λ a. assertion_errors a (find_or [] a d)) (keys d)) in
    let counted = concat_map-eq-nil (λ a. assertion_errors a (find_or [] a d)) c in
    let same = keys-coverers_of c apart ts tl.tasks in
    let size = λ (a : String). held-coverers_of c apart ts tl.tasks a in
    (
      (λ e. (
        All-map tl.tasks (λ t. (unknown_targets_exact c t).0) (unknown.0 (split.0 e).0),
        All-map c
            (λ a (k, h).
              sym (size a k) ∙ unfold held in (assertion_errors_exact a (find_or [] a d)).0 h)
            (All-zip _ _ c (All-contains c) (counted.0 (rw same at ((split.0 e).1)))),
      )),
      λ h. split.1 (
        unknown.1 (All-map tl.tasks (λ t. (unknown_targets_exact c t).1) h.0),
        rw same (
            counted.1 (
              All-map c
                (λ a (k, one).
                  (assertion_errors_exact a (find_or [] a d)).1 (unfold held in (size a k ∙ one)))
                (All-zip _ _ c (All-contains c) h.1))),
      ),
    )
