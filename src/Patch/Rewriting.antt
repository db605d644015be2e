-- ===== src/Patch/Rewriting.antt =====
-- src/unrest_harness/task_list_patch.py: `_rewrite_depends_on` over a whole patch.
use unrest.Base.{
  ◌≡◌, ap, sym, ◌∙◌, Bool, true, false, not, ◌&&◌, ◌||◌, List, [], ◌∷◌, ◌++◌, String, Option,
  Option-cases, some, arith, ◌==◌, eq_iff, Bool-cases, inl, inr, contains, contains-append, any,
  Dict, find, keys, contains-keys, All,
}
use unrest.Model.Task.{Task, TaskList, TaskListPatch, TaskStateFile}
use unrest.Patch.{mapped, rewrite_deps, rewrite_task, rewrite_depends_on, patched_list, apply_patch}
use unrest.Patch.Refusal.{apply_patch-Accepted}
use unrest.Patch.Statuses.{Replaces, replaced}

-- A dependency that is kept and stands as `x` in the new list.
abbrev pub leads_to : Dict String → List String → String → String → Bool
leads_to supersede cancel x dep = not (contains dep cancel) && (mapped supersede dep == x)

pub contains-rewrite_deps :
    (supersede : Dict String) (cancel acc deps : List String) (x : String)
    → contains x (rewrite_deps supersede cancel acc deps)
      ≡ (contains x acc || any (leads_to supersede cancel x) deps)
unfolding rewrite_deps
contains-rewrite_deps supersede cancel acc [] x = ground arith
contains-rewrite_deps supersede cancel acc (d ∷ deps) x = elim (Bool-cases (contains d cancel)) [
  | inl c ↦ rw c (contains-rewrite_deps supersede cancel acc deps x)
  | inr n ↦
      let m = mapped supersede d in
      elim (Bool-cases (contains m acc)) [
        | inl old ↦
            rw (n, old)
              (contains-rewrite_deps supersede cancel acc deps x
                ∙ ground (arith, eq_iff m x, ap (λ (s : String). contains s acc)))
        | inr new ↦
            rw (n, new)
              (contains-rewrite_deps supersede cancel (acc ++ m ∷ []) deps x
                ∙ ground (arith, contains-append x acc (m ∷ []), eq_iff m x, eq_iff x m))
      ]
]

-- The ids that replace others.
abbrev pub values : Dict String → List String
values [] = []
values ((o, n) ∷ d) = n ∷ values d

module _ (tl : TaskList) (ts : TaskStateFile) (patch : TaskListPatch) where
  -- A dependency that the patched list may hold: not cancelled by the patch, and superseded by it only if
  -- it replaces another task there.
  abbrev pub MayStand : String → Type 0
  MayStand x =
      (contains x patch.cancel ≡ false)
      × (contains x (keys patch.supersede) ≡ true → contains x (values patch.supersede) ≡ true)

  value-kept :
      (d : Dict String)
      → All (Replaces tl ts patch) d
      → (dep new : String) → find dep d ≡ some new
      → (contains new patch.cancel ≡ false) × (contains new (values d) ≡ true)
  unfolding find
  value-kept [] h dep new e = absurd (cc)
  value-kept ((o, n) ∷ d) h dep new e = elim (Bool-cases (o == dep)) [
    | inl here ↦
        let same : n ≡ new = ground arith in (rw (← same) h.0.2, ground (arith, eq_iff new n))
    | inr there ↦
        let (kept, value) = value-kept d h.1 dep new (ground arith) in (kept, ground arith)
  ]

  module _ (good : All (Replaces tl ts patch) patch.supersede) where
    leads_to-MayStand :
        (x dep : String) → leads_to patch.supersede patch.cancel x dep ≡ true → MayStand x
    unfolding mapped
    leads_to-MayStand x dep h = elim (Option-cases (find dep patch.supersede)) [
      | inl plain ↦ ground (
        arith,
        contains-keys dep patch.supersede,
        eq_iff dep x,
        ap (λ (s : String). contains s patch.cancel),
        ap (λ (s : String). contains s (keys patch.supersede)),
      )
      | inr (new, e) ↦
          let (kept, value) = value-kept patch.supersede good dep new e in
          ground (
            arith,
            eq_iff new x,
            ap (λ (s : String). contains s patch.cancel),
            ap (λ (s : String). contains s (values patch.supersede)),
          )
    ]

    any-MayStand :
        (deps : List String) (x : String)
        → any (leads_to patch.supersede patch.cancel x) deps ≡ true
        → MayStand x
    any-MayStand [] x h = absurd (cc)
    any-MayStand (d ∷ deps) x h = elim (Bool-cases (leads_to patch.supersede patch.cancel x d)) [
      | inl here ↦ leads_to-MayStand x d here
      | inr there ↦ any-MayStand deps x (rw there at h)
    ]

    rewritten :
        (t : Task) (x : String)
        → contains x (rewrite_task patch.supersede patch.cancel t).depends_on ≡ true
        → MayStand x
    rewritten t x h =
        any-MayStand t.depends_on x
          (sym (contains-rewrite_deps patch.supersede patch.cancel [] t.depends_on x) ∙ h)

    all_rewritten :
        (tasks : List Task)
        → All
            (λ t. (x : String) → contains x t.depends_on ≡ true → MayStand x)
            (rewrite_depends_on patch.supersede patch.cancel tasks)
    unfolding rewrite_depends_on
    all_rewritten [] = tt
    all_rewritten (t ∷ tasks) = (rewritten t, all_rewritten tasks)

-- After a patch without errors no task depends on a task that the patch cancels, and none depends on one
-- that the patch supersedes, unless the patch names that one as the replacement of another. Tasks that
-- were superseded before the patch are not spoken of.
pub apply_patch-MayStand :
    (tl : TaskList) (ts : TaskStateFile) (c : List String) (patch : TaskListPatch)
    (on_disk : Option (List String))
    → (apply_patch tl ts c patch on_disk).errors ≡ []
    → All
        (λ t. (x : String) → contains x t.depends_on ≡ true → MayStand tl ts patch x)
        (apply_patch tl ts c patch on_disk).task_list.tasks
unfolding patched_list
apply_patch-MayStand tl ts c patch on_disk h =
    let a = apply_patch-Accepted tl ts c patch on_disk h in
    rw a.list_lem
      (all_rewritten tl ts patch (replaced tl ts patch a.retires) (tl.tasks ++ patch.add))
