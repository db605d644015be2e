-- ===== src/Patch/Stranded.antt =====
-- src/unrest_harness/task_list_patch.py: a dependency that is replaced by a superseded task.
use unrest.Base.{
  ◌≡◌, ap, ◌∙◌, true, false, List, [], ◌∷◌, ◌++◌, map, String, Option, some, arith, eq_iff,
  contains, any, all, Dict, find,
}
use unrest.Model.Task.{
  Task, TaskList, TaskListPatch, TaskStateFile, TaskStatus, is_cleared, status_of,
}
use unrest.Patch.{mapped, rewrite_task, rewrite_depends_on, patched_list, apply_patch}
use unrest.Patch.Refusal.{apply_patch-Accepted}
use unrest.Patch.Rewriting.{leads_to, contains-rewrite_deps}
use unrest.Coordinator.Runnable.{deps_cleared, is_ready}

leads_on :
    (supersede : Dict String) (cancel deps : List String) (old new : String)
    → find old supersede ≡ some new
    → contains old cancel ≡ false
    → contains old deps ≡ true
    → any (leads_to supersede cancel new) deps ≡ true
unfolding mapped
leads_on supersede cancel [] old new f n c = cc
leads_on supersede cancel (d ∷ deps) old new f n c = ground (
  arith,
  leads_on supersede cancel deps old new f n,
  eq_iff old d,
  eq_iff new new,
  ap (λ (s : String). find s supersede),
  ap (λ (s : String). contains s cancel),
)

uncleared :
    (ts : TaskStateFile) (deps : List String) (x : String)
    → contains x deps ≡ true
    → is_cleared (status_of ts x) ≡ false
    → all (λ dep. is_cleared (status_of ts dep)) deps ≡ false
uncleared ts [] x c n = cc
uncleared ts (d ∷ deps) x c n =
    ground (arith, uncleared ts deps x, eq_iff x d, ap (λ (s : String). status_of ts s))

-- If a patch without errors replaces a task by one that it leaves superseded, then every task of the old
-- list and of the added ones that depends on the replaced task depends on the superseded one afterwards,
-- and is not ready.
pub apply_patch-stranded :
    (tl : TaskList) (ts : TaskStateFile) (c : List String) (patch : TaskListPatch)
    (on_disk : Option (List String)) (old new : String) (t : Task)
    → (apply_patch tl ts c patch on_disk).errors ≡ []
    → find old patch.supersede ≡ some new
    → contains old patch.cancel ≡ false
    → status_of (apply_patch tl ts c patch on_disk).task_state new ≡ TaskStatus.superseded
    → contains old t.depends_on ≡ true
    → ((apply_patch tl ts c patch on_disk).task_list.tasks
        ≡ map (rewrite_task patch.supersede patch.cancel) (tl.tasks ++ patch.add))
      × (contains new (rewrite_task patch.supersede patch.cancel t).depends_on ≡ true)
      × (is_ready
            (apply_patch tl ts c patch on_disk).task_state
            (rewrite_task patch.supersede patch.cancel t)
          ≡ false)
unfolding patched_list rewrite_depends_on is_ready deps_cleared
apply_patch-stranded tl ts c patch on_disk old new t h f n s d =
    let a = apply_patch-Accepted tl ts c patch on_disk h in
    let after = (apply_patch tl ts c patch on_disk).task_state in
    let kept =
      contains-rewrite_deps patch.supersede patch.cancel [] t.depends_on new
      ∙ leads_on patch.supersede patch.cancel t.depends_on old new f n d in
    (
      ap (λ (l : TaskList). l.tasks) a.list_lem,
      kept,
      ground (
        arith,
        s,
        uncleared after (rewrite_task patch.supersede patch.cancel t).depends_on new kept,
      ),
    )
