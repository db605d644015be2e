-- ===== src/Patch/Statuses.antt =====
-- src/unrest_harness/task_list_patch.py: the statuses before and after a patch.
use unrest.Base.{
  ◌≡◌, sym, subst, refl, ap, true, false, not, ◌||◌, List, [], ◌∷◌, ◌++◌, String, Option, arith,
  ◌==◌, eq_iff, if◌then◌else◌, contains, concat_map, Dict, keys, All, Bool-cases, inl, inr,
}
use unrest.Model.Task.{
  Task, TaskList, TaskListPatch, TaskStatus, TaskStateFile, is_cleared, is_running, is_pending,
  is_failed, status_of, set_status, status_of-set_status,
}
use unrest.Validation.Errors.{ValidationError, RetireOp}
use unrest.Validation.Fields.{ids_of}
use unrest.Validation.Fields.Exact.{append-eq-nil, concat_map-eq-nil, All-map}
use unrest.Patch.{
  sealed_task_ids, check_retirable, add_errors, supersede_errors, cancel_errors, overlap_errors,
  retire_errors, set_all, patched_state, apply_patch,
}
use unrest.Patch.Refusal.{apply_patch-Accepted}

status_of-set_all :
    (s : TaskStatus) (ts : TaskStateFile) (ids : List String) (x : String)
    → status_of (set_all s ts ids) x ≡ (if contains x ids then s else status_of ts x)
unfolding set_all
status_of-set_all s ts [] x = refl
status_of-set_all s ts (i ∷ ids) x = ground (
  arith,
  status_of-set_all s (set_status ts i s) ids x,
  status_of-set_status ts i x s,
  eq_iff i x,
  eq_iff x i,
)

pub status_of-patched_state :
    (ts : TaskStateFile) (patch : TaskListPatch) (x : String)
    → status_of (patched_state ts patch) x ≡ (
        if contains x (ids_of patch.add)
        then TaskStatus.pending
        else if contains x (keys patch.supersede) || contains x patch.cancel
        then TaskStatus.superseded
        else status_of ts x)
unfolding patched_state
status_of-patched_state ts patch x =
    let first = set_all TaskStatus.superseded ts (keys patch.supersede) in
    let second = set_all TaskStatus.superseded first patch.cancel in
    ground (
      arith,
      status_of-set_all TaskStatus.superseded ts (keys patch.supersede) x,
      status_of-set_all TaskStatus.superseded first patch.cancel x,
      status_of-set_all TaskStatus.pending second (ids_of patch.add) x,
    )

-- A task that a patch may retire: known, pending or failed, and in no sealed subgraph.
abbrev pub Retirable : TaskList → TaskStateFile → String → Type 0
Retirable tl ts x =
    (contains x (ids_of tl.tasks) ≡ true)
    × ((is_pending (status_of ts x) || is_failed (status_of ts x)) ≡ true)
    × (contains x (sealed_task_ids tl ts) ≡ false)

check_retirable_exact :
    (ts : TaskStateFile) (sealed : List String) (x : String) (op : RetireOp)
    → check_retirable ts sealed x op ≡ []
    → ((is_pending (status_of ts x) || is_failed (status_of ts x)) ≡ true)
      × (contains x sealed ≡ false)
unfolding check_retirable
check_retirable_exact ts sealed x op h = ground arith

All-contains_at {κ} :
    (P : String → Type κ) (xs : List String) (x : String) → All P xs → contains x xs ≡ true → P x
All-contains_at P [] x h m = absurd (cc)
All-contains_at P (y ∷ ys) x h m = elim (Bool-cases (x == y)) [
  | inl same ↦ subst P (sym ((eq_iff x y).0 same)) h.0
  | inr other ↦ All-contains_at P ys x h.1 (ground arith)
]

keys-All {κ} : (P : String → Type κ) (d : Dict String) → All (λ (o, n). P o) d → All P (keys d)
unfolding keys
keys-All P [] h = tt
keys-All P ((o, n) ∷ d) h = (h.0, keys-All P d h.1)

-- What step 4 asks of one replacement.
abbrev pub Replaces : TaskList → TaskStateFile → TaskListPatch → String × String → Type 0
Replaces tl ts patch (old, new) =
    Retirable tl ts old
    × (contains new (ids_of tl.tasks ++ ids_of patch.add) ≡ true)
    × (contains new patch.cancel ≡ false)

module _ (tl : TaskList) (ts : TaskStateFile) (patch : TaskListPatch)
    (clean : retire_errors tl ts patch ≡ []) where
  abbrev existing : List String
  existing = ids_of tl.tasks

  abbrev sealed : List String
  sealed = sealed_task_ids tl ts

  abbrev superseding : List ValidationError
  superseding =
      concat_map (supersede_errors ts sealed existing (existing ++ ids_of patch.add) patch.cancel)
        patch.supersede

  abbrev cancelling : List ValidationError
  cancelling = concat_map (cancel_errors ts sealed existing) patch.cancel

  loops : (superseding ≡ []) × (cancelling ≡ [])
  unfolding retire_errors
  loops =
      (append-eq-nil superseding cancelling).0
        ((append-eq-nil (overlap_errors patch.cancel (keys patch.supersede))
            (superseding ++ cancelling)).0
          clean).1

  abbrev new_errors : String → String → List ValidationError
  new_errors o n =
      if not (contains n (existing ++ ids_of patch.add))
      then ValidationError.supersede_new_id_unknown o n ∷ []
      else if contains n patch.cancel
      then ValidationError.supersede_target_cancelled o n ∷ []
      else []

  replaced_one :
      (o n : String)
      → supersede_errors ts sealed existing (existing ++ ids_of patch.add) patch.cancel (o, n) ≡ []
      → Replaces tl ts patch (o, n)
  unfolding supersede_errors
  replaced_one o n h = ground (
    arith,
    check_retirable_exact ts sealed o RetireOp.supersede,
    append-eq-nil (check_retirable ts sealed o RetireOp.supersede) (new_errors o n),
  )

  pub replaced : All (Replaces tl ts patch) patch.supersede
  replaced =
      All-map patch.supersede (λ (o, n) h. replaced_one o n h)
        ((concat_map-eq-nil
            (supersede_errors ts sealed existing (existing ++ ids_of patch.add) patch.cancel)
            patch.supersede).0
          loops.0)

  cancelled_one : (x : String) → cancel_errors ts sealed existing x ≡ [] → Retirable tl ts x
  unfolding cancel_errors
  cancelled_one x h = ground (arith, check_retirable_exact ts sealed x RetireOp.cancel)

  cancelled : All (Retirable tl ts) patch.cancel
  cancelled =
      All-map patch.cancel cancelled_one
        ((concat_map-eq-nil (cancel_errors ts sealed existing) patch.cancel).0 loops.1)

  old_ids : (d : Dict String) → All (Replaces tl ts patch) d → All (λ (o, n). Retirable tl ts o) d
  old_ids [] h = tt
  old_ids ((o, n) ∷ d) h = (h.0.0, old_ids d h.1)

  pub retired-Retirable :
      (x : String)
      → (contains x (keys patch.supersede) || contains x patch.cancel) ≡ true
      → Retirable tl ts x
  retired-Retirable x h = elim (Bool-cases (contains x patch.cancel)) [
    | inl c ↦ All-contains_at (Retirable tl ts) patch.cancel x cancelled c
    | inr n ↦
        All-contains_at (Retirable tl ts) (keys patch.supersede) x
          (keys-All (Retirable tl ts) patch.supersede (old_ids patch.supersede replaced))
          (ground arith)
  ]

new_ids :
    (existing seen : List String) (tasks : List Task) (x : String)
    → add_errors existing seen tasks ≡ []
    → contains x (ids_of tasks) ≡ true
    → contains x existing ≡ false
unfolding add_errors
new_ids existing seen [] x h m = cc
new_ids existing seen (t ∷ ts) x h m = ground (
  arith,
  new_ids existing (t.id ∷ seen) ts x,
  eq_iff x t.id,
  ap (λ (s : String). contains s existing),
)

-- The status of a task of the list after a patch without errors: superseded if the patch supersedes
-- or cancels it, and otherwise what it was. The tasks that the patch adds are new, and pending.
pub apply_patch_statuses :
    (tl : TaskList) (ts : TaskStateFile) (c : List String) (patch : TaskListPatch)
    (on_disk : Option (List String)) (x : String)
    → (apply_patch tl ts c patch on_disk).errors ≡ []
    → (contains x (ids_of tl.tasks) ≡ true
        → status_of (apply_patch tl ts c patch on_disk).task_state x ≡ (
            if contains x (keys patch.supersede) || contains x patch.cancel
            then TaskStatus.superseded
            else status_of ts x))
      × (contains x (ids_of patch.add) ≡ true
          → (contains x (ids_of tl.tasks) ≡ false)
            × (status_of (apply_patch tl ts c patch on_disk).task_state x ≡ TaskStatus.pending))
apply_patch_statuses tl ts c patch on_disk x h =
    let a = apply_patch-Accepted tl ts c patch on_disk h in
    rw a.state_lem (
      (λ m. ground (
        arith,
        status_of-patched_state ts patch x,
        new_ids (ids_of tl.tasks) [] patch.add x a.adds,
      )),
      λ m. (
        new_ids (ids_of tl.tasks) [] patch.add x a.adds m,
        ground (arith, status_of-patched_state ts patch x),
      ),
    )

-- A patch without errors retires only tasks of the list that were pending or failed and are in no
-- sealed subgraph. So every cleared or running task, and every task upstream of a cleared gate,
-- keeps its status.
pub apply_patch-Retirable :
    (tl : TaskList) (ts : TaskStateFile) (c : List String) (patch : TaskListPatch)
    (on_disk : Option (List String)) (x : String)
    → (apply_patch tl ts c patch on_disk).errors ≡ []
    → ((contains x (keys patch.supersede) || contains x patch.cancel) ≡ true → Retirable tl ts x)
      × (contains x (ids_of tl.tasks) ≡ true
          → (is_cleared (status_of ts x)
              || (is_running (status_of ts x) || contains x (sealed_task_ids tl ts)))
            ≡ true
          → status_of (apply_patch tl ts c patch on_disk).task_state x ≡ status_of ts x)
apply_patch-Retirable tl ts c patch on_disk x h =
    let a = apply_patch-Accepted tl ts c patch on_disk h in
    let retired = retired-Retirable tl ts patch a.retires x in
    (retired, λ m k. ground (arith, retired, (apply_patch_statuses tl ts c patch on_disk x h).0 m))
