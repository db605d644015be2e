-- ===== src/Model/Task.antt =====
-- src/unrest_harness/models.py: tasks, the task list, its patch, and the live cursor of statuses.
use unrest.Base.{
  ◌≡◌, Bool, true, false, not, ◌||◌, List, String, Option, none, some, arith, ◌==◌, eq_iff,
  if◌then◌else◌, Dict, find, put, find-put, is_empty,
}

pub data TaskType : Type 0 where
  work validate gate : TaskType

pub data TaskStatus : Type 0 where
  pending running cleared failed superseded : TaskStatus

abbrev pub is_gate : TaskType → Bool
is_gate TaskType.gate = true
is_gate _ = false

abbrev pub is_work : TaskType → Bool
is_work TaskType.work = true
is_work _ = false

abbrev pub is_validate : TaskType → Bool
is_validate TaskType.validate = true
is_validate _ = false

abbrev pub is_pending : TaskStatus → Bool
is_pending TaskStatus.pending = true
is_pending _ = false

abbrev pub is_running : TaskStatus → Bool
is_running TaskStatus.running = true
is_running _ = false

abbrev pub is_cleared : TaskStatus → Bool
is_cleared TaskStatus.cleared = true
is_cleared _ = false

abbrev pub is_failed : TaskStatus → Bool
is_failed TaskStatus.failed = true
is_failed _ = false

abbrev pub is_superseded : TaskStatus → Bool
is_superseded TaskStatus.superseded = true
is_superseded _ = false

pub record Task : Type 0 where
  pub id : String
  pub type : TaskType
  pub body : String
  pub targets : List String
  pub skill : Option String
  pub auto_merge : Bool
  pub depends_on : List String

pub record TaskList : Type 0 where
  pub tasks : List Task

pub record TaskListPatch : Type 0 where
  pub add_items : List String
  pub add : List Task
  pub supersede : Dict String
  pub cancel : List String

unfoldable pub is_empty_patch : TaskListPatch → Bool
is_empty_patch p = not (
    not (is_empty p.add_items)
    || not (is_empty p.add)
    || not (is_empty p.supersede)
    || not (is_empty p.cancel))

pub record TaskStateEntry : Type 0 where
  pub status : TaskStatus
  pub last_attempt : Option String

-- `TaskStateEntry()`
abbrev pub fresh_entry : TaskStateEntry
fresh_entry = record { status = TaskStatus.pending; last_attempt = none }

pub record TaskStateFile : Type 0 where
  pub tasks : Dict TaskStateEntry

-- `entry.status if entry else "pending"`
abbrev pub entry_status : Option TaskStateEntry → TaskStatus
entry_status none = TaskStatus.pending
entry_status (some e) = e.status

unfoldable pub status_of : TaskStateFile → String → TaskStatus
status_of ts task_id = entry_status (find task_id ts.tasks)

-- `self.tasks.setdefault(task_id, TaskStateEntry())`
abbrev pub entry_or_fresh : Option TaskStateEntry → TaskStateEntry
entry_or_fresh none = fresh_entry
entry_or_fresh (some e) = e

unfoldable pub set_status : TaskStateFile → String → TaskStatus → TaskStateFile
set_status ts task_id status =
    let entry = entry_or_fresh (find task_id ts.tasks) in
    record { tasks = put task_id (record entry { status = status }) ts.tasks }

unfoldable pub set_last_attempt : TaskStateFile → String → String → TaskStateFile
set_last_attempt ts task_id spawn_ts =
    let entry = entry_or_fresh (find task_id ts.tasks) in
    record { tasks = put task_id (record entry { last_attempt = some spawn_ts }) ts.tasks }

-- The `last_attempt` of a task's entry, if it has one.
unfoldable pub last_attempt_of : TaskStateFile → String → Option String
last_attempt_of ts task_id = elim (find task_id ts.tasks) [ none ↦ none | some e ↦ e.last_attempt ]

pub status_of-set_status :
    (ts : TaskStateFile) (k j : String) (s : TaskStatus)
    → status_of (set_status ts k s) j ≡ (if k == j then s else status_of ts j)
unfolding status_of set_status
status_of-set_status ts k j s = ground (
  arith,
  eq_iff k j,
  find-put k j (record (entry_or_fresh (find k ts.tasks)) { status = s }) ts.tasks,
)

pub status_of-set_last_attempt :
    (ts : TaskStateFile) (k j a : String) → status_of (set_last_attempt ts k a) j ≡ status_of ts j
unfolding status_of set_last_attempt
status_of-set_last_attempt ts k j a = ground (
  arith,
  eq_iff k j,
  find-put k j (record (entry_or_fresh (find k ts.tasks)) { last_attempt = some a }) ts.tasks,
)

pub last_attempt_of-set_status :
    (ts : TaskStateFile) (k j : String) (s : TaskStatus)
    → last_attempt_of (set_status ts k s) j ≡ last_attempt_of ts j
unfolding last_attempt_of set_status
last_attempt_of-set_status ts k j s = ground (
  arith,
  eq_iff k j,
  find-put k j (record (entry_or_fresh (find k ts.tasks)) { status = s }) ts.tasks,
)
