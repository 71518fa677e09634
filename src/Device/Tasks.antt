-- ===== src/Device/Tasks.antt =====
-- CTaskManager, Src/Device/Component/Task/TaskManager.cpp: the handlers of the component "task".
-- The mutex makes each handler one step; logging is left out, save where it can throw.
pub mod Schedule
pub mod Runs
pub mod Entries
pub mod Agree
pub mod Stored
pub mod Renewed
pub mod History
pub mod Loaded
pub mod Returns
pub mod Timed
use shuchuang.Shared.{
  ℕ, ◌+◌, String, Bool, true, false, Option, none, some, List, [], ◌∷◌, ◌++◌, length, not, ◌&&◌,
  ◌||◌, ◌==◌, nat_key, if◌then◌else◌,
}
use shuchuang.Shared.Int.{ℤ, pos, int_key}
use shuchuang.Shared.Dict.{Dict, find, insert, erase}
use shuchuang.Shared.Outcome.{Action, pure, fail, get, or_throw, fail_if, ◌>>=◌, ◌>>◌}
use shuchuang.Shared.Poco.{Json}
use shuchuang.Common.Config
use shuchuang.Device.TaskTable.{
  TaskInfo, TaskHandler, Scheduled, TaskManager, new_handler, cancel, task_exists, in_range,
  first_time, task_info_to_struct,
}
use shuchuang.Device.World.{World, lacks, the_param, write_param, on_tasks, on_config}

abbrev pub max_task_num : ℕ
max_task_num = 32

module _ {O : Type 0} where
  -- A new object for a task; it is numbered.
  unfoldable pub make_handler : TaskInfo → Action (World O) TaskHandler
  make_handler task = do
    w ← get
    on_tasks (λ t. record t { created = t.created + 1 })
    pure (new_handler w.tasks.created task)

  unfoldable pub add_to_schedule_queue : TaskHandler → Action (World O) (Unit {0})
  add_to_schedule_queue h = do
    w ← get
    first ← or_throw (first_time w.now w.tasks.utc_offset h)
    on_tasks (λ t. record t { queue = t.queue ++ record { handler = h; first = first } ∷ [] })

  unfoldable pub schedule_active : TaskHandler → Action (World O) (Unit {0})
  schedule_active h = if h.is_active then add_to_schedule_queue h else pure tt

  unfoldable pub stop_all_tasks : Action (World O) (Unit {0})
  stop_all_tasks = on_tasks (λ t. record t { task_map = []; queue = [] })

  abbrev pub push_front :
      O → Option (Option (List O × O × List O)) → Option (Option (List O × O × List O))
  push_front o none = none
  push_front o (some none) = some none
  push_front o (some (some (before, x, after))) = some (some (o ∷ before, x, after))

module _ {O : Type 0} ⦃j : Json O⦄ where
  unfoldable pub struct_to_task_info : O → Action (World O) TaskInfo
  struct_to_task_info ds = do
    id ← or_throw (j.extract_int64 ds "id")
    option ← or_throw (j.extract_int ds "option")
    hour ← or_throw (j.extract_int ds "hour")
    minute ← or_throw (j.extract_int ds "minute")
    weekday ← or_throw (j.extract_int ds "weekday")
    active ← or_throw (j.extract_int ds "active")
    pure (record {
      id = id;
      option = option;
      hour = hour;
      minute = minute;
      weekday = weekday;
      active = active;
    })

  -- The first entry of the list with this id, and what stands around it; `none` where an entry
  -- before has no id.
  unfoldable pub split_config : ℤ → List O → Option (Option (List O × O × List O))
  split_config id [] = some none
  split_config id (o ∷ os) =
      let rest = split_config id os in
      elim (j.extract_int64 o "id") [
        | none ↦ none
        | some i ↦ if i == id then some (some ([], o, os)) else push_front o rest
      ]

  unfoldable pub set_task_config : List O → Action (World O) (Unit {0})
  set_task_config config = do
    on_tasks (λ t. record t { task_config = config })
    on_config (Config.set_array "Tasks" (some config))
    pure tt

  abbrev lacks_task : Option O → Bool
  lacks_task none = true
  lacks_task (some o) =
      not (j.has o "option")
      || (not (j.has o "hour")
          || (not (j.has o "minute") || (not (j.has o "weekday") || not (j.has o "active"))))

  abbrev lacks_id : Option O → Bool
  lacks_id none = true
  lacks_id (some o) = not (j.has o "id")

  -- The tests of `addTask` before it changes anything: the parameter, its object "task", the task.
  unfoldable pub checked_task : Action (World O) (O × O × TaskInfo)
  checked_task = do
    w ← get
    fail_if (length w.tasks.task_map == max_task_num) "430"
    fail_if (lacks w "task") "431"
    o ← the_param
    fail_if (lacks_task (j.get_object o "task")) "432"
    object ← or_throw (j.get_object o "task")
    task ← struct_to_task_info (j.set_int64 object "id" w.now)
    fail_if (not (in_range task)) "433"
    fail_if (not (task_exists task w.tasks.task_map == pos 0)) "434"
    pure (o, object, task)

  unfoldable pub store_task : TaskInfo → Action (World O) (Unit {0})
  store_task task = do
    w ← get
    set_task_config (w.tasks.task_config ++ task_info_to_struct task ∷ [])
    h ← make_handler task
    on_tasks (λ t. record t { task_map = insert task.id h t.task_map })
    schedule_active h

  unfoldable pub add_task : Action (World O) (Unit {0})
  add_task = do
    checked ← checked_task
    let (o, object, task) = checked
    store_task task
    write_param (j.set_object o "task" (j.set_int64 object "id" task.id))

  unfoldable pub drop_handler : ℤ → TaskHandler → Action (World O) (Unit {0})
  drop_handler id h =
      on_tasks (λ t. record t { queue = cancel h t.queue; task_map = erase id t.task_map })

  -- The log of a deleted entry reads four numbers of it.
  unfoldable pub log_entry : O → Action (World O) (Unit {0})
  log_entry ds = do
    or_throw (j.extract_int ds "option")
    or_throw (j.extract_int ds "hour")
    or_throw (j.extract_int ds "minute")
    or_throw (j.extract_int ds "weekday")
    pure tt

  unfoldable pub delete_entry : Option (List O × O × List O) → Action (World O) (Unit {0})
  delete_entry none = pure tt
  delete_entry (some (before, ds, after)) = do set_task_config (before ++ after); log_entry ds

  unfoldable pub remove_found : ℤ → Option TaskHandler → Action (World O) (Unit {0})
  remove_found id none = fail "435"
  remove_found id (some h) = do
    drop_handler id h
    w ← get
    entry ← or_throw (split_config id w.tasks.task_config)
    delete_entry entry

  -- The id that `removeTask` is asked for.
  unfoldable pub asked_id : Action (World O) ℤ
  asked_id = do
    w ← get
    fail_if (lacks w "task") "431"
    o ← the_param
    fail_if (lacks_id (j.get_object o "task")) "432"
    object ← or_throw (j.get_object o "task")
    or_throw (j.get_int object "id")

  unfoldable pub remove_task : Action (World O) (Unit {0})
  remove_task = do id ← asked_id; w ← get; remove_found id (find id w.tasks.task_map)

  unfoldable pub replace_entry :
      TaskInfo → Option (List O × O × List O) → Action (World O) (Unit {0})
  replace_entry task none = pure tt
  replace_entry task (some (before, ds, after)) =
      set_task_config (before ++ task_info_to_struct task ∷ after)

  unfoldable pub update_entry : TaskInfo → Action (World O) (Unit {0})
  update_entry task = do
    w ← get
    entry ← or_throw (split_config task.id w.tasks.task_config)
    replace_entry task entry

  -- The old handler is dropped, a new one takes its place.
  unfoldable pub renew_task : TaskInfo → TaskHandler → Action (World O) (Unit {0})
  renew_task task h = do
    drop_handler task.id h
    h' ← make_handler task
    on_tasks (λ t. record t { task_map = insert task.id h' t.task_map })
    schedule_active h'
    update_entry task

  -- `same` is the task of the same schedule, 0 if there is none.
  unfoldable pub modify_found : ℤ → TaskInfo → Option TaskHandler → Action (World O) (Unit {0})
  modify_found same task none = fail "435"
  modify_found same task (some h) = do
    fail_if (not (in_range task)) "432"
    fail_if (not (same == task.id) && not (same == pos 0)) "434"
    if same == task.id then pure tt else renew_task task h

  -- The task that `modifyTask` is asked for.
  unfoldable pub asked_task : Action (World O) TaskInfo
  asked_task = do
    w ← get
    fail_if (lacks w "task") "431"
    o ← the_param
    fail_if (lacks_id (j.get_object o "task") || lacks_task (j.get_object o "task")) "432"
    object ← or_throw (j.get_object o "task")
    struct_to_task_info object

  unfoldable pub modify_task : Action (World O) (Unit {0})
  modify_task = do
    task ← asked_task
    w ← get
    modify_found (task_exists task w.tasks.task_map) task (find task.id w.tasks.task_map)

  unfoldable pub get_tasks : Action (World O) (Unit {0})
  get_tasks = do w ← get; o ← the_param; write_param (j.set_objects o "tasks" w.tasks.task_config)

  -- An entry of the configuration is printed and parsed again: `reparse`.
  unfoldable pub load_entry : (O → Option O) → O → Action (World O) (Unit {0})
  load_entry reparse entry = do
    ds ← or_throw (reparse entry)
    on_tasks (λ t. record t { task_config = t.task_config ++ ds ∷ [] })
    task ← struct_to_task_info ds
    h ← make_handler task
    schedule_active h
    on_tasks (λ t. record t { task_map = insert task.id h t.task_map })

  unfoldable pub load_entries : (O → Option O) → List O → Action (World O) (Unit {0})
  load_entries reparse [] = pure tt
  load_entries reparse (entry ∷ rest) = do load_entry reparse entry; load_entries reparse rest

  unfoldable pub load_array : (O → Option O) → Option (List O) → Action (World O) (Unit {0})
  load_array reparse none = pure tt
  load_array reparse (some entries) = load_entries reparse entries

  unfoldable pub load_tasks_config : (O → Option O) → Action (World O) (Unit {0})
  load_tasks_config reparse = do
    array ← on_config (Config.get_array "Tasks")
    on_tasks (λ t. record t { task_config = [] })
    load_array reparse array

  unfoldable pub reset_tasks : (O → Option O) → Action (World O) (Unit {0})
  reset_tasks reparse = do stop_all_tasks; load_tasks_config reparse
