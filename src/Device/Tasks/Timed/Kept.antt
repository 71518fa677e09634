-- ===== src/Device/Tasks/Timed/Kept.antt =====
-- The handlers of CTaskManager that remove, modify and load tasks: the tasks in the queue stay as they
-- were timed.
use shuchuang.Shared.{Option, none, some, List, [], ◌∷◌, nat_key}
use shuchuang.Shared.Int.{ℤ, int_key}
use shuchuang.Shared.Outcome.Keeps.{Keeps, Keeps-bind}
use shuchuang.Shared.Poco.{Json}
use shuchuang.Device.TaskTable.{TaskInfo, TaskHandler}
use shuchuang.Device.Tasks.{
  log_entry, delete_entry, remove_found, asked_id, remove_task, replace_entry, update_entry,
  renew_task, modify_found, asked_task, modify_task, load_entry, load_entries, load_array,
  load_tasks_config,
}
use shuchuang.Device.Tasks.Timed.{IsOn, timed_rules, set_task_config-IsOn, struct_to_task_info-IsOn}

module _ {O : Type 0} ⦃j : Json O⦄ (offset : ℤ) where
  log_entry-IsOn : (ds : O) → Keeps (IsOn {O = O} offset) (log_entry ds)
  unfolding log_entry
  log_entry-IsOn ds = search timed_rules depth 40

  delete_entry-IsOn :
      (entry : Option (List O × O × List O)) → Keeps (IsOn {O = O} offset) (delete_entry entry)
  unfolding delete_entry
  delete_entry-IsOn none = search timed_rules
  delete_entry-IsOn (some (before, ds, after)) =
      search (timed_rules, set_task_config-IsOn, log_entry-IsOn) depth 40

  remove_found-IsOn :
      (id : ℤ) (found : Option TaskHandler) → Keeps (IsOn {O = O} offset) (remove_found id found)
  unfolding remove_found
  remove_found-IsOn id none = search timed_rules
  remove_found-IsOn id (some h) = search (timed_rules, delete_entry-IsOn) depth 40

  asked_id-IsOn : Keeps (IsOn {O = O} offset) asked_id
  unfolding asked_id
  asked_id-IsOn = search timed_rules depth 40

  pub remove_task-IsOn : Keeps (IsOn {O = O} offset) remove_task
  unfolding remove_task
  remove_task-IsOn = search (timed_rules, asked_id-IsOn, remove_found-IsOn) depth 40

  replace_entry-IsOn :
      (task : TaskInfo) (entry : Option (List O × O × List O))
      → Keeps (IsOn {O = O} offset) (replace_entry task entry)
  unfolding replace_entry
  replace_entry-IsOn task none = search timed_rules
  replace_entry-IsOn task (some (before, ds, after)) = search set_task_config-IsOn

  update_entry-IsOn : (task : TaskInfo) → Keeps (IsOn {O = O} offset) (update_entry task)
  unfolding update_entry
  update_entry-IsOn task = search (timed_rules, replace_entry-IsOn) depth 40

  renew_task-IsOn :
      (task : TaskInfo) (h : TaskHandler) → Keeps (IsOn {O = O} offset) (renew_task task h)
  unfolding renew_task
  renew_task-IsOn task h = search (timed_rules, update_entry-IsOn) depth 40

  modify_found-IsOn :
      (same : ℤ) (task : TaskInfo) (found : Option TaskHandler)
      → Keeps (IsOn {O = O} offset) (modify_found same task found)
  unfolding modify_found
  modify_found-IsOn same task none = search timed_rules
  modify_found-IsOn same task (some h) = search (timed_rules, renew_task-IsOn) depth 40

  asked_task-IsOn : Keeps (IsOn {O = O} offset) asked_task
  unfolding asked_task
  asked_task-IsOn = search (timed_rules, struct_to_task_info-IsOn) depth 40

  pub modify_task-IsOn : Keeps (IsOn {O = O} offset) modify_task
  unfolding modify_task
  modify_task-IsOn = search (timed_rules, asked_task-IsOn, modify_found-IsOn) depth 40

  module _ (reparse : O → Option O) where
    load_entry-IsOn : (entry : O) → Keeps (IsOn {O = O} offset) (load_entry reparse entry)
    unfolding load_entry
    load_entry-IsOn entry = search (timed_rules, struct_to_task_info-IsOn) depth 40

    load_entries-IsOn :
        (entries : List O) → Keeps (IsOn {O = O} offset) (load_entries reparse entries)
    unfolding load_entries
    load_entries-IsOn [] = search timed_rules
    load_entries-IsOn (entry ∷ rest) =
        Keeps-bind _ _ (load_entry-IsOn entry) (λ u. load_entries-IsOn rest)

    load_array-IsOn :
        (entries : Option (List O)) → Keeps (IsOn {O = O} offset) (load_array reparse entries)
    unfolding load_array
    load_array-IsOn none = search timed_rules
    load_array-IsOn (some entries) = load_entries-IsOn entries

    pub load_tasks_config-IsOn : Keeps (IsOn {O = O} offset) (load_tasks_config reparse)
    unfolding load_tasks_config
    load_tasks_config-IsOn = search (timed_rules, load_array-IsOn) depth 40
