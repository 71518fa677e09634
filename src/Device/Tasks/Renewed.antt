-- ===== src/Device/Tasks/Renewed.antt =====
-- `modifyTask` of CTaskManager, Src/Device/Component/Task/TaskManager.cpp: the new handler and the new
-- entry of a task.
use shuchuang.Shared.{
  ℕ, nat_key, ◌≡◌, refl, true, Option, none, some, List, [], ◌∷◌, ◌++◌, arith, ◌==◌, is_some, inl,
  inr, Option-cases, string_key, if-rule,
}
use shuchuang.Shared.Int.{ℤ, int_key}
use shuchuang.Shared.Dict.{Dict, find, insert, erase}
use shuchuang.Shared.Outcome.{ok, Action, ◌>>=◌}
use shuchuang.Shared.Outcome.Gives.{after-fail_if, Reads, after}
use shuchuang.Shared.Outcome.Keeps.{keeps_rules, Keeps, Keeps-modify, Keeps-fail, Keeps-pure}
use shuchuang.Shared.Poco.{Json}
use shuchuang.Device.TaskTable.{
  in_range, task_exists, first_time, TaskInfo, TaskHandler, task_info_to_struct, new_handler,
}
use shuchuang.Device.World.{World, steps, on_tasks}
use shuchuang.Device.Tasks.{
  make_handler, add_to_schedule_queue, schedule_active, set_task_config, drop_handler,
  replace_entry, modify_found, renew_task, update_entry, asked_task, modify_task,
}
use shuchuang.Device.Tasks.Entries.{
  describes, new_handler-describes, present, present-some, split_config-cases,
}
use shuchuang.Device.Tasks.Agree.{AgreeOn, renewed-AgreeOn}
use shuchuang.Device.Tasks.Stored.{
  Agrees, set_task_config-lem, Keeps-the_param, struct_to_task_info-Reads,
}

module _ {O : Type 0} ⦃j : Json O⦄ where
  asked_task-Reads : Reads (asked_task {O = O})
  unfolding asked_task
  asked_task-Reads s = search (keeps_rules, Keeps-the_param, struct_to_task_info-Reads) depth 40

  -- The new handler of a task is in the map, and its entry is not written yet.
  record IsRenewed (h : TaskHandler) (id : ℤ) (m : Dict ℤ TaskHandler) (c : List O) (w : World O)
      : Type 0 where
    mapped : w.tasks.task_map ≡ insert id h (erase id m)
    listed : w.tasks.task_config ≡ c
    loaded : is_some w.config ≡ true

  Keeps-IsRenewed :
      (h' : TaskHandler) (id : ℤ) (m : Dict ℤ TaskHandler) (c : List O) (h : TaskHandler)
      (first : ℤ)
      → Keeps (IsRenewed h' id m c) (
          on_tasks
            (λ t. record t { queue = t.queue ++ record { handler = h; first = first } ∷ [] }))
  unfolding on_tasks
  Keeps-IsRenewed h' id m c h first =
      Keeps-modify _ (λ s g. record { mapped = g.mapped; listed = g.listed; loaded = g.loaded })

  schedule_active-IsRenewed :
      (h' : TaskHandler) (id : ℤ) (m : Dict ℤ TaskHandler) (c : List O)
      → Keeps (IsRenewed h' id m c) (schedule_active h')
  unfolding schedule_active add_to_schedule_queue
  schedule_active-IsRenewed h' id m c = search (keeps_rules, Keeps-IsRenewed)

  -- A handler with an hour and a minute in range is scheduled without an exception.
  schedule_active-ok :
      (serial : ℕ) (task : TaskInfo) (w : World O)
      → in_range task ≡ true
      → (schedule_active (new_handler serial task) w).0 ≡ ok tt
  unfolding schedule_active add_to_schedule_queue first_time new_handler in_range on_tasks ◌>>=◌
  schedule_active-ok serial task w r = ground (arith, r)

  update_entry-Agrees :
      (task : TaskInfo) (h : TaskHandler) (m : Dict ℤ TaskHandler) (c : List O) (w : World O)
      → IsRenewed h task.id m c w
      → present task.id m ≡ 1
      → describes h (task_info_to_struct {O = O} task) ≡ true
      → AgreeOn m c
      → Agrees (update_entry task w).1
  unfolding update_entry replace_entry ◌>>=◌ Agrees set_task_config on_tasks
  update_entry-Agrees task h m c w n one d g = elim (Option-cases w.config) [
    | inl e ↦ ground (arith, n.loaded, e)
    | inr (root, e) ↦ elim (split_config-cases task.id c g.listed) [
      | inl (s, z) ↦ ground (arith, g.counted task.id, one, z)
      | inr (b, x, a, s, eq, ex, hb, ha) ↦
          (let (r, k) = set_task_config-lem (b ++ task_info_to_struct task ∷ a) root w e in
            rw (n.listed, s, k, n.mapped)
              (renewed-AgreeOn task h m b a x ex one d hb ha (rw eq at g), refl))
    ]
  ]

  then_ok :
      (m : Action (World O) (Unit {0})) (f : Unit {0} → Action (World O) (Unit {0})) (w : World O)
      → (m w).0 ≡ ok tt
      → Agrees (f tt (m w).1).1
      → Agrees ((m >>= f) w).1
  unfolding ◌>>=◌
  then_ok m f w e k = rw e k

  renew_task-Agrees :
      (task : TaskInfo) (h : TaskHandler) (w : World O)
      → find task.id w.tasks.task_map ≡ some h
      → in_range task ≡ true
      → Agrees w
      → Agrees (renew_task task h w).1
  unfolding renew_task drop_handler make_handler steps Agrees
  renew_task-Agrees task h w e range g =
      let h' = new_handler w.tasks.created task in
      then_ok (schedule_active h') _ _ (schedule_active-ok w.tasks.created task _ range) (
        update_entry-Agrees task h' w.tasks.task_map w.tasks.task_config _
          ((schedule_active-IsRenewed h' task.id w.tasks.task_map w.tasks.task_config).at _
            (record { mapped = refl; listed = refl; loaded = g.1 }))
          (present-some task.id h w.tasks.task_map e) (new_handler-describes O task w.tasks.created)
          g.0)

  modify_found-Agrees :
      (same : ℤ) (task : TaskInfo) (o : Option TaskHandler) (w : World O)
      → find task.id w.tasks.task_map ≡ o
      → Agrees w
      → Agrees (modify_found same task o w).1
  unfolding modify_found
  modify_found-Agrees same task none w e g = (Keeps-fail {A = Unit {0}} {P = Agrees} "435").at w g
  modify_found-Agrees same task (some h) w e g = after-fail_if Agrees _ _ _ w g λ range.
      after-fail_if Agrees _ _ _ w g λ _.
        if-rule (λ (m : Action (World O) (Unit {0})). Agrees (m w).1) (same == task.id)
          (λ _. (Keeps-pure {P = Agrees} tt).at w g)
          (λ _. renew_task-Agrees task h w e (ground (arith, range)) g)

  -- `modifyTask` keeps the tasks in memory and the configuration in agreement, whether it ends well
  -- or not.
  pub modify_task-Agrees : (w : World O) → Agrees w → Agrees (modify_task w).1
  unfolding modify_task ◌>>=◌
  modify_task-Agrees w g = after Agrees asked_task _ w asked_task-Reads g (λ task _.
      modify_found-Agrees (task_exists task w.tasks.task_map) task (find task.id w.tasks.task_map) w
        refl g)
