-- ===== src/Device/Tasks/Stored.antt =====
-- `addTask` and `removeTask` of CTaskManager, Src/Device/Component/Task/TaskManager.cpp: what they
-- leave of its two descriptions of the tasks.
use shuchuang.Shared.{
  length, nat_key, ◌≡◌, refl, Bool, true, false, Option, none, some, List, [], ◌∷◌, ◌++◌, arith,
  ◌==◌, is_some, inl, inr, Option-cases, string_key, String, if-rule,
}
use shuchuang.Shared.Int.{ℤ, pos, int_key, int_beq_iff}
use shuchuang.Shared.Dict.{Dict, find, erase}
use shuchuang.Shared.Outcome.{or_throw, ok, Action, ◌>>=◌}
use shuchuang.Shared.Outcome.Gives.{
  Reads, Gives, after, Gives-pure, Gives-bind, Gives-bind-get, Gives-bind-or_throw,
  Gives-bind-fail_if,
}
use shuchuang.Shared.Outcome.Keeps.{keeps_rules, Keeps, Keeps-modify, then-keeps}
use shuchuang.Shared.Poco.{Json}
use shuchuang.Common.Config.{Setting}
use shuchuang.Common.Config
use shuchuang.Device.TaskTable.{in_range, task_exists, TaskInfo, TaskHandler, new_handler}
use shuchuang.Device.World.{World, steps, the_param, write_param, on_tasks}
use shuchuang.Device.Tasks.{
  make_handler, add_to_schedule_queue, schedule_active, split_config, set_task_config, log_entry,
  checked_task, store_task, add_task, drop_handler, delete_entry, remove_found, asked_id,
  remove_task, struct_to_task_info,
}
use shuchuang.Device.Tasks.Entries.{
  new_handler-describes, present, present-none, split_config-cases,
}
use shuchuang.Device.Tasks.Agree.{AgreeOn, store-AgreeOn, erase-AgreeOn, absent-AgreeOn}

module _ {O : Type 0} ⦃j : Json O⦄ where
  pub Keeps-the_param : {P : World O → Type 0} → Keeps P the_param
  unfolding the_param
  Keeps-the_param = search keeps_rules

  pub struct_to_task_info-Reads : (ds : O) → Reads (struct_to_task_info ds)
  unfolding struct_to_task_info
  struct_to_task_info-Reads ds s = search keeps_rules depth 40

  the_param-Reads : Reads (the_param {O = O})
  the_param-Reads s = Keeps-the_param

  struct_to_task_info-id :
      (ds : O) (id : ℤ) (w : World O)
      → j.extract_int64 ds "id" ≡ some id
      → Gives (λ t. t.id ≡ id) (struct_to_task_info ds) w
  unfolding struct_to_task_info
  struct_to_task_info-id ds id w e = Gives-bind-or_throw _ _ _ w λ i ei.
      Gives-bind-or_throw _ _ _ w λ option _. Gives-bind-or_throw _ _ _ w λ hour _.
        Gives-bind-or_throw _ _ _ w λ minute _.
          Gives-bind-or_throw _ _ _ w
            λ weekday _. Gives-bind-or_throw _ _ _ w λ active _. Gives-pure _ _ w (ground arith)

  -- What `addTask` has checked when it goes on to change the tasks.
  abbrev pub IsChecked : World O → O × O × TaskInfo → Type 0
  IsChecked w (o, given, task) =
      (task.id ≡ w.now)
      × (in_range task ≡ true)
      × ((length w.tasks.task_map == 32) ≡ false)
      × (task_exists task w.tasks.task_map ≡ pos 0)

  pub checked_task-lem : (w : World O) → Gives (IsChecked w) checked_task w
  unfolding checked_task
  checked_task-lem w = Gives-bind-get _ _ w (
      Gives-bind-fail_if _ _ _ _ w λ full. Gives-bind-fail_if _ _ _ _ w λ _.
        Gives-bind _ _ _ w the_param-Reads λ o _. Gives-bind-fail_if _ _ _ _ w λ _.
          Gives-bind-or_throw _ _ _ w λ given _.
            Gives-bind _ _ _ w (struct_to_task_info-Reads _) λ task et.
              Gives-bind-fail_if _ _ _ _ w λ range. Gives-bind-fail_if _ _ _ _ w λ exists.
                Gives-pure _ _ w (
                  struct_to_task_info-id (j.set_int64 given "id" w.now) w.now w
                      (rw j.extract_int64-set_int64 refl) task et,
                  ground arith,
                  full,
                  ground (arith, int_beq_iff (task_exists task w.tasks.task_map) (pos 0)),
                ))

  checked_task-Reads : Reads (checked_task {O = O})
  unfolding checked_task
  checked_task-Reads s = search (keeps_rules, Keeps-the_param, struct_to_task_info-Reads) depth 40

  asked_id-Reads : Reads (asked_id {O = O})
  unfolding asked_id
  asked_id-Reads s = search (keeps_rules, Keeps-the_param) depth 40

  -- The two descriptions agree, and the configuration is loaded.
  unfoldable pub Agrees : World O → Type 0
  Agrees w = AgreeOn w.tasks.task_map w.tasks.task_config × (is_some w.config ≡ true)

  -- In a loaded configuration the call ends well and leaves it loaded.
  EndsLoaded : Action (Config.Config O) Bool → Dict String (Setting O) → Type 0
  EndsLoaded m root = (b : Bool) × (r : Dict String (Setting O)) × (m (some root) ≡ (ok b, some r))

  set_array-EndsLoaded :
      (c : List O) (root : Dict String (Setting O))
      → EndsLoaded (Config.set_array "Tasks" (some c)) root
  unfolding EndsLoaded Config.set_array ◌>>=◌
  set_array-EndsLoaded c root =
      if-rule (λ (m : Action (Config.Config O) Bool). EndsLoaded m root)
        (Config.takes_array (find "Tasks" root)) (λ _. (true, _, refl)) (λ _. (false, root, refl))

  pub set_task_config-lem :
      (c : List O) (root : Dict String (Setting O)) (w : World O)
      → w.config ≡ some root
      → (r : Dict String (Setting O)) × (set_task_config c w
          ≡ (ok tt, record w { tasks = record w.tasks { task_config = c }; config = some r }))
  unfolding set_task_config steps EndsLoaded
  set_task_config-lem c root w e =
      let (b, r, h) = set_array-EndsLoaded c root in (r, rw (e, h) refl)

  -- The same on the result of a handler that begins with this step.
  then_config :
      {A : Type 0} (Q : World O → Type 0) (c : List O) (root : Dict String (Setting O))
      (f : Unit {0} → Action (World O) A) (w : World O)
      → w.config ≡ some root
      → ((r : Dict String (Setting O))
          → Q (f tt (record w { tasks = record w.tasks { task_config = c }; config = some r })).1)
      → Q ((set_task_config c >>= f) w).1
  unfolding ◌>>=◌
  then_config Q c root f w e k = let (r, h) = set_task_config-lem c root w e in rw h (k r)

  Keeps-queued :
      (h : TaskHandler) (first : ℤ)
      → Keeps Agrees (
          on_tasks
            (λ t. record t { queue = t.queue ++ record { handler = h; first = first } ∷ [] }))
  unfolding on_tasks Agrees
  Keeps-queued h first = Keeps-modify _ (λ s g. g)

  schedule_active-Agrees : (h : TaskHandler) → Keeps Agrees (schedule_active h)
  unfolding schedule_active add_to_schedule_queue
  schedule_active-Agrees h = search (keeps_rules, Keeps-queued)

  store_task-Agrees :
      (task : TaskInfo) (root : Dict String (Setting O)) (w : World O)
      → w.config ≡ some root
      → present task.id w.tasks.task_map ≡ 0
      → AgreeOn w.tasks.task_map w.tasks.task_config
      → Agrees (store_task task w).1
  unfolding store_task make_handler steps Agrees
  store_task-Agrees task root w e fresh g = then_config Agrees _ root _ w e (λ r.
      (schedule_active-Agrees (new_handler w.tasks.created task)).at _ (
        store-AgreeOn task (new_handler w.tasks.created task) w.tasks.task_map w.tasks.task_config
            fresh (new_handler-describes O task w.tasks.created) g,
        refl,
      ))

  Keeps-written : (o : O) → Keeps Agrees (write_param o)
  unfolding write_param Agrees
  Keeps-written o = Keeps-modify _ (λ s g. g)

  store-loaded :
      (task : TaskInfo) (w : World O)
      → present task.id w.tasks.task_map ≡ 0
      → Agrees w
      → Agrees (store_task task w).1
  unfolding Agrees
  store-loaded task w fresh (g, l) = elim (Option-cases w.config) [
    | inl e ↦ ground arith
    | inr (root, e) ↦ store_task-Agrees task root w e fresh g
  ]

  -- `addTask` keeps the tasks in memory and the configuration in agreement, whether it ends well or
  -- not: no task has the time as its id yet, and the configuration is loaded.
  pub add_task-Agrees :
      (w : World O) → find w.now w.tasks.task_map ≡ none → Agrees w → Agrees (add_task w).1
  unfolding add_task
  add_task-Agrees w fresh g = after Agrees _ _ w checked_task-Reads g (λ checked e.
      let (id, range, full, exists) = checked_task-lem w checked e in
      then-keeps (store_task checked.2) _ w
        (store-loaded checked.2 w (present-none checked.2.id w.tasks.task_map (rw id fresh)) g)
        (λ _. Keeps-written _))

  log_entry-Agrees : (ds : O) → Keeps Agrees (log_entry ds)
  unfolding log_entry
  log_entry-Agrees ds = search keeps_rules depth 40

  delete_entry-Agrees :
      (id : ℤ) (root : Dict String (Setting O)) (m : Dict ℤ TaskHandler) (w : World O)
      → w.config ≡ some root
      → w.tasks.task_map ≡ erase id m
      → AgreeOn m w.tasks.task_config
      → Agrees ((or_throw (split_config id w.tasks.task_config) >>= delete_entry) w).1
  unfolding delete_entry ◌>>=◌ Agrees
  delete_entry-Agrees id root m w e em g =
      elim (split_config-cases id w.tasks.task_config g.listed) [
        | inl (s, c) ↦ rw s (rw em (absent-AgreeOn id m w.tasks.task_config c g), rw e refl)
        | inr (b, x, a, s, eq, ex, hb, ha) ↦ rw s (
            then_config Agrees (b ++ a) root (λ _. log_entry x) w e
              (λ r.
                (log_entry-Agrees x).at _
                  (rw em (erase-AgreeOn id m b a x ex hb ha (rw eq at g)), refl)))
      ]

  remove_found-Agrees :
      (id : ℤ) (o : Option TaskHandler) (root : Dict String (Setting O)) (w : World O)
      → w.config ≡ some root
      → AgreeOn w.tasks.task_map w.tasks.task_config
      → Agrees (remove_found id o w).1
  unfolding remove_found drop_handler steps Agrees
  remove_found-Agrees id none root w e g = (g, rw e refl)
  remove_found-Agrees id (some h) root w e g =
      delete_entry-Agrees id root w.tasks.task_map _ e refl g

  -- `removeTask` keeps the tasks in memory and the configuration in agreement, whether it ends well
  -- or not.
  pub remove_task-Agrees : (w : World O) → Agrees w → Agrees (remove_task w).1
  unfolding remove_task ◌>>=◌ Agrees
  remove_task-Agrees w (g, l) = elim (Option-cases w.config) [
    | inl e ↦ ground arith
    | inr (root, e) ↦
        after Agrees asked_id _ w asked_id-Reads (g, l)
          (λ id _. remove_found-Agrees id (find id w.tasks.task_map) root w e g)
  ]
