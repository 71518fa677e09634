-- ===== src/Device/Tasks/Loaded.antt =====
-- The tasks after `loadTasksConfig` of CTaskManager, Src/Device/Component/Task/TaskManager.cpp.
use mathlib.Core.List.{append-nil, append_assoc}
use shuchuang.Shared.{
  ℕ, ◌+◌, ◌≤◌, ◌≡◌, refl, sym, ◌∙◌, Option, none, some, List, [], ◌∷◌, ◌++◌, arith, length, nat_key,
  if-rule,
}
use shuchuang.Shared.Int.{ℤ, int_key}
use shuchuang.Shared.Dict.{Dict, insert}
use shuchuang.Shared.Outcome.{Action, ok, or_throw, pure, ◌>>=◌}
use shuchuang.Shared.Outcome.Keeps.{Keeps, keeps_rules}
use shuchuang.Shared.Outcome.Gives.{Ends, Ends-bind, Ends-bind-or_throw}
use shuchuang.Shared.Poco.{Json}
use shuchuang.Common.Config.{get_array}
use shuchuang.Common.Config.Reads.{get_array-Reads}
use shuchuang.Device.TaskTable.{TaskHandler, TaskInfo, first_time}
use shuchuang.Device.World.{World, on_tasks, on_config}
use shuchuang.Device.Tasks.{
  make_handler, schedule_active, add_to_schedule_queue, struct_to_task_info, load_entry,
  load_entries, load_array, load_tasks_config, reset_tasks, stop_all_tasks,
}

-- What is loaded entry by entry, each printed and parsed again.
pub data Reparsed {O : Type 0} (reparse : O → Option O) : List O → List O → Type 0 where
  none_left : Reparsed reparse [] []
  one_more :
      {x y : O} {xs ys : List O}
      → reparse x ≡ some y
      → Reparsed reparse xs ys
      → Reparsed reparse (x ∷ xs) (y ∷ ys)

-- While the tasks are loaded, the rest of `v` stays; `config` is what was loaded, and the map and the
-- queue lag behind it by `m` and `q` tasks at least.
pub record IsLoading {O : Type 0} (v : World O) (config : List O) (m q : ℕ) (w : World O)
    : Type 0 where
  pub same_config : w.config ≡ v.config
  pub same_users : w.users ≡ v.users
  pub same_ops : w.ops ≡ v.ops
  pub loaded : w.tasks.task_config ≡ config
  pub in_map : length w.tasks.task_map + m ≤ length config
  pub in_queue : length w.tasks.queue + q ≤ length config

length-insert :
    (id : ℤ) (h : TaskHandler) (t : Dict ℤ TaskHandler) → length (insert id h t) ≤ length t + 1
unfolding insert
length-insert id h [] = omega arith
length-insert id h ((k, g) ∷ t) = ground (arith, length-insert id h t)

length-snoc {ℓ} : {A : Type ℓ} (xs : List A) (x : A) → length (xs ++ x ∷ []) ≡ length xs + 1
length-snoc [] x = omega arith
length-snoc (y ∷ xs) x = omega (arith, length-snoc xs x)

module _ {O : Type 0} (v : World O) (config : List O) where
  Keeps-make_handler :
      (m q : ℕ) (task : TaskInfo) → Keeps (IsLoading v config m q) (make_handler task)
  unfolding make_handler on_tasks ◌>>=◌
  Keeps-make_handler m q task = record {
    at = λ w h. record {
      same_config = h.same_config;
      same_users = h.same_users;
      same_ops = h.same_ops;
      loaded = h.loaded;
      in_map = h.in_map;
      in_queue = h.in_queue;
    };
  }

  -- At most one task is scheduled.
  schedule-IsLoading :
      (h : TaskHandler) (w : World O)
      → IsLoading v config 1 1 w
      → IsLoading v config 1 0 (schedule_active h w).1
  unfolding schedule_active add_to_schedule_queue on_tasks ◌>>=◌
  schedule-IsLoading h w l =
      if-rule (λ (m : Action (World O) (Unit {0})). IsLoading v config 1 0 (m w).1) h.is_active
        (λ _. scheduled (first_time w.now w.tasks.utc_offset h)) (λ _. ground arith)
    where
      scheduled :
          (o : Option ℤ)
          → IsLoading v config 1 0
              ((or_throw o >>= λ first.
                  on_tasks (λ t. record t {
                    queue = t.queue ++ record { handler = h; first = first } ∷ [];
                  }))
                w).1
      scheduled none = ground arith
      scheduled (some first) =
          ground (arith, length-snoc w.tasks.queue (record { handler = h; first = first }))

  -- One task enters the map.
  insert-IsLoading :
      (task : TaskInfo) (h : TaskHandler) (w : World O)
      → IsLoading v config 1 0 w
      → IsLoading v config 0 0
          (on_tasks (λ t. record t { task_map = insert task.id h t.task_map }) w).1
  unfolding on_tasks ◌>>=◌
  insert-IsLoading task h w l = ground (arith, length-insert task.id h w.tasks.task_map)

  append-IsLoading :
      (ds : O) (w : World O)
      → IsLoading v config 0 0 w
      → IsLoading v
          (config ++ ds ∷ [])
          1
          1
          (on_tasks (λ t. record t { task_config = t.task_config ++ ds ∷ [] }) w).1
  unfolding on_tasks ◌>>=◌
  append-IsLoading ds w l = ground (arith, length-snoc config ds)

struct_to_task_info-Keeps :
    {O : Type 0} ⦃j : Json O⦄ {P : World O → Type 0} (ds : O) → Keeps P (struct_to_task_info ds)
unfolding struct_to_task_info
struct_to_task_info-Keeps ds = search keeps_rules depth 40

module _ {O : Type 0} ⦃j : Json O⦄ (reparse : O → Option O) (v : World O) where
  abbrev LoadedOne : O → List O → World O → Type 0
  LoadedOne entry config w =
      (ds : O) × (reparse entry ≡ some ds) × IsLoading v (config ++ ds ∷ []) 0 0 w

  load_entry-IsLoading :
      (entry : O) (config : List O) (w : World O)
      → IsLoading v config 0 0 w
      → Ends tt (LoadedOne entry config) (load_entry reparse entry) w
  unfolding load_entry
  load_entry-IsLoading entry config w l =
      let q : (World O → Type 0) = LoadedOne entry config in
      Ends-bind-or_throw q _ _ w tt λ ds e. Ends-bind q _ _ w tt λ _ _.
        Ends-bind q _ _ _ tt λ task _. Ends-bind q _ _ _ tt λ h _. Ends-bind q _ _ _ tt λ _ _. λ _.
          (
            ds,
            e,
            insert-IsLoading v (config ++ ds ∷ []) task h _ (
                schedule-IsLoading v (config ++ ds ∷ []) h _ (
                  (Keeps-make_handler v (config ++ ds ∷ []) 1 1 task).at _ (
                    (struct_to_task_info-Keeps {P = IsLoading v (config ++ ds ∷ []) 1 1} ds).at _
                      (append-IsLoading v config ds w l)))),
          )

  -- What the entries have become, behind those that were there.
  abbrev pub LoadedAll : List O → List O → World O → Type 0
  LoadedAll entries config w =
      (ys : List O) × Reparsed reparse entries ys × IsLoading v (config ++ ys) 0 0 w

  pub load_entries-IsLoading :
      (entries config : List O) (w : World O)
      → IsLoading v config 0 0 w
      → Ends tt (LoadedAll entries config) (load_entries reparse entries) w
  unfolding load_entries pure
  load_entries-IsLoading [] config w l = λ e. ([], none_left, rw append-nil l)
  load_entries-IsLoading (x ∷ xs) config w l =
      Ends-bind (LoadedAll (x ∷ xs) config) _ _ w tt λ first e1. λ e2.
        let (ds, e, l1) = load_entry-IsLoading x config w l e1 in
        let (ys, r, l2) = load_entries-IsLoading xs (config ++ ds ∷ []) _ l1 e2 in
        (ds ∷ ys, one_more e r, rw append_assoc at l2)

module _ {O : Type 0} where
  -- A null pointer has no entries.
  abbrev pub entries_of : Option (List O) → List O
  entries_of none = []
  entries_of (some entries) = entries

module _ {O : Type 0} ⦃j : Json O⦄ (reparse : O → Option O) where
  load_array-IsLoading :
      (array : Option (List O)) (v w : World O)
      → IsLoading v [] 0 0 w
      → Ends tt (LoadedAll reparse v (entries_of array) []) (load_array reparse array) w
  unfolding load_array pure
  load_array-IsLoading none v w l = λ e. ([], none_left, l)
  load_array-IsLoading (some entries) v w l = load_entries-IsLoading reparse v entries [] w l

  stopped-array :
      (w : World O)
      → (on_config (get_array "Tasks") (stop_all_tasks w).1).0 ≡ (get_array "Tasks" w.config).0
  unfolding on_config stop_all_tasks on_tasks ◌>>=◌
  stopped-array w = refl

  cleared-IsLoading :
      (w : World O)
      → IsLoading w [] 0 0
          (on_tasks
            (λ t. record t { task_config = [] })
            (on_config (get_array "Tasks") (stop_all_tasks w).1).1).1
  unfolding on_config stop_all_tasks on_tasks ◌>>=◌
  cleared-IsLoading w = record {
    same_config = get_array-Reads "Tasks" w.config;
    same_users = refl;
    same_ops = refl;
    loaded = refl;
    in_map = omega arith;
    in_queue = omega arith;
  }

  -- The tasks after the reset are those of the configuration and no more.
  abbrev pub TasksReset : World O → World O → Type 0
  TasksReset w w' =
      (array : Option (List O)) × ((get_array "Tasks" w.config).0 ≡ ok array)
      × LoadedAll reparse w (entries_of array) [] w'

  pub reset_tasks-IsLoading : (w : World O) → Ends tt (TasksReset w) (reset_tasks reparse) w
  unfolding reset_tasks load_tasks_config
  reset_tasks-IsLoading w =
      let q : (World O → Type 0) = TasksReset w in
      Ends-bind q stop_all_tasks _ w tt λ _ _.
        Ends-bind q (on_config (get_array "Tasks")) _ _ tt λ array e.
          Ends-bind q (on_tasks _) _ _ tt λ _ _. λ h. (
            array,
            sym (stopped-array w) ∙ e,
            load_array-IsLoading array w _ (cleared-IsLoading w) h,
          )
