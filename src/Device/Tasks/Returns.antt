-- ===== src/Device/Tasks/Returns.antt =====
-- The task configuration of CTaskManager, Src/Device/Component/Task/TaskManager.cpp, by way of the file.
use shuchuang.Shared.{
  ◌≡◌, refl, sym, ◌∙◌, ap, String, Bool, true, Option, some, List, arith, string_key, eq_iff,
}
use shuchuang.Shared.Dict.{Dict, find, erase, find-insert, find-erase}
use shuchuang.Shared.Outcome.{Outcome, ok, failed, thrown, pure, continue, ◌>>=◌}
use shuchuang.Shared.Outcome.Gives.{ok_injective}
use shuchuang.Shared.Poco.{Json}
use shuchuang.Common.Config.{Setting, array, get_array, set_array, replace, takes_array}
use shuchuang.Device.World.{World, on_tasks, on_config}
use shuchuang.Device.Tasks.{set_task_config, reset_tasks}
use shuchuang.Device.Tasks.Loaded.{Reparsed, reset_tasks-IsLoading}

module _ {O : Type 0} where
  find-replace :
      (name : String) (v : Setting O) (root : Dict String (Setting O))
      → find name (replace name v root) ≡ some v
  unfolding replace
  find-replace name v root = ground (
    arith,
    eq_iff name name,
    find-insert name name v (erase name root),
    find-erase name name root,
  )

  -- An array that is written is read back.
  get_array-set_array :
      (entries : List O) (root : Dict String (Setting O))
      → takes_array (find "Tasks" root) ≡ true
      → (get_array "Tasks" (set_array "Tasks" (some entries) (some root)).1).0 ≡ ok (some entries)
  unfolding get_array set_array ◌>>=◌
  get_array-set_array entries root h =
      rw (h, set_array) (rw (find-replace "Tasks" (array entries) root) refl)

module _ {O : Type 0} ⦃j : Json O⦄ where
  rest_kept : (x : Outcome Bool) (w : World O) → (continue x (λ _. pure tt) w).1 ≡ w
  unfolding pure
  rest_kept (ok b) w = refl
  rest_kept (failed d) w = refl
  rest_kept thrown w = refl

  stored :
      (entries : List O) (root : Dict String (Setting O)) (w : World O)
      → w.config ≡ some root
      → (set_task_config entries w).1.config ≡ (set_array "Tasks" (some entries) (some root)).1
  unfolding set_task_config on_tasks on_config ◌>>=◌
  stored entries root w e =
      ap (λ (x : World O). x.config)
        (rest_kept (set_array "Tasks" (some entries) w.config).0 (record w {
          tasks = record w.tasks { task_config = entries };
          config = (set_array "Tasks" (some entries) w.config).1;
        }))
      ∙ rw e refl

  -- The task configuration that was written comes back: in a configuration whose entry "Tasks" is an
  -- array or missing, a load that ends well after `setTaskConfig` gives the entries that were set, each
  -- printed and parsed again.
  pub set_task_config-reset_tasks :
      (reparse : O → Option O) (entries : List O) (root : Dict String (Setting O)) (w : World O)
      → w.config ≡ some root
      → takes_array (find "Tasks" root) ≡ true
      → (reset_tasks reparse (set_task_config entries w).1).0 ≡ ok tt
      → Reparsed reparse entries
          (reset_tasks reparse (set_task_config entries w).1).1.tasks.task_config
  set_task_config-reset_tasks reparse entries root w e takes h =
      let (read, hr, (ys, r, l)) = reset_tasks-IsLoading reparse (set_task_config entries w).1 h in
      let same : read ≡ some entries =
        ok_injective read (some entries)
          (sym hr ∙ rw (stored entries root w e) (get_array-set_array entries root takes)) in
      rw l.loaded (rw same at r)
