-- ===== src/Tests/Reset.antt =====
-- Runs of the theorems on the reset, on the file of the configuration and on the task configuration.
use shuchuang.Shared.{String, ◌≡◌, ◌↔◌, refl, true, false, some, [], ◌∷◌, string_key}
use shuchuang.Shared.Int.{pos}
use shuchuang.Shared.Dict.{Dict, find, insert, erase}
use shuchuang.Shared.Outcome.{◌>>=◌}
use shuchuang.Common.Config.{Setting, object, array, get_object, get_array, replace, set_array}
use shuchuang.Common.Config.Files
use shuchuang.Common.Config.Files.{holds, Readable, init-Readable}
use shuchuang.Device.UserTable.{blank}
use shuchuang.Device.OperationTable.{reset_op_record}
use shuchuang.Device.World.{World, on_config, on_tasks}
use shuchuang.Device.TaskTable.{first_time, new_handler, set_task_info}
use shuchuang.Device.Tasks.{
  reset_tasks, set_task_config, load_tasks_config, load_array, load_entries, load_entry,
  stop_all_tasks, struct_to_task_info, make_handler, schedule_active, add_to_schedule_queue,
}
use shuchuang.Device.Tasks.Loaded.{Reparsed}
use shuchuang.Device.Tasks.Returns.{set_task_config-reset_tasks}
use shuchuang.Device.System.Reset.{
  Backup, reset_config, reset_user_record, reset_user, open_copy, on_user_record, on_op_record,
}
use shuchuang.Device.System.Reset.Restores.{Restored, reset_config-Restored}
use shuchuang.Tests.Objects.{
  Fields, text, int, int64, nil, field, lookup, as_text, as_int, as_int64, fields_json,
}
use shuchuang.Tests.Users.{with_param}

abbrev entry : Fields
entry = field "id" (int64 (pos 9)) (
    field "option" (int (pos 1)) (
      field "hour" (int (pos 7)) (
        field "minute" (int (pos 30))
          (field "weekday" (int (pos 32)) (field "active" (int (pos 0)) nil)))))

abbrev paths : Fields
paths = field "Config" (text "/backup") (field "UserDB" (text "/users.bak") nil)

abbrev factory : Dict String (Setting Fields)
factory =
    ("Reset", object paths)
    ∷ ("DataPath", object (field "User" (text "/users") nil))
    ∷ ("Tasks", array (entry ∷ []))
    ∷ []

abbrev used : World Fields
used = record (with_param nil) { config = some (("Reset", object paths) ∷ []) }

abbrev backups : Backup Fields
backups = record {
  config_at = λ p. some (some factory);
  users_at = λ p.
      some (record {
        session = true;
        broken = false;
        rows = record blank { username = "admin" } ∷ [];
      });
  opens = λ p. true;
  deleted = λ t. t;
}

-- A backup that is no configuration of this program.
abbrev empty_backup : Backup Fields
empty_backup = record backups { config_at = λ p. some (some []) }

init-Readable_example :
    ((Files.init (holds factory)).0 ≡ true) ↔ Readable (Files.init (holds factory)).1
init-Readable_example = init-Readable (holds factory)

reset_config-Restored_example : Restored backups some used (reset_config backups some used).1
unfolding reset_config Files.reset_config Files.reset_from on_config on_user_record on_op_record
    reset_user_record reset_user open_copy reset_op_record reset_tasks load_tasks_config load_array
    load_entries load_entry stop_all_tasks on_tasks struct_to_task_info make_handler schedule_active
    add_to_schedule_queue first_time new_handler set_task_info find insert get_object get_array
    fields_json lookup as_text as_int as_int64 ◌>>=◌
reset_config-Restored_example = reset_config-Restored backups some used refl

set_task_config-reset_tasks_example :
    Reparsed some
      (entry ∷ [])
      (reset_tasks some (set_task_config (entry ∷ []) used).1).1.tasks.task_config
unfolding set_task_config set_array replace erase on_config reset_tasks load_tasks_config load_array
    load_entries load_entry stop_all_tasks on_tasks struct_to_task_info make_handler schedule_active
    add_to_schedule_queue first_time new_handler set_task_info find insert get_array fields_json
    lookup as_text as_int as_int64 ◌>>=◌
set_task_config-reset_tasks_example =
    set_task_config-reset_tasks some (entry ∷ []) (("Reset", object paths) ∷ []) used refl refl refl
