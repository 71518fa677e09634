-- ===== src/Device/System/Reset.antt =====
-- The reset to the factory state: `resetConfig` of CSystemManager,
-- Src/Device/Component/System/SystemManager.cpp, and `resetUser` of CUserRecord,
-- Src/Device/Util/UserRecord.cpp.
pub mod Restores
pub mod Halfway
use shuchuang.Shared.{String, Bool, true, false, Option, not, ◌==◌, string_key, if◌then◌else◌}
use shuchuang.Shared.Outcome.{Action, ok, pure, modify, or_throw, fail_if, ◌>>=◌, ◌>>◌}
use shuchuang.Shared.Poco.{Json}
use shuchuang.Common.Config.{Config, get_object}
use shuchuang.Common.Config.Files
use shuchuang.Device.UserTable.{UserTable}
use shuchuang.Device.OperationTable.{reset_op_record}
use shuchuang.Device.World.{World, on_config}
use shuchuang.Device.Tasks.{reset_tasks}

-- What the reset finds in the files. `config_at` and `users_at` are the backups at a path, `none` where
-- they cannot be copied. `opens` says whether SQLite opens a path. `deleted` is what the statements
-- find through a session that was deleted.
pub record Backup (O : Type 0) : Type 0 where
  pub config_at : String → Option (Config O)
  pub users_at : String → Option UserTable
  pub opens : String → Bool
  pub deleted : UserTable → UserTable

module _ {O : Type 0} where
  unfoldable pub open_copy : Backup O → String → UserTable → Action UserTable Bool
  open_copy b path copied =
      if b.opens path then (do modify (λ _. copied); pure true) else pure false

  -- The old session is deleted first: where the copy throws or the path cannot be opened, the pointer
  -- to it stays.
  unfoldable pub reset_user : Backup O → String → String → Action UserTable Bool
  reset_user b path backup = do
    modify (λ t. if t.session then b.deleted t else t)
    copied ← or_throw (b.users_at backup)
    open_copy b path copied

  unfoldable pub on_user_record : Action UserTable Bool → Action (World O) Bool
  on_user_record m w =
      let (r, t) = m w.users.table in (r, record w { users = record w.users { table = t } })

  unfoldable pub on_op_record : Action (World O) Bool
  on_op_record w =
      let (r, t) = reset_op_record w.ops.table in
      (ok r, record w { ops = record w.ops { table = t } })

module _ {O : Type 0} ⦃j : Json O⦄ where
  -- The paths of the user database and of its backup are those of the new configuration.
  unfoldable pub reset_user_record : Backup O → Action (World O) Bool
  reset_user_record b = do
    reset ← on_config (get_object "Reset")
    paths ← on_config (get_object "DataPath")
    p ← or_throw paths
    path ← or_throw (j.get_string p "User")
    r ← or_throw reset
    backup ← or_throw (j.get_string r "UserDB")
    on_user_record (reset_user b path backup)

  unfoldable pub reset_config : Backup O → (O → Option O) → Action (World O) (Unit {0})
  reset_config b reparse = do
    config_done ← on_config (Files.reset_config b.config_at)
    fail_if (not config_done) "461"
    users_done ← reset_user_record b
    fail_if (not users_done) "462"
    ops_done ← on_op_record
    fail_if (not ops_done) "463"
    reset_tasks reparse
