-- ===== src/Device/Main.antt =====
-- The main function of the device, Src/Device/Main.cpp, up to the semaphore at which it waits for ever,
-- with `init` of CUserRecord and of COperationRecord, Src/Device/Util, and the constructor of
-- CDeviceController, Src/Device/Component/DeviceController.cpp.
pub mod Starts
use shuchuang.Shared.{
  ℕ, String, Bool, true, false, Option, none, some, List, [], ◌∷◌, not, ◌||◌, if◌then◌else◌,
}
use shuchuang.Shared.Int.{ℤ, pos, negsuc}
use shuchuang.Shared.Outcome.{
  Outcome, ok, failed, thrown, Action, pure, or_throw, modify, get, ◌>>=◌, ◌>>◌,
}
use shuchuang.Shared.Poco.{Json}
use shuchuang.Common.Config.{Config, get_object}
use shuchuang.Common.Config.Files
use shuchuang.Common.Config.Files.{ConfigFile}
use shuchuang.Device.UserTable.{UserRecordNode, UserTable}
use shuchuang.Device.OperationTable.{OperationRecordNode, OperationTable, DeviceController}
use shuchuang.Device.World.{World, on_config, on_users, on_ops, on_door}
use shuchuang.Device.Users
use shuchuang.Device.Records
use shuchuang.Device.Door.{open_device, err_on}
use shuchuang.Device.System.Clock.{Ntp}
use shuchuang.Device.Boot.{boot}
use shuchuang.Device.Proxy.{RegProxy}
use shuchuang.Device.Proxy.Loop
use shuchuang.Device.Rpc.Server
use shuchuang.Device.Rpc.Server.{RpcServer}

-- What stands at the path of the users: SQLite cannot open it, or the database has no table `User`, as a
-- new one, or it has these rows.
pub data UserFile : Type 0 where
  closed no_table : UserFile
  users : List UserRecordNode → UserFile

-- The table of the operations is made where it is not there, or that throws.
pub data OperationFile : Type 0 where
  closed not_made : OperationFile
  operations : List OperationRecordNode → OperationFile

-- `init` of CUserRecord. The statement that makes the table is commented out.
unfoldable pub init_users : UserFile → UserTable → Bool × UserTable
init_users UserFile.closed t = (false, t)
init_users no_table t = (true, record { session = true; broken = true; rows = [] })
init_users (users rows) t = (true, record { session = true; broken = false; rows = rows })

unfoldable pub init_operations : OperationFile → OperationTable → Bool × OperationTable
init_operations OperationFile.closed t = (false, t)
init_operations not_made t = (false, record { session = true; broken = true; rows = [] })
init_operations (operations rows) t = (true, record { session = true; broken = false; rows = rows })

-- The components of the device.
pub record Machine (O : Type 0) : Type 0 where
  pub world : World O
  pub proxy : RegProxy O
  pub rpc : RpcServer O

-- What the start meets: the file of the configuration, the time server, the databases by their paths,
-- and what `open` of the port gives. `reparse` prints and parses a task.
pub record Meeting (O : Type 0) : Type 0 where
  pub file : ConfigFile O
  pub ntp : Ntp
  pub reparse : O → Option O
  pub users_at : String → UserFile
  pub operations_at : String → OperationFile
  pub fd : ℤ

module _ {O A : Type 0} where
  unfoldable pub on_world : Action (World O) A → Action (Machine O) A
  on_world m s = let (r, w) = m s.world in (r, record s { world = w })

module _ {O : Type 0} where
  unfoldable pub open_users : UserFile → Action (World O) (Unit {0})
  unfolding init_users
  open_users f = on_users (λ u. Users.start (record u { table = (init_users f u.table).1 }))

  unfoldable pub open_operations : OperationFile → Action (World O) (Unit {0})
  unfolding init_operations
  open_operations f =
      on_ops (λ o. (Records.start (record o { table = (init_operations f o.table).1 })).1)

  unfoldable pub start_rpc : Action (Machine O) (Unit {0})
  start_rpc = modify (λ s. record s { rpc = Server.start s.rpc })

module _ {O : Type 0} ⦃j : Json O⦄ where
  -- The paths of the users and of the operations.
  unfoldable pub data_paths : Option O → Action (Machine O) (String × String)
  data_paths none =
      pure ("/mnt/nand1-1/Application/user.db", "/mnt/nand1-1/Application/oprecord.db")
  data_paths (some o) =
      if not (j.has o "User") || not (j.has o "Operation")
      then pure ("/mnt/nand1-1/Application/user.db", "/mnt/nand1-1/Application/oprecord.db")
      else (do
        user ← or_throw (j.get_string o "User")
        operation ← or_throw (j.get_string o "Operation")
        pure (user, operation))

  -- `CDeviceController()`: the mode is read of an entry that is not tested for null.
  unfoldable pub construct_controller : Action (World O) (Unit {0})
  construct_controller = do
    entry ← on_config (get_object "UserMode")
    o ← or_throw entry
    mode ← or_throw (j.get_int o "mode")
    on_door (λ d. record d { fd = pos 0; door_open = false; user_mode = mode })

  -- `start` of CRegProxy says nothing; where it ends well it has switched the light of an error on.
  unfoldable pub proxy_started : Outcome (Unit {0}) → Action (Machine O) (Unit {0})
  proxy_started (ok u) s =
      (ok tt, record s { world = record s.world { door = (err_on s.world.door).1 } })
  proxy_started (failed d) s = (ok tt, s)
  proxy_started thrown s = (thrown, s)

  unfoldable pub start_proxy : Action (Machine O) (Unit {0})
  unfolding proxy_started
  start_proxy s =
      let (r, p) = Loop.start (record s.proxy { config = s.world.config }) in
      proxy_started r (record s { proxy = p })

  unfoldable pub main_start : Meeting O → Action (Machine O) (Unit {0})
  unfolding on_world open_users open_operations data_paths construct_controller start_proxy
      start_rpc
  main_start w = do
    modify (λ s. record s { world = record s.world { config = (Files.init w.file).1 } })
    on_world (boot w.ntp w.reparse)
    entry ← on_world (on_config (get_object "DataPath"))
    paths ← data_paths entry
    on_world (open_users (w.users_at paths.0))
    on_world (open_operations (w.operations_at paths.1))
    on_world construct_controller
    on_world (on_door (λ d. (open_device w.fd d).1))
    start_proxy
    start_rpc
