-- ===== src/Device/Main/Starts.antt =====
-- The main function of the device, Src/Device/Main.cpp: what its configuration and its databases lead to.
use shuchuang.Shared.{
  String, ◌≡◌, refl, true, false, some, List, [], ◌∷◌, ◌++◌, arith, string_key, if-rule,
}
use shuchuang.Shared.Int.{ℤ, pos}
use shuchuang.Shared.Dict.{Dict, find}
use shuchuang.Shared.Outcome.{ok, ◌>>=◌}
use shuchuang.Shared.Poco.{Json, Digest, Sqlite}
use shuchuang.Common.Config.{Setting, object, get_object}
use shuchuang.Common.Config.Files
use shuchuang.Device.UserTable.{
  UserRecordNode, UserTable, update_user, delete_user, add_user, get_user_by_token,
}
use shuchuang.Device.World.{World, UserManager, on_config, on_users, on_ops, on_door}
use shuchuang.Device.Users
use shuchuang.Device.Users.{by_token, verify_user}
use shuchuang.Device.Users.History.{Event, history}
use shuchuang.Device.Users.Kept.{KeptByStatements, history-Kept}
use shuchuang.Device.Records
use shuchuang.Device.Door.{open_device, err_on}
use shuchuang.Device.Boot.{boot}
use shuchuang.Device.Proxy
use shuchuang.Device.Proxy.{emit, light}
use shuchuang.Device.Proxy.Loop
use shuchuang.Device.Rpc.Server
use shuchuang.Device.Main.{Machine, Meeting, no_table, init_users, init_operations, main_start}

-- A table that was opened and is not there.
pub record IsMissing (t : UserTable) : Type 0 where
  pub opened : t.session ≡ true
  pub throws : t.broken ≡ true

start-IsMissing : (u : UserManager) → IsMissing u.table → IsMissing (Users.start u).table
unfolding Users.start
start-IsMissing u h = if-rule (λ (v : UserManager). IsMissing v.table) u.started (λ _. h) (λ _. h)

module _ ⦃q : Sqlite UserRecordNode⦄ where
  -- A statement changes nothing then.
  IsMissing-KeptByStatements : KeptByStatements IsMissing
  unfolding update_user delete_user add_user
  IsMissing-KeptByStatements = record {
    updates = λ n t h. record { opened = ground arith; throws = ground arith };
    deletes = λ n t h. record { opened = ground arith; throws = ground arith };
    inserts = λ n t new h. record { opened = ground arith; throws = ground arith };
  }

  IsMissing-verify_user :
      (token : String) (now : ℤ) (t : UserTable) → IsMissing t → verify_user token now t ≡ false
  unfolding verify_user get_user_by_token
  IsMissing-verify_user token now t h = rw (h.opened, h.throws) refl

module _ {O : Type 0} ⦃j : Json O⦄ where
  -- What `main` has when it opens the databases: the world after the clock and the tasks, whose
  -- configuration has the entries.
  pub record IsComplete (w : Meeting O) (s : Machine O) (w1 : World O)
      (user operation uuid : String) (mode : ℤ) : Type 0 where
    pub root : Dict String (Setting O)
    pub o_data : O
    pub o_mode : O
    pub o_reg : O
    pub o_info : O
    pub host : String
    pub ssl_port : ℤ
    pub reg_port : ℤ
    pub booted :
        boot w.ntp w.reparse (record s.world { config = (Files.init w.file).1 }) ≡ (ok tt, w1)
    pub config : w1.config ≡ some root
    pub data_path : find "DataPath" root ≡ some (object o_data)
    pub has_user : j.has o_data "User" ≡ true
    pub has_operation : j.has o_data "Operation" ≡ true
    pub users_path : j.get_string o_data "User" ≡ some user
    pub operations_path : j.get_string o_data "Operation" ≡ some operation
    pub user_mode : find "UserMode" root ≡ some (object o_mode)
    pub the_mode : j.get_int o_mode "mode" ≡ some mode
    pub reg : find "RegProxy" root ≡ some (object o_reg)
    pub has_host : j.get_string o_reg "host" ≡ some host
    pub has_ssl : j.extract_int o_reg "ssl_port" ≡ some ssl_port
    pub has_reg : j.extract_int o_reg "reg_port" ≡ some reg_port
    pub info : find "DeviceInfo" root ≡ some (object o_info)
    pub has_uuid : j.get_string o_info "uuid" ≡ some uuid

  -- Every part is started.
  abbrev pub running : Meeting O → Machine O → World O → String → String → String → ℤ → Machine O
  running w s w1 user operation uuid mode = record {
    world = record w1 {
      users =
          Users.start (record w1.users { table = (init_users (w.users_at user) w1.users.table).1 });
      ops =
          (Records.start (record w1.ops {
            table = (init_operations (w.operations_at operation) w1.ops.table).1;
          })).1;
      door =
          (err_on
            (open_device w.fd
              (record w1.door { fd = pos 0; door_open = false; user_mode = mode })).1).1;
    };
    proxy = record s.proxy {
      config = w1.config;
      effects = s.proxy.effects ++ light true ∷ [];
      uuid = uuid;
      started = true;
    };
    rpc = Server.start s.rpc;
  }

  -- A device whose configuration has every entry, and whose clock and tasks come up, starts whatever
  -- its databases are: the tables are those at the two paths of the configuration, the port is
  -- opened and the light of an error asked for, the proxy is started with the uuid of the
  -- configuration, and so is the server of the requests.
  main_start-running :
      (w : Meeting O) (s : Machine O) (w1 : World O) (user operation uuid : String) (mode : ℤ)
      → IsComplete w s w1 user operation uuid mode
      → s.proxy.started ≡ false
      → main_start w s ≡ (ok tt, running w s w1 user operation uuid mode)
  unfolding main_start Loop.start emit Proxy.on_config on_config get_object on_users on_ops on_door
      ◌>>=◌
  main_start-running w s w1 user operation uuid mode h e =
      rw
        (
          h.booted, h.config, h.data_path, h.has_user, h.has_operation, h.users_path,
          h.operations_path, h.user_mode, h.the_mode, e, h.reg, h.has_host, h.has_ssl, h.has_reg,
          h.info, h.has_uuid,
        )
        refl

  -- A device whose configuration has every entry, and whose database of the users has no table `User`, as
  -- a new one, starts all the same; and whatever is asked of CUserManager from then on, also to add a
  -- user, no token is ever accepted.
  pub main_start-locked_out :
      ⦃q : Sqlite UserRecordNode⦄ ⦃g : Digest⦄ (w : Meeting O) (s : Machine O) (w1 : World O)
      (user operation uuid : String) (mode : ℤ) (es : List (Event O)) (token : String) (now : ℤ)
      → IsComplete w s w1 user operation uuid mode
      → s.proxy.started ≡ false
      → w.users_at user ≡ no_table
      → let (r, s') = main_start w s in
        (r ≡ ok tt) × (verify_user token now (history s'.world es).users.table ≡ false)
  unfolding init_users
  main_start-locked_out w s w1 user operation uuid mode es token now h e f = (
    rw (main_start-running w s w1 user operation uuid mode h e) refl,
    IsMissing-verify_user token now _ (
        history-Kept IsMissing IsMissing-KeptByStatements (main_start w s).1.world es (
          rw (main_start-running w s w1 user operation uuid mode h e, f)
            (start-IsMissing _ (record { opened = refl; throws = refl })))),
  )
