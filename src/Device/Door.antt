-- ===== src/Device/Door.antt =====
-- CDeviceController, Src/Device/Component/DeviceController.cpp, in the build for the device
-- (`__SC_ARM__`): the handlers of the component "device".
pub mod Opening
pub mod Relay
use shuchuang.Shared.{
  ℕ, String, Bool, true, false, Option, none, some, List, [], ◌∷◌, ◌++◌, not, ◌&&◌, ◌||◌, ◌==◌,
  string_key, if◌then◌else◌,
}
use shuchuang.Shared.Int.{ℤ, pos, negsuc, ◌+ℤ◌, int_key}
use shuchuang.Shared.Outcome.{Action, pure, get, fail_if, or_throw, ◌>>=◌, ◌>>◌}
use shuchuang.Shared.Poco.{Json, Sqlite}
use shuchuang.Common.Config
use shuchuang.Device.UserTable.{UserRecordNode, UserTable}
use shuchuang.Device.TaskTable.{offset_us}
use shuchuang.Device.OperationTable.{
  OperationRecordNode, DeviceController, Ioctl, relay_on, relay_off, run_on, run_off, error_on,
  error_off,
}
use shuchuang.Device.World.{
  World, lacks, has, get_string, get_int, set_string, remove, the_param, write_param, on_users,
  on_ops, on_door, on_config,
}
use shuchuang.Device.Users.{
  authority_admin, can_user_open_door, user_open_door, user_authority, get_user_name_from_token,
}
use shuchuang.Device.Records.{add_record}

-- An `ioctl` on the number -1 of a port that could not be opened fails, and nobody looks at that.
abbrev pub issue : List Ioctl → DeviceController → DeviceController
issue cs d = record d { commands = if d.fd == negsuc 0 then d.commands else d.commands ++ cs }

-- `openDevice`, where `open` of the port gives `fd`; -1 is an error.
unfoldable pub open_device : ℤ → DeviceController → Bool × DeviceController
open_device fd d = if fd == negsuc 0 then (false, record d { fd = fd }) else (
  true,
  issue (if d.on_normal_close then relay_off ∷ run_on ∷ [] else relay_on ∷ run_off ∷ [])
      (record d { fd = fd; door_open = false }),
)

abbrev pub same : Bool → Bool → Bool
same true b = b
same false b = not b

-- The relay for an open door, and for a closed one.
unfoldable pub switch : Bool → DeviceController → DeviceController
switch opened d =
    issue ((if same opened d.on_normal_close then relay_on else relay_off) ∷ [])
      (record d { door_open = opened })

unfoldable pub err_on : DeviceController → Bool × DeviceController
err_on d = if d.fd == pos 0 then (false, d) else (true, issue (error_on ∷ []) d)

unfoldable pub err_off : DeviceController → Bool × DeviceController
err_off d = if d.fd == pos 0 then (false, d) else (true, issue (error_off ∷ []) d)

abbrev state_text : Bool → String
state_text opened = if opened then "open" else "close"

abbrev pub or_empty : Option String → String
or_empty none = ""
or_empty (some s) = s

module _ {O : Type 0} where
  -- The record of a switch at the local time; `schema` is 1 for a task and 0 for a user.
  unfoldable pub log_switch : ℤ → String → ℤ → Action (World O) (Unit {0})
  log_switch operation username schema = do
    w ← get
    on_ops (
        add_record (record {
          timestamp = w.now +ℤ offset_us w.tzd;
          operation = operation;
          username = username;
          schema = schema;
        }))

module _ {O : Type 0} ⦃j : Json O⦄ where
  -- What the sensor says, and the relay.
  unfoldable pub check_door : Action (World O) (Unit {0})
  check_door = do
    w ← get
    fail_if (w.door.fd == pos 0) "420"
    set_string "state" (state_text (same (w.door.key == pos 1) (not w.door.in_normal_close)))
    set_string "switch" (state_text w.door.door_open)
    with_token ← has "token"
    if with_token then remove "token" else pure tt

  unfoldable pub get_mode : Action (World O) (Unit {0})
  get_mode = do
    with_mode ← has "mode"
    if with_mode then remove "mode" else pure tt
    remove "token"
    w ← get
    o ← the_param
    write_param (j.set_int o "mode" w.door.user_mode)

  module _ ⦃q : Sqlite UserRecordNode⦄ where
    -- A user in a device whose mode is 1 has to be an admin.
    abbrev pub mode_forbids : String → World O → Bool
    mode_forbids token w =
        w.door.user_mode == pos 1 && not (user_authority token w.users.table == authority_admin)

    -- The rest of `openDoor` for a task, which brings no parameter, and for a user.
    unfoldable pub open_closed : Option O → Action (World O) (Unit {0})
    open_closed none = do on_door (switch true); log_switch (pos 1) "" (pos 1)
    open_closed (some o) = do
      token ← get_string "token"
      remove "token"
      w ← get
      fail_if (not (can_user_open_door token w.users)) "421"
      fail_if (mode_forbids token w) "421"
      on_door (switch true)
      on_users (user_open_door token)
      log_switch (pos 1) (or_empty (get_user_name_from_token token w.users.table)) (pos 0)

    unfoldable pub open_door : Action (World O) (Unit {0})
    open_door = do
      w ← get
      fail_if (w.door.fd == pos 0) "420"
      if w.door.door_open then pure tt else open_closed w.param

    unfoldable pub close_open : Option O → Action (World O) (Unit {0})
    close_open none = do on_door (switch false); log_switch (pos 0) "" (pos 1)
    close_open (some o) = do
      token ← get_string "token"
      remove "token"
      w ← get
      fail_if (mode_forbids token w) "421"
      on_door (switch false)
      log_switch (pos 0) (or_empty (get_user_name_from_token token w.users.table)) (pos 0)

    unfoldable pub close_door : Action (World O) (Unit {0})
    close_door = do
      w ← get
      fail_if (w.door.fd == pos 0) "420"
      if w.door.door_open then close_open w.param else pure tt

    unfoldable pub store_mode : ℤ → Action (World O) (Unit {0})
    store_mode mode = do
      on_door (λ d. record d { user_mode = mode })
      on_config (Config.set_object "UserMode" (some (j.set_int j.empty "mode" mode)))
      pure tt

    unfoldable pub change_mode : Action (World O) (Unit {0})
    change_mode = do
      w ← get
      fail_if (lacks w "mode") "400"
      token ← get_string "token"
      remove "token"
      fail_if (not (user_authority token w.users.table == authority_admin)) "422"
      mode ← get_int "mode"
      if w.door.user_mode == mode then pure tt else store_mode mode
