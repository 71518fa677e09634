-- ===== src/Server/Devices.antt =====
-- CDeviceManager, Src/TransmitServer/DeviceManager.cpp: the devices that have asked for a token, and
-- the sockets of those that are online. Each method but `start`, `stop` and `run` holds the mutex, so it is
-- one step; `run` is a step for each entry.
pub mod Sound
pub mod Sessions
pub mod Statuses
pub mod Refines
pub mod Admits
pub mod Interrupted
use shuchuang.Shared.{
  ℕ, ◌+◌, ◌-◌, ◌*◌, String, Bool, true, false, Option, none, some, List, [], ◌∷◌, ◌++◌, ltb, ◌==◌,
  if◌then◌else◌, string_key, nat_key, not, map,
}
use shuchuang.Shared.Dict.{Dict, find, insert, erase, update}
use shuchuang.Shared.Poco.{Digest}

-- `struct _DeviceInfo`; times are microseconds.
pub record DeviceInfo : Type 0 where
  pub uuid : String
  pub id : ℕ
  pub dev_type : String
  pub token : String
  pub bind_mobile_token : String
  pub bind_mobile_installation : String
  pub time : ℕ
  pub online : Bool

-- The text of a push message, by the device that it names.
pub data Notice : Type 0 where
  came_online went_offline : String → Notice

-- A call of `CPushCenter`.
pub data Push : Type 0 where
  bmob_ios bmob_android : String → Notice → Push

pub record DeviceManager : Type 0 where
  pub started : Bool
  pub device_map : Dict String DeviceInfo
  pub device_id_map : Dict ℕ String
  -- identifiers drawn from the generator, push calls, posted `OfflineNotification`s, newest last
  pub drawn : ℕ
  pub pushed : List Push
  pub posted : List (ℕ × String)

unfoldable pub init : DeviceManager
init = record {
  started = false;
  device_map = [];
  device_id_map = [];
  drawn = 0;
  pushed = [];
  posted = [];
}

-- What a read of a field gives after `delete`: the program does so at two places.
pub record Freed : Type 0 where
  pub freed_id : DeviceInfo → ℕ
  pub freed_uuid : DeviceInfo → String

unfoldable pub start : DeviceManager → Bool × DeviceManager
start m = if m.started then (false, m) else (true, record m { started = true })

-- `stop` frees the devices; the socket map stays as it is.
unfoldable pub stop : DeviceManager → Bool × DeviceManager
stop m = if m.started then (true, record m { started = false; device_map = [] }) else (false, m)

unfoldable pub new_device : String → ℕ → String → String → ℕ → DeviceInfo
new_device uuid id dev_type token now = record {
  uuid = uuid;
  id = id;
  dev_type = dev_type;
  token = token;
  bind_mobile_token = "";
  bind_mobile_installation = "";
  time = now;
  online = false;
}

-- `none` is `return false`; `some` is `return true` with the token.
unfoldable pub add_device :
    ⦃g : Digest⦄ → String → ℕ → String → ℕ → DeviceManager → Option String × DeviceManager
unfolding new_device
add_device ⦃g⦄ uuid id dev_type now m = elim (find uuid m.device_map) [
  | some d ↦ if d.online then (none, m) else (
    some d.token,
    record m { device_map = update uuid (record d { time = now }) m.device_map },
  )
  | none ↦
      let token = g.md5 (g.uuid m.drawn) in
      (
        some token,
        record m {
          drawn = m.drawn + 1;
          device_map = insert uuid (new_device uuid id dev_type token now) m.device_map;
        },
      )
]

pub keep_alive_device : String → ℕ → DeviceManager → Bool × DeviceManager
keep_alive_device uuid now m = elim (find uuid m.device_map) [
  | none ↦ (false, m)
  | some d ↦
      if d.online
      then (true, record m { device_map = update uuid (record d { time = now }) m.device_map })
      else (false, m)
]

-- The pushes to the bound phone: none for an empty token, none for an empty installation.
unfoldable pub pushes : DeviceInfo → Notice → List Push
pushes d n =
    (if d.bind_mobile_token == "" then [] else bmob_ios d.bind_mobile_token n ∷ [])
    ++ (if d.bind_mobile_installation == ""
        then []
        else bmob_android d.bind_mobile_installation n ∷ [])

pub device_online : String → String → ℕ → ℕ → DeviceManager → Bool × DeviceManager
device_online uuid token sock_id now m = elim (find uuid m.device_map) [
  | none ↦ (false, m)
  | some d ↦
      if d.online
      then (true, record m { device_map = update uuid (record d { time = now }) m.device_map })
      else if token == d.token
      then (
        true,
        record m {
          device_map = update uuid (record d { online = true; id = sock_id }) m.device_map;
          device_id_map = insert sock_id uuid m.device_id_map;
          pushed = m.pushed ++ pushes d (came_online d.uuid);
        },
      )
      else (false, m)
]

-- `deviceOffline(uuid)`: the socket id is read after `delete`.
pub device_offline_uuid : ⦃f : Freed⦄ → String → DeviceManager → Bool × DeviceManager
device_offline_uuid ⦃f⦄ uuid m = elim (find uuid m.device_map) [
  | none ↦ (true, m)
  | some d ↦
      let gone = record m { device_map = erase uuid m.device_map } in
      elim (find (f.freed_id d) m.device_id_map) [
        | none ↦ (true, gone)
        | some _ ↦ (
          true,
          record gone {
            device_id_map = erase (f.freed_id d) m.device_id_map;
            pushed = m.pushed ++ pushes d (went_offline uuid);
          },
        )
      ]
]

-- `deviceOffline(id)`
pub device_offline_id : ℕ → DeviceManager → Bool × DeviceManager
device_offline_id id m = elim (find id m.device_id_map) [
  | none ↦ (true, m)
  | some uuid ↦
      let gone = record m { device_id_map = erase id m.device_id_map } in
      elim (find uuid m.device_map) [
        | none ↦ (true, gone)
        | some d ↦ (
          true,
          record gone {
            device_map = erase uuid m.device_map;
            pushed = m.pushed ++ pushes d (went_offline uuid);
          },
        )
      ]
]

pub bind_mobile : String → String → String → DeviceManager → Bool × DeviceManager
bind_mobile uuid mobile installation m = elim (find uuid m.device_map) [
  | none ↦ (false, m)
  | some d ↦ (
    true,
    record m {
      device_map =
          update uuid
            (record d { bind_mobile_token = mobile; bind_mobile_installation = installation })
            m.device_map;
    },
  )
]

pub unbind_mobile : String → DeviceManager → Bool × DeviceManager
unbind_mobile uuid m = elim (find uuid m.device_map) [
  | none ↦ (false, m)
  | some d ↦ (
    true,
    record m {
      device_map =
          update uuid (record d { bind_mobile_token = ""; bind_mobile_installation = "" })
            m.device_map;
    },
  )
]

unfoldable pub check_device : String → DeviceManager → Bool
check_device uuid m = elim (find uuid m.device_map) [ none ↦ false | some d ↦ d.online ]

unfoldable pub get_device : String → DeviceManager → Option DeviceInfo
get_device uuid m = find uuid m.device_map

-- 5 seconds
abbrev pub check_period : ℕ
check_period = 5 * 1000 * 1000

abbrev pub expired : ℕ → DeviceInfo → Bool
expired now d = ltb (24 * check_period) (now - d.time)

-- The body of the loop in `run` for one entry. The loop holds no mutex, so other calls may come between
-- two entries; that an iterator may be invalid then is left out. Where the offline call has deleted the device, the
-- notification is built from the freed memory.
pub check_entry : ⦃f : Freed⦄ → ℕ → String → DeviceManager → DeviceManager
unfolding device_offline_id
check_entry ⦃f⦄ now uuid m = elim (find uuid m.device_map) [
  | none ↦ m
  | some d ↦
      if expired now d
      then (let gone = (device_offline_id d.id m).1 in
          record gone {
            posted =
                m.posted
                ++ (elim (find uuid gone.device_map) [
                  | none ↦ (f.freed_id d, f.freed_uuid d)
                  | some _ ↦ (d.id, d.uuid)
                ])
                  ∷ [];
          })
      else m
]

-- A round of the loop, where no other call comes between.
check_entries : ⦃f : Freed⦄ → ℕ → List String → DeviceManager → DeviceManager
unfolding check_entry
check_entries now [] m = m
check_entries now (uuid ∷ rest) m = check_entries now rest (check_entry now uuid m)
