-- ===== src/Server/Main.antt =====
-- The main function of the transmit server, Src/TransmitServer/Main.cpp, with `init` of CUpdateManager,
-- Src/TransmitServer/UpdateManager/UpdateManager.cpp, and `start` of CDeviceManager with the push center.
pub mod Starts
use shuchuang.Shared.{
  ℕ, String, Bool, true, false, Option, none, some, List, [], not, if◌then◌else◌,
}
use shuchuang.Shared.Course.{
  returns, throws, blocks, Call, give, end_by, value_or_throw, update, ◌>>=◌, ◌>>◌,
}
use shuchuang.Shared.Poco.{Json}
use shuchuang.Common.Config.{Config, get_object}
use shuchuang.Common.Config.Files.{ConfigFile}
use shuchuang.Common.Config.Files
use shuchuang.Server.Devices
use shuchuang.Server.Devices.{DeviceManager}
use shuchuang.Server.PushCenter
use shuchuang.Server.PushCenter.{PushCenter}
use shuchuang.Server.Registrar.Listening
use shuchuang.Server.Registrar.Listening.{Listening, Surrounding, config_read}
use shuchuang.Server.Http.Serving
use shuchuang.Server.Http.Serving.{HttpServer}

-- The components, each the one instance of its class.
pub record Program (O : Type 0) : Type 0 where
  pub config : Config O
  pub push : PushCenter O
  pub devices : DeviceManager
  pub registrar : Listening
  pub http : HttpServer
  pub update_path : String

-- What the program meets: the file of the configuration, its array "Proxy", the sockets, whether a
-- path is a directory, and whether the wait for the semaphore throws; nothing sets the semaphore.
pub record Meeting (O : Type 0) : Type 0 where
  pub file : ConfigFile O
  pub proxies : O → Option (List (Option String))
  pub sockets : Surrounding
  pub listens : ℕ → String → String → Bool
  pub is_directory : String → Bool
  pub wait_throws : Bool

abbrev pub fresh : {O : Type 0} → Program O
fresh = record {
  config = none;
  push = record { bmob_info = none; tried = [] };
  devices = Devices.init;
  registrar = Listening.constructed;
  http = Serving.constructed;
  update_path = "";
}

module _ {O A : Type 0} where
  -- A call of one component.
  unfoldable pub on_registrar : Call Listening A → Call (Program O) A
  on_registrar m p = let (c, s) = m p.registrar in (c, record p { registrar = s })

  unfoldable pub on_http : Call HttpServer A → Call (Program O) A
  on_http m p = let (c, s) = m p.http in (c, record p { http = s })

module _ {O : Type 0} where
  -- `getConfig` of an entry.
  unfoldable pub read_entry : String → Call (Program O) (Option O)
  unfolding config_read
  read_entry name p = (config_read (get_object name p.config).0, p)

  unfoldable pub init_config : Meeting O → Call (Program O) (Unit {0})
  init_config w = update (λ p. record p { config = (Files.init w.file).1 })

  unfoldable pub stop_devices : Call (Program O) Bool
  stop_devices p = let (b, m) = Devices.stop p.devices in (returns b, record p { devices = m })

  unfoldable pub wait_for_end : Meeting O → Call (Program O) (Unit {0})
  wait_for_end w = if w.wait_throws then give tt else end_by blocks

  -- `main` from the semaphore on: what the wait throws is caught.
  unfoldable pub wait_and_stop : Meeting O → Call (Program O) ℕ
  unfolding on_http on_registrar stop_devices wait_for_end
  wait_and_stop w = do
    wait_for_end w
    http_stopped ← on_http Serving.stop
    registrar_stopped ← on_registrar (Listening.stop w.sockets)
    devices_stopped ← stop_devices
    give 0

module _ {O : Type 0} ⦃j : Json O⦄ where
  unfoldable pub init_push : Meeting O → Option O → Call (Program O) Bool
  unfolding config_read
  init_push w apns p =
      let (c, push) = PushCenter.init w.proxies apns p.push in
      (config_read c, record p { push = push })

  -- `start` of CDeviceManager, in which the push center is made ready; what its `init` says is not
  -- asked.
  unfoldable pub start_stopped_devices : Meeting O → Call (Program O) Bool
  unfolding read_entry init_push
  start_stopped_devices w = do
    apns ← read_entry "APNS"
    push_done ← init_push w apns
    update (λ p. record p { devices = (Devices.start p.devices).1 })
    give true

  unfoldable pub start_devices : Meeting O → Call (Program O) Bool
  unfolding start_stopped_devices
  start_devices w p = if p.devices.started then (returns false, p) else start_stopped_devices w p

  unfoldable pub start_registrar : Meeting O → Call (Program O) Bool
  unfolding on_registrar
  start_registrar w p = on_registrar (Listening.start p.config w.sockets) p

  unfoldable pub start_http : Meeting O → Call (Program O) Bool
  unfolding on_http
  start_http w p = on_http (Serving.start p.config w.listens) p

  -- `init` of CUpdateManager: the path is set before it is asked whether it is a directory.
  unfoldable pub set_update_path : Meeting O → Option O → Call (Program O) Bool
  set_update_path w none = give false
  set_update_path w (some o) = if not (j.has o "DirPath") then give false else do
    path ← value_or_throw (j.get_string o "DirPath")
    update (λ p. record p { update_path = path })
    give (w.is_directory path)

  unfoldable pub init_update : Meeting O → Call (Program O) Bool
  unfolding read_entry set_update_path
  init_update w = do entry ← read_entry "Update"; set_update_path w entry

  -- `main` up to the semaphore: no result is asked.
  unfoldable pub start_all : Meeting O → Call (Program O) (Unit {0})
  unfolding init_config start_devices start_registrar start_http init_update
  start_all w = do
    init_config w
    devices_started ← start_devices w
    registrar_started ← start_registrar w
    http_started ← start_http w
    updates_ready ← init_update w
    give tt

  unfoldable pub main_program : Meeting O → Call (Program O) ℕ
  unfolding start_all wait_and_stop
  main_program w = do start_all w; wait_and_stop w
