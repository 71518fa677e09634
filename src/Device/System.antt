-- ===== src/Device/System.antt =====
-- CSystemManager, Src/Device/Component/System/SystemManager.cpp: the update of the firmware, and the
-- version of the device.
pub mod Updates
pub mod Checksum
pub mod Installs
pub mod Reset
pub mod Clock
use Prim.Native.String.{String, ◌++◌ as append_text}
use shuchuang.Shared.{
  Bool, true, false, Option, none, some, List, [], ◌∷◌, ◌++◌, not, ◌||◌, ◌==◌, string_key,
  if◌then◌else◌,
}
use shuchuang.Shared.Int.{ℤ, ltb_ℤ}
use shuchuang.Shared.Outcome.{
  Outcome, Action, ok, failed, thrown, pure, fail, throw, get, or_throw, modify, fail_if, ◌>>=◌,
  ◌>>◌,
}
use shuchuang.Shared.Poco.{Json}
use shuchuang.Common.Config.{Config, get_object}
use shuchuang.Device.World.{Message, system_will_reboot}

-- CSystemManager with what its handlers reach: the configuration, the parameter of the request, the
-- messages, and the texts that were copied to the path of the update information. `timer` says
-- whether a timer that runs `handleUpdate` was started.
pub record SystemManager (O : Type 0) : Type 0 where
  pub updating : Bool
  pub update_version : String
  pub timer : Bool
  pub config : Config O
  pub param : Option O
  pub posted : List Message
  pub copied : List (String × String)

-- The three entries of the update information.
pub record Info : Type 0 where
  pub version : String
  pub buildtime : String
  pub checksum : String

-- The FTP client, which logs in or not or throws, and downloads a file or throws; the parser of the
-- update information and the one of dates; MD5; the build time of the running program.
pub record Ftp : Type 0 where
  pub login : String → String → String → Option Bool
  pub download : String → Option String
  pub read_info : String → Option Info
  pub parse_date : String → Option ℤ
  pub file_md5 : String → String
  pub mktime : String

-- The version and the build time in the file at a path.
pub record InfoFile : Type 0 where
  pub version : String
  pub buildtime : String

module _ {O : Type 0} ⦃j : Json O⦄ where
  unfoldable pub on_config : {A : Type 0} → Action (Config O) A → Action (SystemManager O) A
  on_config m s = let (r, c) = m s.config in (r, record s { config = c })

  write_param : O → Action (SystemManager O) (Unit {0})
  write_param o = modify (λ s. record s { param = some o })

  abbrev pub lacks_version : Option O → Bool
  lacks_version p = elim p [ none ↦ true | some o ↦ not (j.has o "version") ]

  unfoldable pub start_update : Action (SystemManager O) (Unit {0})
  unfolding write_param
  start_update = do
    s ← get
    fail_if s.updating "463"
    modify (λ s. record s { updating = true })
    fail_if (lacks_version s.param) "464"
    o ← or_throw s.param
    version ← or_throw (j.get_string o "version")
    modify (λ s. record s { update_version = version; timer = true })
    if j.has o "token" then write_param (j.remove o "token") else pure tt

  abbrev lacks_info_path : Option O → Bool
  lacks_info_path p = elim p [ none ↦ true | some o ↦ not (j.has o "infoPath") ]

  unfoldable pub answer_version : Option InfoFile → Action (SystemManager O) (Unit {0})
  unfolding write_param
  answer_version none = fail "465"
  answer_version (some info) = do
    s ← get
    o ← or_throw s.param
    let p = if j.has o "token" then j.remove o "token" else o in
        write_param
          (j.set_string (j.set_string p "version" info.version) "buildtime" info.buildtime)

  -- `file` says what stands at a path.
  unfoldable pub get_dev_version : (String → Option InfoFile) → Action (SystemManager O) (Unit {0})
  unfolding on_config
  get_dev_version file = do
    update ← on_config (get_object "Update")
    fail_if (lacks_info_path update) "901"
    u ← or_throw update
    path ← or_throw (j.get_string u "infoPath")
    answer_version (file path)

  -- `m_updating = false; return`
  unfoldable pub give_up : Action (SystemManager O) (Unit {0})
  give_up = modify (λ s. record s { updating = false })

  -- After the check of the checksum: the copy of the information, and the reboot.
  unfoldable pub install : O → String → Action (SystemManager O) (Unit {0})
  install u text = do
    path ← or_throw (j.get_string u "infoPath")
    modify (λ s. record s {
      copied = s.copied ++ (path, text) ∷ [];
      updating = false;
      posted = s.posted ++ system_will_reboot ∷ [];
    })

  unfoldable pub check_file :
      Ftp → O → String → Info → Option String → Action (SystemManager O) (Unit {0})
  check_file ftp u text info none = give_up
  check_file ftp u text info (some body) =
      if ftp.file_md5 body == info.checksum then install u text else give_up

  unfoldable pub check_info :
      Ftp → O → String → String → Option Info → Action (SystemManager O) (Unit {0})
  check_info ftp u type text none = give_up
  check_info ftp u type text (some info) = do
    s ← get
    built ← or_throw (ftp.parse_date ftp.mktime)
    update_built ← or_throw (ftp.parse_date info.buildtime)
    let path = append_text (append_text (append_text type "/") s.update_version) "/DeviceTest" in
        if ltb_ℤ update_built built then give_up else check_file ftp u text info (ftp.download path)

  unfoldable pub check_text : Ftp → O → String → Option String → Action (SystemManager O) (Unit {0})
  check_text ftp u type none = give_up
  check_text ftp u type (some text) = check_info ftp u type text (ftp.read_info text)

  unfoldable pub fetch_info : Ftp → O → Action (SystemManager O) (Unit {0})
  unfolding on_config
  fetch_info ftp u = do
    device ← on_config (get_object "DeviceInfo")
    d ← or_throw device
    type ← or_throw (j.get_string d "type")
    check_text ftp u type (ftp.download (append_text type "/Info"))

  -- The test looks for the user name twice, and never for the password.
  abbrev pub lacks_server : O → Bool
  lacks_server u = not (j.has u "server") || (not (j.has u "username") || not (j.has u "username"))

  unfoldable pub log_in : Ftp → O → Action (SystemManager O) (Unit {0})
  log_in ftp u = do
    server ← or_throw (j.get_string u "server")
    username ← or_throw (j.get_string u "username")
    password ← or_throw (j.get_string u "password")
    logged ← or_throw (ftp.login server username password)
    if logged then fetch_info ftp u else give_up

  unfoldable pub update_from : Ftp → Option O → Action (SystemManager O) (Unit {0})
  update_from ftp none = give_up
  update_from ftp (some u) = if lacks_server u then give_up else log_in ftp u

  unfoldable pub read_config : Ftp → Action (SystemManager O) (Unit {0})
  unfolding on_config
  read_config ftp = do update ← on_config (get_object "Update"); update_from ftp update

  unfoldable pub handle_update : Ftp → Action (SystemManager O) (Unit {0})
  handle_update ftp = do s ← get; if s.updating then read_config ftp else pure tt
