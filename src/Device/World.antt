-- ===== src/Device/World.antt =====
-- The state of the device while it serves one request: the singletons of Src/Device/Component, what
-- they post, and the parameter of the request. A handler is an action on this state.
pub mod Keeps
use shuchuang.Shared.{
  ℕ, ◌+◌, String, Bool, true, false, Option, none, some, List, [], ◌∷◌, ◌++◌, not, ◌||◌,
  if◌then◌else◌,
}
use shuchuang.Shared.Int.{ℤ}
use shuchuang.Shared.Dict.{Dict}
use shuchuang.Shared.Outcome.{
  Outcome, Action, ok, failed, thrown, pure, fail, throw, get, or_throw, modify, fail_if, ◌>>=◌,
  ◌>>◌,
}
use shuchuang.Shared.Poco.{Json, Digest}
use shuchuang.Common.Config.{Config}
use shuchuang.Common.Config
use shuchuang.Device.UserTable.{UserTable}
use shuchuang.Device.TaskTable.{TaskManager}
use shuchuang.Device.OperationTable.{OpManager, DeviceController}

pub record ChallengeNode : Type 0 where
  pub challenge : String
  pub generate_time : ℤ

-- CUserManager: `m_challenge_map` by user name, `m_cache_map` by token.
pub record UserManager : Type 0 where
  pub table : UserTable
  pub challenge_map : Dict String ChallengeNode
  pub cache_map : Dict String ℕ
  pub started : Bool

-- A `MessageNotification` by its name, with the two fields of its parameter.
pub data Message : Type 0 where
  system_will_reboot device_unbind_mobile : Message
  device_bind_mobile : String → String → Message

-- `now` is the clock in microseconds, which stands still during a call, and `tzd` the offset of the
-- local time in seconds; `drawn` counts the identifiers drawn from the generator; `param` is `none`
-- for a null pointer.
pub record World (O : Type 0) : Type 0 where
  pub users : UserManager
  pub tasks : TaskManager O
  pub ops : OpManager
  pub door : DeviceController
  pub config : Config O
  pub posted : List Message
  pub drawn : ℕ
  pub now : ℤ
  pub tzd : ℤ
  pub param : Option O

module _ {O : Type 0} where
  -- Through a null pointer every access throws.
  unfoldable pub the_param : Action (World O) O
  the_param = do w ← get; or_throw w.param

  unfoldable pub write_param : O → Action (World O) (Unit {0})
  write_param o = modify (λ w. record w { param = some o })

module _ {O : Type 0} ⦃j : Json O⦄ where
  -- `param.isNull() || !param->has(key)`
  abbrev pub lacks : World O → String → Bool
  lacks w key = elim w.param [ none ↦ true | some o ↦ not (j.has o key) ]

  unfoldable pub has : String → Action (World O) Bool
  unfolding the_param
  has key = do o ← the_param; pure (j.has o key)

  unfoldable pub get_string : String → Action (World O) String
  unfolding the_param
  get_string key = do o ← the_param; or_throw (j.get_string o key)

  unfoldable pub get_int : String → Action (World O) ℤ
  unfolding the_param
  get_int key = do o ← the_param; or_throw (j.get_int o key)

  unfoldable pub set_string : String → String → Action (World O) (Unit {0})
  unfolding the_param write_param
  set_string key v = do o ← the_param; write_param (j.set_string o key v)

  unfoldable pub remove : String → Action (World O) (Unit {0})
  unfolding the_param write_param
  remove key = do o ← the_param; write_param (j.remove o key)

module _ {O : Type 0} where
  unfoldable pub on_users : (UserManager → UserManager) → Action (World O) (Unit {0})
  on_users f = modify (λ w. record w { users = f w.users })

  unfoldable pub on_table : (UserTable → ℤ × UserTable) → Action (World O) ℤ
  on_table f w =
      let (r, t) = f w.users.table in (ok r, record w { users = record w.users { table = t } })

  unfoldable pub on_tasks : (TaskManager O → TaskManager O) → Action (World O) (Unit {0})
  on_tasks f = modify (λ w. record w { tasks = f w.tasks })

  unfoldable pub on_ops : (OpManager → OpManager) → Action (World O) (Unit {0})
  on_ops f = modify (λ w. record w { ops = f w.ops })

  unfoldable pub on_door : (DeviceController → DeviceController) → Action (World O) (Unit {0})
  on_door f = modify (λ w. record w { door = f w.door })

  unfoldable pub post : Message → Action (World O) (Unit {0})
  post m = modify (λ w. record w { posted = w.posted ++ m ∷ [] })

  -- A call of the configuration.
  unfoldable pub on_config : {A : Type 0} → Action (Config O) A → Action (World O) A
  on_config m w = let (r, c) = m w.config in (r, record w { config = c })

  -- `generateNewMD5String`
  unfoldable pub generate_md5 : ⦃g : Digest⦄ → Action (World O) String
  generate_md5 ⦃g⦄ w = (ok (g.md5 (g.uuid w.drawn)), record w { drawn = w.drawn + 1 })

-- Named on an `unfolding` line, this opens the steps of the handlers.
unfoldable pub steps : Unit {0}
unfolding ◌>>=◌ has get_string get_int set_string remove on_users on_table on_tasks on_ops on_door
    post on_config generate_md5
steps = tt
