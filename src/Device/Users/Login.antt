-- ===== src/Device/Users/Login.antt =====
-- `login`, `passwd` and `logout` of CUserManager, Src/Device/Component/User/UserManager.cpp.
use shuchuang.Shared.{
  String, Bool, Option, none, some, not, ◌&&◌, ◌||◌, ◌==◌, if◌then◌else◌, string_key,
}
use shuchuang.Shared.Int.{pos, int_key}
use shuchuang.Shared.Dict.{find, insert, erase}
use shuchuang.Shared.Outcome.{Action, pure, fail, get, or_throw, fail_if, ◌>>=◌, ◌>>◌}
use shuchuang.Shared.Poco.{Json, Digest, Sqlite}
use shuchuang.Common.Config
use shuchuang.Device.UserTable.{UserRecordNode, update_user}
use shuchuang.Device.World.{
  World, ChallengeNode, device_bind_mobile, device_unbind_mobile, lacks, has, get_string,
  set_string, remove, on_users, on_table, post, on_config, generate_md5,
}
use shuchuang.Device.Users.{
  check_user_validity, by_token, by_name, verify_user, verify_user_password,
}

-- Step 1 refuses a user that another account of the phone side has bound; an admin that nobody has
-- bound is free.
unfoldable pub bound_elsewhere : UserRecordNode → String → Bool
bound_elsewhere node binduser =
    if node.username == "admin"
    then not (node.binduser == "") && not (node.binduser == binduser)
    else not (node.binduser == binduser)

-- The texts under "MobileToken" and "InstallationId", where the two differ from the given ones.
module _ {O : Type 0} ⦃j : Json O⦄ where
  unfoldable pub apns_update : O → String → String → Action (World O) (Unit {0})
  apns_update apns mobile installation = do
    old_mobile ← or_throw (j.get_string apns "MobileToken")
    old_installation ← or_throw (j.get_string apns "InstallationId")
    if not (old_mobile == mobile) || not (old_installation == installation)
        then (do
          let apns1 = j.set_string (j.remove apns "MobileToken") "MobileToken" mobile
          let apns2 = j.set_string (j.remove apns1 "InstallationId") "InstallationId" installation
          on_config (Config.set_object "APNS" (some apns2))
          post (device_bind_mobile mobile installation))
        else pure tt

  -- `has(key) ? getValue(key) : ""`
  unfoldable pub get_or_empty : String → Action (World O) String
  get_or_empty key = do present ← has key; if present then get_string key else pure ""

  -- A phone that the admin logs in from is written to the configuration, if it is a new one.
  unfoldable pub bind_phone : String → Action (World O) (Unit {0})
  bind_phone username = do
    with_mobile ← has "mobiletoken"
    with_installation ← has "installationid"
    if username == "admin" && (with_mobile || with_installation)
        then (do
          mobile ← get_or_empty "mobiletoken"
          installation ← get_or_empty "installationid"
          apns ← on_config (Config.get_object "APNS")
          object ← or_throw apns
          apns_update object mobile installation)
        else pure tt

  module _ ⦃q : Sqlite UserRecordNode⦄ ⦃g : Digest⦄ where
    unfoldable pub login_step1 : String → UserRecordNode → Action (World O) (Unit {0})
    login_step1 username node = do
      w ← get
      fail_if (not (check_user_validity node w.now)) "402"
      binduser ← get_string "binduser"
      if bound_elsewhere (record node { username = username }) binduser
          then (do remove "binduser"; set_string "binduser" node.binduser; fail "418")
          else (do
            challenge ← generate_md5
            token ← generate_md5
            bound_by ← get_string "binduser"
            on_table (update_user (record node { token = token; binduser = bound_by }))
            on_users (λ u. record u {
              challenge_map =
                  insert username (record { challenge = challenge; generate_time = w.now })
                    u.challenge_map;
            })
            set_string "challenge" challenge
            set_string "token" token)

    -- The node of the token, not that of the name, is written back.
    unfoldable pub login_step2 : String → String → Action (World O) (Unit {0})
    login_step2 username challenge = do
      on_users (λ u. record u { challenge_map = erase username u.challenge_map })
      w ← get
      fail_if (lacks w "token") "400"
      token ← get_string "token"
      let node = (by_token token w.users.table).1
      fail_if (lacks w "password") "400"
      password ← get_string "password"
      remove "password"
      if verify_user_password username password "login" challenge w.users.table
          then (do
            on_table (update_user (record node { last_verify = w.now }))
            bind_phone username)
          else (do on_table (update_user (record node { token = "" })); fail "416")

    -- A challenge that waits for the user makes the call step 2.
    unfoldable pub login_step :
        Option ChallengeNode → String → UserRecordNode → Action (World O) (Unit {0})
    login_step none username node = login_step1 username node
    login_step (some c) username node = login_step2 username c.challenge

    unfoldable pub login : Action (World O) (Unit {0})
    login = do
      w ← get
      fail_if (lacks w "username" || lacks w "binduser") "400"
      username ← get_string "username"
      let found = by_name username w.users.table
      fail_if (found.0 == pos 0) "411"
      login_step (find username w.users.challenge_map) username found.1

    unfoldable pub passwd_step1 : String → Action (World O) (Unit {0})
    passwd_step1 username = do
      w ← get
      challenge ← generate_md5
      set_string "challenge" challenge
      on_users (λ u. record u {
        challenge_map =
            insert username (record { challenge = challenge; generate_time = w.now })
              u.challenge_map;
      })

    unfoldable pub passwd_step2 : UserRecordNode → String → Action (World O) (Unit {0})
    passwd_step2 node challenge = do
      on_users (λ u. record u { challenge_map = erase node.username u.challenge_map })
      w ← get
      fail_if (lacks w "newpassword" || lacks w "password") "400"
      password ← get_string "password"
      newpass ← get_string "newpassword"
      remove "password"
      remove "newpassword"
      if verify_user_password node.username password "passwd" challenge w.users.table
          then (do on_table (update_user (record node { password = newpass; token = "" })); pure tt)
          else fail "416"

    unfoldable pub passwd_step : Option ChallengeNode → UserRecordNode → Action (World O) (Unit {0})
    passwd_step none node = passwd_step1 node.username
    passwd_step (some c) node = passwd_step2 node c.challenge

    unfoldable pub passwd : Action (World O) (Unit {0})
    passwd = do
      w ← get
      fail_if (lacks w "token") "400"
      token ← get_string "token"
      remove "token"
      fail_if (not (verify_user token w.now w.users.table)) "402"
      let node = (by_token token w.users.table).1
      passwd_step (find node.username w.users.challenge_map) node

  module _ ⦃q : Sqlite UserRecordNode⦄ where
    unfoldable pub logout : Action (World O) (Unit {0})
    logout = do
      w ← get
      fail_if (lacks w "token") "400"
      token ← get_string "token"
      fail_if (not (verify_user token w.now w.users.table)) "402"
      let node = (by_token token w.users.table).1
      on_table (update_user (record node { token = ""; binduser = "" }))
      on_config (
          Config.set_object "APNS"
            (some (j.set_string (j.set_string j.empty "MobileToken" "") "InstallationId" "")))
      if node.username == "admin" then post device_unbind_mobile else pure tt
