-- ===== src/Device/Users/Accounts.antt =====
-- `addUser`, `deleteUser`, `topUpUser` and `listUser` of CUserManager,
-- Src/Device/Component/User/UserManager.cpp.
use shuchuang.Shared.{ℕ, ◌+◌, Bool, List, [], ◌∷◌, not, ◌&&◌, ◌||◌, ◌==◌, if◌then◌else◌, string_key}
use shuchuang.Shared.Int.{ℤ, pos, ltb_ℤ, int_key}
use shuchuang.Shared.Outcome.{Action, get, fail_if, ◌>>=◌, ◌>>◌}
use shuchuang.Shared.Poco.{Json, Sqlite}
use shuchuang.Device.UserTable.{UserRecordNode, add_user, delete_user, update_user, get_users}
use shuchuang.Device.World.{
  World, lacks, the_param, get_string, get_int, write_param, remove, on_table,
}
use shuchuang.Device.Users.{
  authority_admin, authority_long, authority_temp, by_token, by_name, verify_user, user_authority,
}

-- The new end of validity counts if it lies ahead and before that of the admin.
unfoldable pub topped_up : UserRecordNode → UserRecordNode → ℤ → ℤ → ℤ → UserRecordNode
topped_up login_node node time_of_validity remain_open now = record node {
  time_of_validity =
      if ltb_ℤ now time_of_validity && ltb_ℤ time_of_validity login_node.time_of_validity
      then time_of_validity
      else node.time_of_validity;
  remain_open = remain_open;
}

module _ {O : Type 0} ⦃j : Json O⦄ ⦃q : Sqlite UserRecordNode⦄ where
  abbrev pub lacks_account : World O → Bool
  lacks_account w =
      lacks w "username"
      || (lacks w "binduser"
          || (lacks w "password"
              || (lacks w "authority"
                  || (lacks w "remainopen" || (lacks w "timeofvalidity" || lacks w "token")))))

  unfoldable pub add_account : Action (World O) (Unit {0})
  add_account = do
    w ← get
    fail_if (lacks_account w) "400"
    token ← get_string "token"
    password ← get_string "password"
    remove "token"
    remove "password"
    fail_if (not (verify_user token w.now w.users.table)) "402"
    let login_user = (by_token token w.users.table).1
    username ← get_string "username"
    binduser ← get_string "binduser"
    let found = by_name username w.users.table
    fail_if (not (found.0 == pos 0)) "410"
    authority ← get_int "authority"
    fail_if
        (not (login_user.authority == authority_admin)
          || (ltb_ℤ authority authority_temp || ltb_ℤ authority_long authority))
        "412"
    remain_open ← get_int "remainopen"
    time_of_validity ← get_int "timeofvalidity"
    added ← on_table (
        add_user (record found.1 {
          password = password;
          binduser = binduser;
          authority = authority;
          remain_open = remain_open;
          time_of_validity = time_of_validity;
        }))
    fail_if (added == pos 0) "413"

  unfoldable pub delete_account : Action (World O) (Unit {0})
  delete_account = do
    w ← get
    fail_if (lacks w "username" || lacks w "token") "400"
    token ← get_string "token"
    remove "token"
    fail_if (not (verify_user token w.now w.users.table)) "402"
    username ← get_string "username"
    let found = by_name username w.users.table
    fail_if (found.0 == pos 0) "411"
    let login_user = (by_token token w.users.table).1
    fail_if
        (not (login_user.authority == authority_admin) || ltb_ℤ authority_long found.1.authority)
        "412"
    deleted ← on_table (delete_user found.1)
    fail_if (deleted == pos 0) "414"

  unfoldable pub top_up : Action (World O) (Unit {0})
  top_up = do
    w ← get
    fail_if
        (lacks w "username"
          || (lacks w "token" || (lacks w "timeofvalidity" || lacks w "remainopen")))
        "400"
    token ← get_string "token"
    remove "token"
    fail_if (not (verify_user token w.now w.users.table)) "402"
    let login_node = (by_token token w.users.table).1
    fail_if (not (login_node.authority == authority_admin)) "412"
    username ← get_string "username"
    let found = by_name username w.users.table
    fail_if (found.0 == pos 0) "410"
    time_of_validity ← get_int "timeofvalidity"
    remain_open ← get_int "remainopen"
    updated ←
        on_table (update_user (topped_up login_node found.1 time_of_validity remain_open w.now))
    fail_if (updated == pos 0) "417"

  -- The entry of a user in the answer; `i` counts from 0.
  unfoldable pub user_entry : ℕ → UserRecordNode → O
  user_entry i r =
      let e0 = j.set_int j.empty "id" (pos i) in
      let e1 = j.set_string e0 "binduser" r.binduser in
      let e2 = j.set_int64 e1 "timeofvalidity" r.time_of_validity in
      let e3 = j.set_int e2 "remainopen" r.remain_open in
      let e4 = j.set_string e3 "username" r.username in j.set_int e4 "authority" r.authority

  unfoldable pub user_entries : ℕ → List UserRecordNode → List O
  unfolding user_entry
  user_entries i [] = []
  user_entries i (r ∷ rs) = user_entry i r ∷ user_entries (i + 1) rs

  unfoldable pub list_user : Action (World O) (Unit {0})
  list_user = do
    token ← get_string "token"
    remove "token"
    w ← get
    fail_if (not (user_authority token w.users.table == authority_admin)) "412"
    fail_if (lacks w "limit" || lacks w "offset") "400"
    limit ← get_int "limit"
    offset ← get_int "offset"
    let (n, data_set) = get_users limit offset w.users.table
    fail_if (ltb_ℤ n (pos 0)) "415"
    o ← the_param
    write_param (j.set_objects o "Users" (user_entries 0 data_set))
