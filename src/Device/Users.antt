-- ===== src/Device/Users.antt =====
-- CUserManager, Src/Device/Component/User/UserManager.cpp: the handlers of the component "user".
-- The mutexes make each handler one step; logging is left out.
pub mod Login
pub mod Accounts
pub mod Admins
pub mod History
pub mod Kept
pub mod Names
pub mod Tokens
pub mod Budget
pub mod Answers
use Prim.Native.String.{◌++◌ as append_text}
use shuchuang.Shared.{
  ℕ, ◌+◌, ◌/◌, String, Bool, true, false, Option, none, some, List, [], ◌∷◌, map, not, ◌&&◌, ◌||◌,
  ◌==◌, ltb, if◌then◌else◌, string_key,
}
use shuchuang.Shared.Int.{ℤ, pos, negsuc, ◌-ℤ◌, pos_part, neg_part, ltb_ℤ, leb_ℤ, int_beq, int_key}
use shuchuang.Shared.Dict.{Dict, find, insert, erase, update}
use shuchuang.Shared.Outcome.{
  Outcome, Action, ok, failed, thrown, pure, fail, throw, get, or_throw, modify, fail_if, ◌>>=◌,
  ◌>>◌,
}
use shuchuang.Shared.Poco.{Json, Digest, Sqlite}
use shuchuang.Common.Config
use shuchuang.Device.UserTable.{
  UserRecordNode, UserTable, blank, get_user_by_name, get_user_by_token, add_user, delete_user,
  update_user, get_users,
}
use shuchuang.Device.World.{
  World, UserManager, ChallengeNode, Message, system_will_reboot, device_bind_mobile,
  device_unbind_mobile, lacks, the_param, has, get_string, get_int, write_param, set_string, remove,
  on_users, on_table, post, on_config, generate_md5,
}

abbrev pub authority_admin : ℤ
authority_admin = pos 9

abbrev pub authority_long : ℤ
authority_long = pos 8

abbrev pub authority_temp : ℤ
authority_temp = pos 7

-- `Timespan::totalSeconds`, toward zero, compared with 0 and with a bound.
abbrev second : ℕ
second = 1000000

-- `checkUserValidity`: `timeOfValidity - now` is not below 0 seconds.
unfoldable pub check_user_validity : UserRecordNode → ℤ → Bool
check_user_validity user now = not (ltb 0 (neg_part (user.time_of_validity -ℤ now) / second))

unfoldable pub start : UserManager → UserManager
start u = if u.started then u else record u { started = true }

unfoldable pub stop : UserManager → UserManager
stop u = if u.started then record u { started = false } else u

unfoldable pub user_open_door : String → UserManager → UserManager
user_open_door token u = elim (find token u.cache_map) [
  | none ↦ record u { cache_map = insert token 1 u.cache_map }
  | some n ↦ record u { cache_map = update token (n + 1) u.cache_map }
]

unfoldable pub drop_old : ℤ → Dict String ChallengeNode → Dict String ChallengeNode
drop_old now [] = []
drop_old now ((name, c) ∷ m) =
    let rest = drop_old now m in
    if ltb 60 (pos_part (now -ℤ c.generate_time) / second) then rest else (name, c) ∷ rest

module _ ⦃q : Sqlite UserRecordNode⦄ where
  -- The user of a token or a name: the number of matches and the node.
  unfoldable pub by_token : String → UserTable → ℤ × UserRecordNode
  by_token token t = get_user_by_token (record blank { token = token }) t

  unfoldable pub by_name : String → UserTable → ℤ × UserRecordNode
  by_name name t = get_user_by_name (record blank { username = name }) t

  unfoldable pub get_user_name_from_token : String → UserTable → Option String
  unfolding by_token
  get_user_name_from_token token t =
      let (n, node) = by_token token t in if n == pos 0 then none else some node.username

  unfoldable pub user_authority : String → UserTable → ℤ
  unfolding by_token
  user_authority token t =
      let (n, node) = by_token token t in if n == pos 0 then negsuc 0 else node.authority

  unfoldable pub verify_user : String → ℤ → UserTable → Bool
  unfolding by_token check_user_validity
  verify_user token now t =
      let (n, node) = by_token token t in if n == pos 0 then false else check_user_validity node now

  unfoldable pub can_user_open_door : String → UserManager → Bool
  unfolding by_token
  can_user_open_door token u =
      let left = (by_token token u.table).1.remain_open in
      if ltb_ℤ left (pos 0) then true else elim (find token u.cache_map) [
        | none ↦ ltb_ℤ (pos 0) left
        | some n ↦ ltb_ℤ (pos 0) (left -ℤ pos n)
      ]

  -- One round of the loop in `writeCache`.
  unfoldable pub write_entry : String → ℕ → UserTable → UserTable
  unfolding by_token
  write_entry token n t =
      let node = (by_token token t).1 in
      if ltb_ℤ (pos 0) node.remain_open
      then (update_user (record node { remain_open = node.remain_open -ℤ pos n }) t).1
      else t

  unfoldable pub write_entries : Dict String ℕ → UserTable → UserTable
  unfolding write_entry
  write_entries [] t = t
  write_entries ((token, n) ∷ rest) t = write_entries rest (write_entry token n t)

  unfoldable pub write_cache : UserManager → UserManager
  unfolding write_entries
  write_cache u = record u { table = write_entries u.cache_map u.table; cache_map = [] }

  -- Before a reboot the cache is written.
  unfoldable pub handle_notification : Message → UserManager → UserManager
  unfolding write_cache
  handle_notification system_will_reboot u = write_cache u
  handle_notification _ u = u

  -- `timerCallback`, each minute.
  unfoldable pub timer_callback : ℤ → UserManager → UserManager
  unfolding write_cache drop_old
  timer_callback now u =
      let u' = write_cache u in record u' { challenge_map = drop_old now u'.challenge_map }

  module _ ⦃g : Digest⦄ where
    unfoldable pub verify_user_password : String → String → String → String → UserTable → Bool
    unfolding by_name
    verify_user_password username password prefix challenge t =
        let stored = (by_name username t).1.password in
        let prefix_md5 = g.md5 (append_text prefix stored) in
        g.md5 (append_text prefix_md5 challenge) == password
