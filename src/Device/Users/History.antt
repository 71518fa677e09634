-- ===== src/Device/Users/History.antt =====
-- Any sequence of requests to the user manager, of rounds of its timer and of openings of the door.
use shuchuang.Shared.{
  String, refl, Bool, Option, List, [], ◌∷◌, ℕ, string_key, if-rule, option-rule,
}
use shuchuang.Shared.Int.{ℤ, pos, ◌-ℤ◌, ltb_ℤ}
use shuchuang.Shared.Dict.{Dict, find}
use shuchuang.Shared.Outcome.{Action}
use shuchuang.Shared.Outcome.Keeps.{Keeps}
use shuchuang.Shared.Poco.{Json, Digest, Sqlite}
use shuchuang.Device.UserTable.{UserRecordNode, UserTable, get_user_by_token}
use shuchuang.Device.UserTable.Rows.{update_user-AllTrue, get_single_user-passes}
use shuchuang.Device.World.{World, UserManager, on_users}
use shuchuang.Device.World.Keeps.{OnTable, Keeps-on_users}
use shuchuang.Device.Users.{by_token, write_entry, write_entries, user_open_door, timer_callback}
use shuchuang.Device.Users.Login.{login, passwd, logout}
use shuchuang.Device.Users.Accounts.{add_account, delete_account, top_up, list_user}
use shuchuang.Device.Users.Admins.{
  allowed, AdminsWithin, login-Safe, passwd-Safe, logout-Safe, add_account-Safe,
  delete_account-Safe, top_up-Safe, list_user-Safe,
}

pub data Request : Type 0 where
  logs_in changes_password logs_out adds deletes tops_up lists : Request

-- A request comes with its parameter and the time; so does a round of the timer with the time.
pub data Event (O : Type 0) : Type 0 where
  requests : Request → Option O → ℤ → Event O
  timer : ℤ → Event O
  opens : String → Event O

module _ {O : Type 0} ⦃j : Json O⦄ ⦃q : Sqlite UserRecordNode⦄ ⦃g : Digest⦄ where
  unfoldable pub handler : Request → Action (World O) (Unit {0})
  handler logs_in = login
  handler changes_password = passwd
  handler logs_out = logout
  handler adds = add_account
  handler deletes = delete_account
  handler tops_up = top_up
  handler lists = list_user

  unfoldable pub react : World O → Event O → World O
  unfolding handler
  react w (requests r param now) = (handler r (record w { param = param; now = now })).1
  react w (timer now) = (on_users (timer_callback now) w).1
  react w (opens token) = (on_users (user_open_door token) w).1

  unfoldable pub history : World O → List (Event O) → World O
  unfolding react
  history w [] = w
  history w (e ∷ es) = history (react w e) es

module _ ⦃q : Sqlite UserRecordNode⦄ (s : String → Bool) where
  write_entry-AdminsWithin :
      (token : String) (n : ℕ) (t : UserTable)
      → AdminsWithin s t
      → AdminsWithin s (write_entry token n t)
  unfolding write_entry by_token get_user_by_token
  write_entry-AdminsWithin token n t h =
      let node = (by_token token t).1 in
      if-rule (AdminsWithin s) (ltb_ℤ (pos 0) node.remain_open)
        (λ _.
          update_user-AllTrue (allowed s) (record node { remain_open = node.remain_open -ℤ pos n })
            t (get_single_user-passes (allowed s) _ _ t refl h) h)
        (λ _. h)

  write_entries-AdminsWithin :
      (m : Dict String ℕ) (t : UserTable) → AdminsWithin s t → AdminsWithin s (write_entries m t)
  unfolding write_entries
  write_entries-AdminsWithin [] t h = h
  write_entries-AdminsWithin ((token, n) ∷ m) t h =
      write_entries-AdminsWithin m (write_entry token n t) (write_entry-AdminsWithin token n t h)

  timer_callback-AdminsWithin :
      (now : ℤ) (u : UserManager)
      → AdminsWithin s u.table
      → AdminsWithin s (timer_callback now u).table
  unfolding timer_callback
  timer_callback-AdminsWithin now u h = write_entries-AdminsWithin u.cache_map u.table h

user_open_door-AdminsWithin :
    (s : String → Bool) (token : String) (u : UserManager)
    → AdminsWithin s u.table
    → AdminsWithin s (user_open_door token u).table
unfolding user_open_door
user_open_door-AdminsWithin s token u h =
    option-rule (λ (v : UserManager). AdminsWithin s v.table) (find token u.cache_map) (λ _. h)
      (λ n _. h)

module _ {O : Type 0} ⦃j : Json O⦄ ⦃q : Sqlite UserRecordNode⦄ ⦃g : Digest⦄
    (s : String → Bool) where
  handler-Keeps : (r : Request) → Keeps (OnTable {O = O} (AdminsWithin s)) (handler r)
  unfolding handler
  handler-Keeps logs_in = login-Safe s
  handler-Keeps changes_password = passwd-Safe s
  handler-Keeps logs_out = logout-Safe s
  handler-Keeps adds = add_account-Safe s
  handler-Keeps deletes = delete_account-Safe s
  handler-Keeps tops_up = top_up-Safe s
  handler-Keeps lists = list_user-Safe s

  react-AdminsWithin :
      (w : World O) (e : Event O)
      → AdminsWithin s w.users.table
      → AdminsWithin s (react w e).users.table
  unfolding react
  react-AdminsWithin w (requests r param now) h =
      ((handler-Keeps r).at (record w { param = param; now = now }) (record { holds = h })).holds
  react-AdminsWithin w (timer now) h =
      ((Keeps-on_users (timer_callback now) (timer_callback-AdminsWithin s now)).at w
        (record { holds = h })).holds
  react-AdminsWithin w (opens token) h =
      ((Keeps-on_users (user_open_door token) (user_open_door-AdminsWithin s token)).at w
        (record { holds = h })).holds

  -- Nobody becomes an admin: if every row with the authority of an admin has a name of the set `s`,
  -- then so it is after any sequence of requests, good or bad, rounds of the timer and openings.
  pub history-AdminsWithin :
      (w : World O) (es : List (Event O))
      → AdminsWithin s w.users.table
      → AdminsWithin s (history w es).users.table
  unfolding history
  history-AdminsWithin w [] h = h
  history-AdminsWithin w (e ∷ es) h = history-AdminsWithin (react w e) es (react-AdminsWithin w e h)
