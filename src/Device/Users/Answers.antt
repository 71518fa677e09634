-- ===== src/Device/Users/Answers.antt =====
-- What `addUser` of CUserManager answers.
use shuchuang.Shared.{String, ◌≡◌, refl, true, false, some, ◌||◌, arith, string_key}
use shuchuang.Shared.Int.{ℤ, pos, negsuc, ltb_ℤ, int_key}
use shuchuang.Shared.Outcome.{ok}
use shuchuang.Shared.Poco.{Json, Sqlite}
use shuchuang.Device.UserTable.{UserRecordNode, UserTable, add_user}
use shuchuang.Device.World.{World, steps}
use shuchuang.Device.Users.{
  authority_admin, authority_long, authority_temp, by_token, by_name, verify_user,
}
use shuchuang.Device.Users.Accounts.{add_account, lacks_account}

-- A node with an empty password is refused, whatever the table is.
add_user-refused :
    ⦃q : Sqlite UserRecordNode⦄ (n : UserRecordNode) (t : UserTable)
    → n.password ≡ ""
    → add_user n t ≡ (negsuc 0, t)
unfolding add_user
add_user-refused n t e = rw e (ground arith)

module _ {O : Type 0} ⦃j : Json O⦄ ⦃q : Sqlite UserRecordNode⦄ where
  -- An admin who adds a user with an empty password is told that it succeeded, and the table is as it
  -- was: the request is complete, the name is free, the authority is that of a user.
  pub add_account_empty_password :
      (token name bind : String) (a r v : ℤ) (o : O) (w : World O)
      → lacks_account w ≡ false
      → w.param ≡ some o
      → j.get_string o "token" ≡ some token
      → j.get_string o "password" ≡ some ""
      → let rest = j.remove (j.remove o "token") "password" in
        j.get_string rest "username" ≡ some name
        → j.get_string rest "binduser" ≡ some bind
        → j.get_int rest "authority" ≡ some a
        → j.get_int rest "remainopen" ≡ some r
        → j.get_int rest "timeofvalidity" ≡ some v
        → verify_user token w.now w.users.table ≡ true
        → (by_name name w.users.table).0 ≡ pos 0
        → (by_token token w.users.table).1.authority ≡ authority_admin
        → (ltb_ℤ a authority_temp || ltb_ℤ authority_long a) ≡ false
        → let (answer, w') = add_account w in (answer ≡ ok tt) × (w'.users.table ≡ w.users.table)
  unfolding add_account steps
  add_account_empty_password token name bind a r v o w c e t p n b ea er ev verified free admin
        range =
      rw (c, e, t, p, verified, n, b, free, ea, admin, range, er, ev)
        (rw
          (add_user-refused
            (record (by_name name w.users.table).1 {
              password = "";
              binduser = bind;
              authority = a;
              remain_open = r;
              time_of_validity = v;
            })
            w.users.table refl)
          (refl, refl))
