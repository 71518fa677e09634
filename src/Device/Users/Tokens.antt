-- ===== src/Device/Users/Tokens.antt =====
-- What a token is good for: `login`, `logout` and `verifyUser` of CUserManager together.
use shuchuang.Shared.{
  String, ◌≡◌, ◌≢◌, refl, Bool, true, false, none, some, List, [], ◌∷◌, ◌∙◌, map, ◌+◌, arith, ◌==◌,
  ◌||◌, not, string_key, eq_iff, eq_refl, inl, inr,
}
use shuchuang.Shared.Int.{ℤ, pos, int_key}
use shuchuang.Shared.Dict.{find, erase, find-erase}
use shuchuang.Shared.Outcome.{ok, failed}
use shuchuang.Shared.Poco.{Json, Digest, Sqlite, AllTrue}
use shuchuang.Device.UserTable.{
  UserRecordNode, UserTable, has_name, has_token, get_user_by_token, update_user, overwrite, blank,
}
use shuchuang.Device.UserTable.Rows.{
  IsOpen, some_true, overwrite-token-AllTrue, update_user-written, keep-passes, some-or-none,
  overwrite-token-some, overwrite-token-none, get_single_user-some, get_single_user-none,
}
use shuchuang.Device.World.{World, steps}
use shuchuang.Device.Users.{
  check_user_validity, by_token, by_name, verify_user, verify_user_password,
}
use shuchuang.Device.Users.Login.{
  login_step1, login_step2, bound_elsewhere, logout, login, login_step,
}

module _ ⦃q : Sqlite UserRecordNode⦄ where
  -- In a table that answers, a token is refused unless a row has it and is in its validity.
  pub verify_user_sound :
      (token : String) (now : ℤ) (t : UserTable)
      → IsOpen t
      → AllTrue (λ r. not (has_token token r) || not (check_user_validity r now)) t.rows
      → verify_user token now t ≡ false
  unfolding verify_user by_token get_user_by_token
  verify_user_sound token now t o h =
      let n = record blank { token = token } in
      elim (some-or-none (has_token token) t.rows) [
        | inl e ↦
            let valid : UserRecordNode → Bool = λ r. not (check_user_validity r now) in
            let (c, v) =
              get_single_user-some (has_token token) valid t n o e
                (keep-passes (has_token token) valid t.rows h) in
            ground arith
        | inr e ↦ ground (arith, get_single_user-none (has_token token) t n o e)
      ]

  fresh-valid :
      (token : String) (now : ℤ) (rs : List UserRecordNode)
      → AllTrue (λ r. not (has_token token r)) rs
      → AllTrue (λ r. not (has_token token r) || check_user_validity r now) rs
  fresh-valid token now [] h = tt
  fresh-valid token now (r ∷ rs) h = (ground (arith, h.0), fresh-valid token now rs h.1)

  verify_user-update_user :
      (token : String) (now : ℤ) (n : UserRecordNode) (t : UserTable)
      → IsOpen t
      → n.username ≢ ""
      → n.password ≢ ""
      → n.token ≡ token
      → check_user_validity n now ≡ true
      → some_true (has_name n.username) t.rows ≡ true
      → AllTrue (λ r. not (has_token token r) || check_user_validity r now) t.rows
      → verify_user token now (update_user n t).1 ≡ true
  unfolding verify_user by_token get_user_by_token
  verify_user-update_user token now n t o u p k v h f =
      let valid : UserRecordNode → Bool = λ r. check_user_validity r now in
      let t' = record t { rows = map (overwrite n) t.rows } in
      let (c, x) =
        get_single_user-some (has_token token) valid t' (record blank { token = token }) o
          (overwrite-token-some token n t.rows k h)
          (overwrite-token-AllTrue token valid n t.rows v f) in
      rw (update_user-written n t o u p) (ground arith)

  verify_user-taken :
      (token : String) (now : ℤ) (n : UserRecordNode) (t : UserTable)
      → IsOpen t
      → n.username ≢ ""
      → n.password ≢ ""
      → has_token token n ≡ false
      → AllTrue (λ r. not (has_token token r) || has_name n.username r) t.rows
      → verify_user token now (update_user n t).1 ≡ false
  unfolding verify_user by_token get_user_by_token
  verify_user-taken token now n t o u p k only =
      let t' = record t { rows = map (overwrite n) t.rows } in
      let c =
        get_single_user-none (has_token token) t' (record blank { token = token }) o
          (overwrite-token-none token n t.rows k only) in
      rw (update_user-written n t o u p) (ground arith)

  verify_user-valid :
      (token : String) (now : ℤ) (t : UserTable)
      → verify_user token now t ≡ true
      → check_user_validity (by_token token t).1 now ≡ true
  unfolding verify_user
  verify_user-valid token now t v = ground arith

  empty_is_not : (token : String) → token ≢ "" → ("" == token) ≡ false
  empty_is_not token t = ground (arith, eq_iff "" token)

  module _ {O : Type 0} ⦃j : Json O⦄ ⦃g : Digest⦄ where
    -- The token that step 1 of `login` hands out opens the device at once, before any password is
    -- asked for. The user is in his validity and bound by nobody else, the table answers and holds
    -- him with a name and a password, and no row has the token that is drawn.
    pub login_step1-verify_user :
        (name bind : String) (node : UserRecordNode) (o : O) (w : World O)
        → w.param ≡ some o
        → j.get_string o "binduser" ≡ some bind
        → check_user_validity node w.now ≡ true
        → bound_elsewhere (record node { username = name }) bind ≡ false
        → IsOpen w.users.table
        → node.username ≢ ""
        → node.password ≢ ""
        → some_true (has_name node.username) w.users.table.rows ≡ true
        → let token = g.md5 (g.uuid (w.drawn + 1)) in
          AllTrue (λ r. not (has_token token r)) w.users.table.rows
          → let (r, w') = login_step1 name node w in
            (r ≡ ok tt)
            × ((x : O) × (w'.param ≡ some x) × (j.get_string x "token" ≡ some token))
            × (verify_user token w.now w'.users.table ≡ true)
    unfolding login_step1 steps check_user_validity
    login_step1-verify_user name bind node o w e b v f opened u p h fresh =
        let challenge = g.md5 (g.uuid w.drawn) in
        let token = g.md5 (g.uuid (w.drawn + 1)) in
        let n = record node { token = token; binduser = bind } in
        let c = j.set_string o "challenge" challenge in
        (
          ground arith,
          (
            j.set_string c "token" token,
            ground arith,
            ground (arith, j.get_string-set_string c "token" "token" token),
          ),
          ground (
            arith,
            verify_user-update_user token w.now n w.users.table opened u p refl v h
                (fresh-valid token w.now w.users.table.rows fresh),
          ),
        )

    logout-table :
        (token : String) (o : O) (w : World O)
        → w.param ≡ some o
        → j.has o "token" ≡ true
        → j.get_string o "token" ≡ some token
        → verify_user token w.now w.users.table ≡ true
        → (logout w).1.users.table
          ≡ (update_user
              (record (by_token token w.users.table).1 { token = ""; binduser = "" })
              w.users.table).1
    unfolding logout steps
    logout-table token o w e a b v = ground arith

    -- A token is refused once its user has logged out with it: the table answers, the user has a
    -- name and a password, and nobody else carries the token, which is not empty.
    pub logout-verify_user :
        (token : String) (o : O) (w : World O)
        → w.param ≡ some o
        → j.has o "token" ≡ true
        → j.get_string o "token" ≡ some token
        → verify_user token w.now w.users.table ≡ true
        → IsOpen w.users.table
        → token ≢ ""
        → let node = (by_token token w.users.table).1 in
          node.username ≢ ""
          → node.password ≢ ""
          → AllTrue (λ r. not (has_token token r) || has_name node.username r) w.users.table.rows
          → verify_user token w.now (logout w).1.users.table ≡ false
    logout-verify_user token o w e a b v opened t u p only =
        let node = (by_token token w.users.table).1 in
        rw (logout-table token o w e a b v) (
          verify_user-taken token w.now (record node { token = ""; binduser = "" }) w.users.table
            opened u p (empty_is_not token t) only)

    -- Logging out opens the device to everybody: the empty token is accepted after it, if every user
    -- without a token is in his validity, as the one who logs out is.
    pub logout_empty_token :
        (token : String) (o : O) (w : World O)
        → w.param ≡ some o
        → j.has o "token" ≡ true
        → j.get_string o "token" ≡ some token
        → verify_user token w.now w.users.table ≡ true
        → IsOpen w.users.table
        → let node = (by_token token w.users.table).1 in
          node.username ≢ ""
          → node.password ≢ ""
          → some_true (has_name node.username) w.users.table.rows ≡ true
          → AllTrue (λ r. not (has_token "" r) || check_user_validity r w.now) w.users.table.rows
          → verify_user "" w.now (logout w).1.users.table ≡ true
    unfolding check_user_validity
    logout_empty_token token o w e a b v opened u p h valid =
        let node = (by_token token w.users.table).1 in
        rw (logout-table token o w e a b v) (
          verify_user-update_user "" w.now (record node { token = ""; binduser = "" }) w.users.table
            opened u p refl (verify_user-valid token w.now w.users.table v) h valid)

    login_step2_wrong :
        (name challenge token password : String) (o : O) (w : World O)
        → w.param ≡ some o
        → j.has o "token" ≡ true
        → j.has o "password" ≡ true
        → j.get_string o "token" ≡ some token
        → j.get_string o "password" ≡ some password
        → verify_user_password name password "login" challenge w.users.table ≡ false
        → login_step2 name challenge w ≡ (
          failed "416",
          record w {
            param = some (j.remove o "password");
            users = record w.users {
              challenge_map = erase name w.users.challenge_map;
              table =
                  (update_user
                    (record (by_token token w.users.table).1 { token = "" })
                    w.users.table).1;
            };
          },
        )
    unfolding login_step2 steps
    login_step2_wrong name challenge token password o w e a b c d wrong =
        rw (e, a, b, c, d, wrong) refl

    login_pending :
        (name bind challenge : String) (at : ℤ) (o : O) (w : World O)
        → w.param ≡ some o
        → j.has o "username" ≡ true
        → j.has o "binduser" ≡ true
        → j.get_string o "username" ≡ some name
        → ((by_name name w.users.table).0 == pos 0) ≡ false
        → find name w.users.challenge_map
          ≡ some (record { challenge = challenge; generate_time = at })
        → login w ≡ login_step2 name challenge w
    unfolding login login_step steps
    login_pending name bind challenge at o w e a b c known waits =
        rw (e, a, b, c, known, waits) refl

    -- A wrong answer to a challenge that waits for a user of the table ends `login` with "416", uses the
    -- challenge up and takes the token that it brings away: right after this call the token is refused,
    -- whatever the time is. The user of the token has a name and a password, nobody else carries it, it is
    -- not empty, and the table answers.
    pub login_wrong_password :
        (name bind challenge token password : String) (at : ℤ) (o : O) (w : World O)
        → w.param ≡ some o
        → j.has o "username" ≡ true
        → j.has o "binduser" ≡ true
        → j.has o "token" ≡ true
        → j.has o "password" ≡ true
        → j.get_string o "username" ≡ some name
        → j.get_string o "token" ≡ some token
        → j.get_string o "password" ≡ some password
        → ((by_name name w.users.table).0 == pos 0) ≡ false
        → find name w.users.challenge_map
          ≡ some (record { challenge = challenge; generate_time = at })
        → verify_user_password name password "login" challenge w.users.table ≡ false
        → IsOpen w.users.table
        → token ≢ ""
        → let node = (by_token token w.users.table).1 in
          node.username ≢ ""
          → node.password ≢ ""
          → AllTrue (λ r. not (has_token token r) || has_name node.username r) w.users.table.rows
          → (now : ℤ)
          → let (r, w') = login w in
            (r ≡ failed "416")
            × (find name w'.users.challenge_map ≡ none)
            × (verify_user token now w'.users.table ≡ false)
    login_wrong_password name bind challenge token password at o w e hu hb ht hp nu nt np known
          waits wrong opened t u p only now =
        let step =
          login_pending name bind challenge at o w e hu hb nu known waits
          ∙ login_step2_wrong name challenge token password o w e ht hp nt np wrong in
        rw step (
          refl,
          ground (arith, find-erase name name w.users.challenge_map, eq_refl name),
          verify_user-taken token now (record (by_token token w.users.table).1 { token = "" })
              w.users.table opened u p (empty_is_not token t) only,
        )
