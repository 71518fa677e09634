-- ===== src/Device/Users/Admins.antt =====
-- Nobody becomes an admin through CUserManager, and no admin is removed.
use shuchuang.Shared.{
  Option, none, some, String, ◌≡◌, refl, Bool, true, false, arith, ◌==◌, ◌||◌, not, string_key,
}
use shuchuang.Shared.Int.{ℤ, ltb_ℤ, int_key}
use shuchuang.Shared.Outcome.{Action}
use shuchuang.Shared.Outcome.Keeps.{Keeps, Keeps-bind, Keeps-bind-get, Keeps-bind-fail_if}
use shuchuang.Shared.Poco.{Json, Digest, Sqlite, AllTrue}
use shuchuang.Device.UserTable.{
  UserRecordNode, UserTable, get_user_by_token, get_user_by_name, add_user, delete_user,
  update_user,
}
use shuchuang.Device.UserTable.Rows.{
  update_user-AllTrue, delete_user-AllTrue, add_user-AllTrue, get_single_user-passes,
}
use shuchuang.Device.World.{World, ChallengeNode, on_table}
use shuchuang.Device.World.Keeps.{OnTable, Keeps-on_table, table_rules}
use shuchuang.Device.Users.{authority_admin, authority_long, authority_temp, by_token, by_name}
use shuchuang.Device.Users.Login.{
  login, login_step1, login_step2, login_step, passwd_step, bind_phone, apns_update, get_or_empty,
  passwd, passwd_step1, passwd_step2, logout,
}
use shuchuang.Device.Users.Accounts.{add_account, delete_account, top_up, topped_up, list_user}

-- A row is an admin only under a name of the set `s`.
abbrev pub allowed : (String → Bool) → UserRecordNode → Bool
allowed s r = not (r.authority == authority_admin) || s r.username

-- Every admin of the table has a name of the set.
abbrev pub AdminsWithin : (String → Bool) → UserTable → Type 0
AdminsWithin s t = AllTrue (allowed s) t.rows

module _ (s : String → Bool) where
  -- The authority that `addUser` lets through is not that of an admin.
  added-allowed :
      (b : Bool) (a : ℤ) (name : String)
      → (b || (ltb_ℤ a authority_temp || ltb_ℤ authority_long a)) ≡ false
      → (not (a == authority_admin) || s name) ≡ true
  added-allowed b a name h = ground arith

  topped_up-allowed :
      (l n : UserRecordNode) (v r now : ℤ)
      → allowed s n ≡ true
      → allowed s (topped_up l n v r now) ≡ true
  unfolding topped_up
  topped_up-allowed l n v r now h = h

  module _ {O : Type 0} ⦃q : Sqlite UserRecordNode⦄ where
    by_token-allowed :
        (token : String) (w : World O)
        → OnTable (AdminsWithin s) w
        → allowed s (by_token token w.users.table).1 ≡ true
    unfolding by_token get_user_by_token
    by_token-allowed token w h = get_single_user-passes (allowed s) _ _ w.users.table refl h.holds

    by_name-allowed :
        (name : String) (w : World O)
        → OnTable (AdminsWithin s) w
        → allowed s (by_name name w.users.table).1 ≡ true
    unfolding by_name get_user_by_name
    by_name-allowed name w h = get_single_user-passes (allowed s) _ _ w.users.table refl h.holds

    update-Safe :
        (n : UserRecordNode)
        → allowed s n ≡ true
        → Keeps (OnTable {O = O} (AdminsWithin s)) (on_table (update_user n))
    update-Safe n h = Keeps-on_table _ (λ t. update_user-AllTrue (allowed s) n t h)

    delete-Safe :
        (n : UserRecordNode) → Keeps (OnTable {O = O} (AdminsWithin s)) (on_table (delete_user n))
    delete-Safe n = Keeps-on_table _ (delete_user-AllTrue (allowed s) n)

    add-Safe :
        (n : UserRecordNode)
        → allowed s n ≡ true
        → Keeps (OnTable {O = O} (AdminsWithin s)) (on_table (add_user n))
    add-Safe n h = Keeps-on_table _ (λ t. add_user-AllTrue (allowed s) n t h)

    top_up-write :
        (l n : UserRecordNode) (v r now : ℤ)
        → allowed s n ≡ true
        → Keeps (OnTable {O = O} (AdminsWithin s)) (on_table (update_user (topped_up l n v r now)))
    top_up-write l n v r now h = update-Safe _ (topped_up-allowed l n v r now h)

    add-write :
        (n : UserRecordNode) (password binduser : String) (b : Bool) (a r v : ℤ)
        → (b || (ltb_ℤ a authority_temp || ltb_ℤ authority_long a)) ≡ false
        → Keeps (OnTable {O = O} (AdminsWithin s)) (
            on_table (
              add_user (record n {
                password = password;
                binduser = binduser;
                authority = a;
                remain_open = r;
                time_of_validity = v;
              })))
    add-write n password binduser b a r v h = add-Safe _ (added-allowed b a n.username h)

  ruleset safe_rules =
      (table_rules, by_token-allowed, by_name-allowed, update-Safe, delete-Safe, add-Safe)

  module _ {O : Type 0} ⦃j : Json O⦄ where
    abbrev pub Safe : {A : Type 0} → Action (World O) A → Type 0
    Safe m = Keeps (OnTable (AdminsWithin s)) m

    get_or_empty-Safe : (key : String) → Safe (get_or_empty key)
    unfolding get_or_empty
    get_or_empty-Safe key = search table_rules depth 40

    apns_update-Safe :
        (apns : O) (mobile installation : String) → Safe (apns_update apns mobile installation)
    unfolding apns_update
    apns_update-Safe apns mobile installation = search table_rules depth 40

    bind_phone-Safe : (name : String) → Safe (bind_phone name)
    unfolding bind_phone
    bind_phone-Safe name = search (table_rules, get_or_empty-Safe, apns_update-Safe) depth 40

    module _ ⦃q : Sqlite UserRecordNode⦄ where
      pub logout-Safe : Safe logout
      unfolding logout
      logout-Safe = search safe_rules depth 40

      pub add_account-Safe : Safe add_account
      unfolding add_account
      add_account-Safe = Keeps-bind-get _ λ w h. Keeps-bind-fail_if _ _ _ λ _.
          Keeps-bind _ _ (search table_rules) λ token.
            Keeps-bind _ _ (search table_rules) λ password. Keeps-bind _ _ (search table_rules) λ _.
              Keeps-bind _ _ (search table_rules) λ _. Keeps-bind-fail_if _ _ _ λ _.
                Keeps-bind _ _ (search table_rules) λ username.
                  Keeps-bind _ _ (search table_rules) λ binduser. Keeps-bind-fail_if _ _ _ λ _.
                    Keeps-bind _ _ (search table_rules)
                      λ authority. search (table_rules, add-write) depth 40

      pub delete_account-Safe : Safe delete_account
      unfolding delete_account
      delete_account-Safe = search safe_rules depth 40

      pub top_up-Safe : Safe top_up
      unfolding top_up
      top_up-Safe = Keeps-bind-get _ λ w h. Keeps-bind-fail_if _ _ _ λ _.
          Keeps-bind _ _ (search table_rules) λ token. Keeps-bind _ _ (search table_rules) λ _.
            Keeps-bind-fail_if _ _ _ λ _.
              Keeps-bind-fail_if _ _ _
                λ _. search (table_rules, by_name-allowed, top_up-write) depth 40

      pub list_user-Safe : Safe list_user
      unfolding list_user
      list_user-Safe = search safe_rules depth 40

      module _ ⦃g : Digest⦄ where
        login_step1-Safe :
            (name : String) (node : UserRecordNode)
            → allowed s node ≡ true
            → Safe (login_step1 name node)
        unfolding login_step1
        login_step1-Safe name node h = search safe_rules depth 40

        login_step2-Safe : (name challenge : String) → Safe (login_step2 name challenge)
        unfolding login_step2
        login_step2-Safe name challenge = search (safe_rules, bind_phone-Safe) depth 40

        login_step-Safe :
            (o : Option ChallengeNode) (name : String) (node : UserRecordNode)
            → allowed s node ≡ true
            → Safe (login_step o name node)
        unfolding login_step
        login_step-Safe none name node h = login_step1-Safe name node h
        login_step-Safe (some c) name node h = login_step2-Safe name c.challenge

        pub login-Safe : Safe login
        unfolding login
        login-Safe = search (table_rules, by_name-allowed, login_step-Safe) depth 40

        passwd_step1-Safe : (name : String) → Safe (passwd_step1 name)
        unfolding passwd_step1
        passwd_step1-Safe name = search safe_rules depth 40

        passwd_step2-Safe :
            (node : UserRecordNode) (challenge : String)
            → allowed s node ≡ true
            → Safe (passwd_step2 node challenge)
        unfolding passwd_step2
        passwd_step2-Safe node challenge h = search safe_rules depth 40

        passwd_step-Safe :
            (o : Option ChallengeNode) (node : UserRecordNode)
            → allowed s node ≡ true
            → Safe (passwd_step o node)
        unfolding passwd_step
        passwd_step-Safe none node h = passwd_step1-Safe node.username
        passwd_step-Safe (some c) node h = passwd_step2-Safe node c.challenge h

        pub passwd-Safe : Safe passwd
        unfolding passwd
        passwd-Safe = search (table_rules, by_token-allowed, passwd_step-Safe) depth 40
