-- ===== src/Device/Users/Kept.antt =====
-- What the statements on the table of the users keep is kept by any sequence of requests to
-- CUserManager, Src/Device/Component/User/UserManager.cpp.
use shuchuang.Shared.{
  ℕ, String, ◌≡◌, refl, subst, Bool, Bool-cases, true, false, not, ◌==◌, inl, inr, arith, Option,
  none, some, List, [], ◌∷◌, string_key, if-rule, option-rule,
}
use shuchuang.Shared.Int.{ℤ, pos, int_key, ltb_ℤ, ◌-ℤ◌}
use shuchuang.Shared.Dict.{Dict, find}
use shuchuang.Shared.Outcome.{Action}
use shuchuang.Shared.Outcome.Keeps.{Keeps, Keeps-fail_if}
use shuchuang.Shared.Outcome.Leads.{
  Leads, Leads-bind, Leads-bind-get, Leads-bind-fail_if, Leads-then,
}
use shuchuang.Shared.Poco.{Json, Digest, Sqlite, AllTrue}
use shuchuang.Device.UserTable.{
  UserRecordNode, UserTable, blank, has_name, get_user_by_name, get_single_user, selected,
  update_user, delete_user, add_user,
}
use shuchuang.Device.UserTable.Rows.{some-or-none, keep_sound, get_single_user-some, keep-nil}
use shuchuang.Device.World.{World, ChallengeNode, UserManager, on_table}
use shuchuang.Device.World.Keeps.{
  OnTable, Keeps-on_table, Keeps-on_users, Keeps-get_string, Keeps-get_int, Keeps-remove,
  table_rules,
}
use shuchuang.Device.Users.{
  by_token, by_name, write_entry, write_entries, user_open_door, timer_callback,
}
use shuchuang.Device.Users.Login.{
  login, login_step1, login_step2, login_step, passwd_step, bind_phone, apns_update, get_or_empty,
  passwd, passwd_step1, passwd_step2, logout,
}
use shuchuang.Device.Users.Accounts.{add_account, delete_account, top_up, list_user}
use shuchuang.Device.Users.History.{
  Request, logs_in, changes_password, logs_out, adds, deletes, tops_up, lists, Event, requests,
  timer, opens, handler, react, history,
}

-- In a table that answers, no row has the name.
abbrev pub IsNew : String → UserTable → Type 0
IsNew name t = t.broken ≡ false → AllTrue (λ r. not (has_name name r)) t.rows

-- Every statement that changes the table keeps the property, where an INSERT brings a name that is new.
pub record KeptByStatements ⦃q : Sqlite UserRecordNode⦄ (Q : UserTable → Type 0) : Type 0 where
  pub updates : (n : UserRecordNode) (t : UserTable) → Q t → Q (update_user n t).1
  pub deletes : (n : UserRecordNode) (t : UserTable) → Q t → Q (delete_user n t).1
  pub inserts : (n : UserRecordNode) (t : UserTable) → IsNew n.username t → Q t → Q (add_user n t).1

-- A SELECT without a match leaves the node as it is.
get_single_user-unmatched :
    ⦃q : Sqlite UserRecordNode⦄ (m : UserRecordNode → Bool) (n : UserRecordNode) (t : UserTable)
    → AllTrue (λ r. not (m r)) t.rows
    → (get_single_user m n t).1 ≡ n
unfolding get_single_user selected
get_single_user-unmatched m n t h = ground (arith, keep-nil m t.rows h)

-- A name that no row is found for is new.
by_name-IsNew :
    ⦃q : Sqlite UserRecordNode⦄ (name : String) (t : UserTable)
    → t.session ≡ true
    → not ((by_name name t).0 == pos 0) ≡ false
    → IsNew (by_name name t).1.username t
unfolding by_name get_user_by_name
by_name-IsNew name t s found answers =
    let n = record blank { username = name } in
    elim (some-or-none (has_name name) t.rows) [
      | inl h ↦
          (let (c, x) =
              get_single_user-some (has_name name) (has_name name) t n (s, answers) h
                (keep_sound (has_name name) t.rows) in
            ground arith)
      | inr h ↦ rw (get_single_user-unmatched (has_name name) n t h) h
    ]

-- Without a session something is found.
by_name-session :
    ⦃q : Sqlite UserRecordNode⦄ (name : String) (t : UserTable)
    → not ((by_name name t).0 == pos 0) ≡ false
    → t.session ≡ true
unfolding by_name get_user_by_name get_single_user
by_name-session name t found = elim (Bool-cases t.session) [ inl s ↦ s | inr s ↦ ground arith ]

user_open_door-Kept :
    (Q : UserTable → Type 0) (token : String) (u : UserManager)
    → Q u.table
    → Q (user_open_door token u).table
unfolding user_open_door
user_open_door-Kept Q token u d =
    option-rule (λ (v : UserManager). Q v.table) (find token u.cache_map) (λ _. d) (λ n _. d)

module _ ⦃q : Sqlite UserRecordNode⦄ (Q : UserTable → Type 0) (k : KeptByStatements Q) where
  write_entry-Kept : (token : String) (n : ℕ) (t : UserTable) → Q t → Q (write_entry token n t)
  unfolding write_entry
  write_entry-Kept token n t d =
      let node = (by_token token t).1 in
      if-rule Q (ltb_ℤ (pos 0) node.remain_open)
        (λ _. k.updates (record node { remain_open = node.remain_open -ℤ pos n }) t d) (λ _. d)

  write_entries-Kept : (m : Dict String ℕ) (t : UserTable) → Q t → Q (write_entries m t)
  unfolding write_entries
  write_entries-Kept [] t d = d
  write_entries-Kept ((token, n) ∷ m) t d =
      write_entries-Kept m (write_entry token n t) (write_entry-Kept token n t d)

  timer_callback-Kept : (now : ℤ) (u : UserManager) → Q u.table → Q (timer_callback now u).table
  unfolding timer_callback
  timer_callback-Kept now u d = write_entries-Kept u.cache_map u.table d

module _ {O : Type 0} ⦃j : Json O⦄ ⦃q : Sqlite UserRecordNode⦄ ⦃g : Digest⦄ (Q : UserTable → Type 0)
    (k : KeptByStatements Q) where
  update-Kept : (n : UserRecordNode) → Keeps (OnTable {O = O} Q) (on_table (update_user n))
  update-Kept n = Keeps-on_table _ (k.updates n)

  delete-Kept : (n : UserRecordNode) → Keeps (OnTable {O = O} Q) (on_table (delete_user n))
  delete-Kept n = Keeps-on_table _ (k.deletes n)

  abbrev Kept : {A : Type 0} → Action (World O) A → Type 0
  Kept m = Keeps (OnTable Q) m

  ruleset kept_rules = (table_rules, update-Kept, delete-Kept)

  get_or_empty-Kept : (name : String) → Kept (get_or_empty name)
  unfolding get_or_empty
  get_or_empty-Kept name = search table_rules depth 40

  apns_update-Kept :
      (apns : O) (mobile installation : String) → Kept (apns_update apns mobile installation)
  unfolding apns_update
  apns_update-Kept apns mobile installation = search table_rules depth 40

  bind_phone-Kept : (name : String) → Kept (bind_phone name)
  unfolding bind_phone
  bind_phone-Kept name = search (table_rules, get_or_empty-Kept, apns_update-Kept) depth 40

  logout-Kept : Kept logout
  unfolding logout
  logout-Kept = search kept_rules depth 40

  -- The table before `addUser`.
  abbrev Before : UserTable → World O → Type 0
  Before t = OnTable (λ x. x ≡ t)

  insert-Leads :
      (n : UserRecordNode) (t : UserTable)
      → IsNew n.username t
      → Q t
      → Leads (Before t) (OnTable Q) (on_table (add_user n))
  unfolding on_table
  insert-Leads n t new d = record {
    at = λ w b. record { holds = rw b.holds (k.inserts n t new d) };
  }

  -- `addUser` has looked for the name when it adds the user.
  add_account-Leads : (t : UserTable) → Q t → Leads (Before t) (OnTable Q) add_account
  unfolding add_account
  add_account-Leads t d =
      let weak : (w : World O) → Before t w → OnTable Q w =
        λ w b. record { holds = rw b.holds d } in
      Leads-bind-get _ λ w b. Leads-bind-fail_if weak _ _ _ λ _.
        Leads-bind weak _ _ (Keeps-get_string _) λ token.
          Leads-bind weak _ _ (Keeps-get_string _) λ password.
            Leads-bind weak _ _ (Keeps-remove _) λ _. Leads-bind weak _ _ (Keeps-remove _) λ _.
              Leads-bind-fail_if weak _ _ _ λ _.
                Leads-bind weak _ _ (Keeps-get_string _) λ username.
                  Leads-bind weak _ _ (Keeps-get_string _) λ binduser.
                    Leads-bind-fail_if weak _ _ _ λ found.
                      Leads-bind weak _ _ (Keeps-get_int _) λ authority.
                        Leads-bind-fail_if weak _ _ _ λ _.
                          Leads-bind weak _ _ (Keeps-get_int _) λ remain_open.
                            Leads-bind weak _ _ (Keeps-get_int _) λ time_of_validity.
                              Leads-then _ _
                                (insert-Leads _ t
                                  (subst (IsNew (by_name username w.users.table).1.username) b.holds
                                    (by_name-IsNew username w.users.table
                                      (by_name-session username w.users.table found) found))
                                  d)
                                λ _. Keeps-fail_if _ _

  add_account-Kept : Kept add_account
  add_account-Kept = record {
    at = λ w h. (add_account-Leads w.users.table h.holds).at w (record { holds = refl });
  }

  delete_account-Kept : Kept delete_account
  unfolding delete_account
  delete_account-Kept = search kept_rules depth 40

  top_up-Kept : Kept top_up
  unfolding top_up
  top_up-Kept = search (table_rules, update-Kept) depth 60 fits 20000

  list_user-Kept : Kept list_user
  unfolding list_user
  list_user-Kept = search kept_rules depth 40

  login_step1-Kept : (name : String) (node : UserRecordNode) → Kept (login_step1 name node)
  unfolding login_step1
  login_step1-Kept name node = search kept_rules depth 40

  login_step2-Kept : (name challenge : String) → Kept (login_step2 name challenge)
  unfolding login_step2
  login_step2-Kept name challenge = search (kept_rules, bind_phone-Kept) depth 40

  login_step-Kept :
      (o : Option ChallengeNode) (name : String) (node : UserRecordNode)
      → Kept (login_step o name node)
  unfolding login_step
  login_step-Kept none name node = login_step1-Kept name node
  login_step-Kept (some c) name node = login_step2-Kept name c.challenge

  login-Kept : Kept login
  unfolding login
  login-Kept = search (table_rules, login_step-Kept) depth 40

  passwd_step1-Kept : (name : String) → Kept (passwd_step1 name)
  unfolding passwd_step1
  passwd_step1-Kept name = search kept_rules depth 40

  passwd_step2-Kept :
      (node : UserRecordNode) (challenge : String) → Kept (passwd_step2 node challenge)
  unfolding passwd_step2
  passwd_step2-Kept node challenge = search kept_rules depth 40

  passwd_step-Kept : (o : Option ChallengeNode) (node : UserRecordNode) → Kept (passwd_step o node)
  unfolding passwd_step
  passwd_step-Kept none node = passwd_step1-Kept node.username
  passwd_step-Kept (some c) node = passwd_step2-Kept node c.challenge

  passwd-Kept : Kept passwd
  unfolding passwd
  passwd-Kept = search (table_rules, passwd_step-Kept) depth 40

  handler-Kept : (r : Request) → Kept (handler r)
  unfolding handler
  handler-Kept logs_in = login-Kept
  handler-Kept changes_password = passwd-Kept
  handler-Kept logs_out = logout-Kept
  handler-Kept adds = add_account-Kept
  handler-Kept deletes = delete_account-Kept
  handler-Kept tops_up = top_up-Kept
  handler-Kept lists = list_user-Kept

  react-Kept : (w : World O) (e : Event O) → Q w.users.table → Q (react w e).users.table
  unfolding react
  react-Kept w (requests r param now) d =
      ((handler-Kept r).at (record w { param = param; now = now }) (record { holds = d })).holds
  react-Kept w (timer now) d =
      ((Keeps-on_users (timer_callback now) (timer_callback-Kept Q k now)).at w
        (record { holds = d })).holds
  react-Kept w (opens token) d =
      ((Keeps-on_users (user_open_door token) (user_open_door-Kept Q token)).at w
        (record { holds = d })).holds

  pub history-Kept :
      (w : World O) (es : List (Event O)) → Q w.users.table → Q (history w es).users.table
  unfolding history
  history-Kept w [] d = d
  history-Kept w (e ∷ es) d = history-Kept (react w e) es (react-Kept w e d)
