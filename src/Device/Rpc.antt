-- ===== src/Device/Rpc.antt =====
-- CRPCClient, Src/Device/RPC/RPCClient.cpp: a request of the server is parsed, given to the component
-- and the method that it names, and answered.
pub mod Actions
pub mod Guards
pub mod Labels
pub mod Server
use Prim.Native.Char.{code}
use Prim.Native.String.{String}
use shuchuang.Shared.{
  ℕ, Bool, true, false, Option, none, some, not, ◌||◌, ◌==◌, string_key, nat_key, if◌then◌else◌,
}
use shuchuang.Shared.Int.{ℤ, pos, int_key}
use shuchuang.Shared.Outcome.{
  Outcome, Action, ok, failed, thrown, pure, fail, throw, get, or_throw, fail_if, ◌>>=◌, ◌>>◌,
}
use shuchuang.Shared.Poco.{Json, Digest, Sqlite}
use shuchuang.Device.UserTable.{UserRecordNode}
use shuchuang.Device.World.{World, lacks, get_string, remove, write_param}
use shuchuang.Device.Users.{authority_admin, verify_user, user_authority}
use shuchuang.Device.Users.Login.{login, passwd, logout}
use shuchuang.Device.Users.Accounts.{add_account, delete_account, top_up, list_user}
use shuchuang.Device.Tasks.{add_task, remove_task, modify_task, get_tasks}
use shuchuang.Device.Door.{open_door, close_door, check_door, change_mode, get_mode}
use shuchuang.Device.Records.{list_records}

abbrev pub before_dot : ℕ
before_dot = 46

-- The text before the first dot and the text after it.
unfoldable pub parse_action : String → Option (String × String)
parse_action String.[] = none
parse_action (String.◌∷◌ c s) =
    let rest = parse_action s in
    if code c == before_dot
    then some ("", s)
    else elim rest [ none ↦ none | some r ↦ some (String.◌∷◌ c r.0, r.1) ]

-- What the parser makes of a text: it throws, it gives an object, or another value.
pub data Parsed (O : Type 0) : Type 0 where
  unreadable other : Parsed O
  object : O → Parsed O

-- The response: none, or one with the action and the number of the request and with the parameter
-- or the detail.
pub data Response (O : Type 0) : Type 0 where
  silent : Response O
  good : String → ℤ → Option O → Response O
  bad : String → ℤ → String → Response O

-- The handlers of CSystemManager.
pub record SystemHandlers (O : Type 0) : Type 0 where
  pub reset_config : Action (World O) (Unit {0})
  pub start_update : Action (World O) (Unit {0})
  pub get_dev_version : Action (World O) (Unit {0})

module _ {O : Type 0} ⦃j : Json O⦄ where
  -- `param->remove(KEY_TOKEN_STR)` after a method that returned.
  unfoldable pub then_remove : Action (World O) (Unit {0}) → Action (World O) (Unit {0})
  then_remove m w = elim (m w).0 [
    | ok _ ↦ remove "token" (m w).1
    | failed d ↦ (failed d, (remove "token" (m w).1).1)
    | thrown ↦ (thrown, (m w).1)
  ]

  -- A failure that removes the token from the parameter.
  unfoldable pub refuse : String → Action (World O) (Unit {0})
  refuse d = do remove "token"; fail d

  unfoldable pub serve_task : String → Action (World O) (Unit {0})
  serve_task method =
      if method == "add"
      then then_remove add_task
      else if method == "remove"
      then then_remove remove_task
      else if method == "modify"
      then then_remove modify_task
      else if method == "list"
      then then_remove get_tasks
      else refuse "201"

  unfoldable pub serve_record : String → Action (World O) (Unit {0})
  serve_record method = if method == "get" then then_remove list_records else refuse "201"

  unfoldable pub serve_system : SystemHandlers O → String → Action (World O) (Unit {0})
  serve_system system method =
      if method == "reset"
      then then_remove system.reset_config
      else if method == "update"
      then then_remove system.start_update
      else if method == "version"
      then then_remove system.get_dev_version
      else refuse "201"

  module _ ⦃q : Sqlite UserRecordNode⦄ where
    -- The method "restart" does nothing and leaves the result as it was, a failure without a detail.
    unfoldable pub serve_device : String → Action (World O) (Unit {0})
    serve_device method =
        if method == "open"
        then then_remove open_door
        else if method == "close"
        then then_remove close_door
        else if method == "check"
        then then_remove check_door
        else if method == "chmode"
        then then_remove change_mode
        else if method == "getmode"
        then then_remove get_mode
        else if method == "restart"
        then refuse ""
        else refuse "201"

    abbrev pub is_admin : String → World O → Bool
    is_admin token w = user_authority token w.users.table == authority_admin

    unfoldable pub route :
        SystemHandlers O → String → String → String → World O → Action (World O) (Unit {0})
    route system component method token w =
        if component == "task"
        then (if is_admin token w then serve_task method else refuse "403")
        else if component == "device"
        then serve_device method
        else if component == "record"
        then serve_record method
        else if component == "system"
        then (if is_admin token w then serve_system system method else refuse "403")
        else refuse "200"

    -- The components other than "user": the token is checked first.
    unfoldable pub serve_other : SystemHandlers O → String → String → Action (World O) (Unit {0})
    serve_other system component method = do
      w ← get
      fail_if (lacks w "token") "401"
      token ← get_string "token"
      fail_if (not (verify_user token w.now w.users.table)) "402"
      route system component method token w

    module _ ⦃g : Digest⦄ where
      unfoldable pub serve_user : String → Action (World O) (Unit {0})
      serve_user method =
          if method == "login"
          then login
          else if method == "logout"
          then logout
          else if method == "passwd"
          then passwd
          else if method == "add"
          then add_account
          else if method == "delete"
          then delete_account
          else if method == "topup"
          then top_up
          else if method == "list"
          then list_user
          else fail "201"

      unfoldable pub serve : SystemHandlers O → String → String → Action (World O) (Unit {0})
      serve system component method =
          if component == "user" then serve_user method else serve_other system component method

      -- The label `done`.
      unfoldable pub respond :
          String → ℤ → Action (World O) (Unit {0}) → Action (World O) (Response O)
      respond action id m w = elim (m w).0 [
        | ok _ ↦ (ok (good action id (m w).1.param), (m w).1)
        | failed d ↦ (ok (bad action id d), (m w).1)
        | thrown ↦ (thrown, (m w).1)
      ]

      unfoldable pub serve_parsed :
          SystemHandlers O → String → ℤ → String × String → Parsed O → Action (World O) (Response O)
      serve_parsed system action id names unreadable = pure (bad action id "103")
      serve_parsed system action id names other = throw
      serve_parsed system action id names (object param) = do
        write_param param
        respond action id (serve system names.0 names.1)

      unfoldable pub serve_named :
          SystemHandlers O
          → (String → Parsed O)
          → String
          → ℤ
          → String
          → Option (String × String)
          → Action (World O) (Response O)
      serve_named system parse action id text none = pure (bad action id "105")
      serve_named system parse action id text (some names) =
          serve_parsed system action id names (parse text)

      abbrev pub lacks_key : O → Bool
      lacks_key request =
          not (j.has request "type")
          || (not (j.has request "action")
              || (not (j.has request "param") || not (j.has request "requestid")))

      unfoldable pub serve_request :
          SystemHandlers O → (String → Parsed O) → O → Action (World O) (Response O)
      serve_request system parse request = do
        action ← or_throw (j.get_string request "action")
        text ← or_throw (j.get_string request "param")
        id ← or_throw (j.get_int request "requestid")
        serve_named system parse action id text (parse_action action)

      -- A response to a keepalive is no request.
      unfoldable pub is_response : O → Action (World O) Bool
      is_response request =
          if j.has request "type"
          then (do t ← or_throw (j.get_string request "type"); pure (t == "response"))
          else pure false

      unfoldable pub answer_request :
          SystemHandlers O → (String → Parsed O) → O → Bool → Action (World O) (Response O)
      answer_request system parse request true = pure silent
      answer_request system parse request false =
          if lacks_key request
          then pure (bad "" (pos 0) "101")
          else serve_request system parse request

      unfoldable pub run_parsed :
          SystemHandlers O → (String → Parsed O) → Parsed O → Action (World O) (Response O)
      run_parsed system parse unreadable = pure silent
      run_parsed system parse other = throw
      run_parsed system parse (object request) = do
        response ← is_response request
        answer_request system parse request response

      -- `runTask`
      unfoldable pub run_task :
          SystemHandlers O → (String → Parsed O) → String → Action (World O) (Response O)
      run_task system parse text = run_parsed system parse (parse text)
