-- ===== src/Tests/Users.antt =====
-- Runs of the theorems on CUserManager.
use shuchuang.Shared.{
  String, ◌≡◌, refl, ◌≢◌, true, false, none, some, [], ◌∷◌, ◌==◌, arith, eq_iff, string_key,
}
use shuchuang.Shared.Int.{pos, negsuc, ◌-ℤ◌, int_key}
use shuchuang.Shared.Dict.{find}
use shuchuang.Shared.Outcome.{ok, failed}
use shuchuang.Common.Config.{object}
use shuchuang.Device.UserTable.{UserRecordNode, blank, get_user_by_token, get_user_by_name}
use shuchuang.Device.World.{World, UserManager}
use shuchuang.Device.Users.{
  check_user_validity, by_token, by_name, verify_user, verify_user_password, can_user_open_door,
  user_open_door,
}
use shuchuang.Device.Users.Login.{login, login_step1, bound_elsewhere, logout}
use shuchuang.Device.Users.Admins.{AdminsWithin}
use shuchuang.Device.Users.History.{
  logs_in, deletes, requests, timer, opens, history, history-AdminsWithin,
}
use shuchuang.Device.Users.Tokens.{
  login_step1-verify_user, logout_empty_token, login_wrong_password,
}
use shuchuang.Device.Users.Budget.{IsWithin, cached, user_open_door-IsWithin}
use shuchuang.Tests.Objects.{Fields, text, nil, field, lookup, as_text, int, int64, fields_json}
use shuchuang.Tests.Engine.{tally, tally_digest, first_match}

abbrev pub admin : UserRecordNode
admin = record blank {
  username = "admin";
  password = "secret";
  authority = pos 9;
  time_of_validity = pos 1000;
  remain_open = negsuc 0;
  token = "t1";
}

abbrev guest : UserRecordNode
guest = record blank {
  username = "guest";
  password = "pw";
  authority = pos 7;
  time_of_validity = pos 1000;
  remain_open = pos 2;
  token = "t2";
}

abbrev users : UserManager
users = record {
  table = record { session = true; broken = false; rows = admin ∷ guest ∷ [] };
  challenge_map = [];
  cache_map = [];
  started = true;
}

abbrev pub with_param : Fields → World Fields
with_param o = record {
  users = users;
  tasks = record { task_map = []; task_config = []; queue = []; created = 0; utc_offset = pos 0 };
  ops = record {
    started = true;
    cache = [];
    last_delete_time = pos 0;
    table = record { session = true; broken = false; rows = [] };
  };
  door = record {
    fd = pos 3;
    door_open = false;
    user_mode = pos 0;
    on_normal_close = true;
    in_normal_close = true;
    commands = [];
    key = pos 0;
  };
  config = some (("APNS", object nil) ∷ []);
  posted = [];
  drawn = 0;
  now = pos 5;
  tzd = pos 0;
  param = some o;
}

abbrev pub binding : Fields
binding = field "binduser" (text "") nil

abbrev of_guest : Fields
of_guest = field "token" (text "t2") (field "password" (text "wrong") nil)

guest_named : ◌≢◌ {A = String} "guest" ""
guest_named = ground (arith, eq_iff "guest" "")

pw_given : ◌≢◌ {A = String} "pw" ""
pw_given = ground (arith, eq_iff "pw" "")

t2_given : ◌≢◌ {A = String} "t2" ""
t2_given = ground (arith, eq_iff "t2" "")

history-AdminsWithin_example :
    AdminsWithin
      (λ n. n == "admin")
      (history (with_param nil) (
        requests logs_in (some binding) (pos 6)
        ∷ opens "t2"
        ∷ timer (pos 7)
        ∷ requests deletes none (pos 8)
        ∷ [])).users.table
history-AdminsWithin_example =
    history-AdminsWithin (λ n. n == "admin") (with_param nil)
      (requests logs_in (some binding) (pos 6)
        ∷ opens "t2"
        ∷ timer (pos 7)
        ∷ requests deletes none (pos 8)
        ∷ [])
      (refl, (refl, tt))

login_step1-verify_user_example :
    let (r, w) = login_step1 "guest" guest (with_param binding) in
    (r ≡ ok tt)
    × ((x : Fields) × (w.param ≡ some x) × (fields_json.get_string x "token" ≡ some "muu"))
    × (verify_user "muu" (pos 5) w.users.table ≡ true)
unfolding check_user_validity bound_elsewhere ◌-ℤ◌ fields_json lookup as_text tally tally_digest
login_step1-verify_user_example =
    login_step1-verify_user "guest" "" guest binding (with_param binding) refl refl refl refl
      (refl, refl) guest_named pw_given refl (refl, (refl, tt))

logout_empty_token_example :
    verify_user "" (pos 5) (logout (with_param of_guest)).1.users.table ≡ true
unfolding check_user_validity ◌-ℤ◌ fields_json lookup as_text by_token verify_user get_user_by_token
    first_match
logout_empty_token_example =
    logout_empty_token "t2" of_guest (with_param of_guest) refl refl refl refl (refl, refl)
      guest_named pw_given refl (refl, (refl, tt))

abbrev guesses : Fields
guesses =
    field "username" (text "guest")
      (field "binduser" (text "") (field "token" (text "t2") (field "password" (text "wrong") nil)))

-- The guest has a challenge, and answers it wrongly.
abbrev challenged : World Fields
challenged = record (with_param guesses) {
  users = record users {
    challenge_map = ("guest", record { challenge = "c"; generate_time = pos 4 }) ∷ [];
  };
}

login_wrong_password_example :
    let (r, w) = login challenged in
    (r ≡ failed "416")
    × (find "guest" w.users.challenge_map ≡ none)
    × (verify_user "t2" (pos 7) w.users.table ≡ false)
unfolding fields_json lookup as_text by_token get_user_by_token verify_user_password by_name
    get_user_by_name tally_digest first_match find
login_wrong_password_example =
    login_wrong_password "guest" "" "c" "t2" "wrong" (pos 4) guesses challenged refl refl refl refl
      refl refl refl refl refl refl refl (refl, refl) t2_given guest_named pw_given
      (refl, (refl, tt)) (pos 7)

user_open_door-IsWithin_example : IsWithin "t2" (user_open_door "t2" users)
unfolding can_user_open_door by_token get_user_by_token IsWithin cached find first_match
user_open_door-IsWithin_example = user_open_door-IsWithin "t2" "t2" users refl (λ e. omega arith)

abbrev of_newcomer : Fields
of_newcomer = field "token" (text "t1") (
    field "password" (text "") (
      field "username" (text "new") (
        field "binduser" (text "") (
          field "authority" (int (pos 7))
            (field "remainopen" (int (pos 1)) (field "timeofvalidity" (int64 (pos 9)) nil))))))
