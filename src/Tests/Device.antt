-- ===== src/Tests/Device.antt =====
-- Runs of the theorems on the main function of the device.
use shuchuang.Shared.{String, ◌≡◌, refl, true, false, none, some, List, [], ◌∷◌, string_key}
use shuchuang.Shared.Int.{pos}
use shuchuang.Shared.Dict.{find}
use shuchuang.Shared.Outcome.{ok, ◌>>=◌}
use shuchuang.Common.Config.{object, get_object, get_array}
use shuchuang.Common.Config.Files.{holds, init, config_of}
use shuchuang.Device.World.{World, on_config, on_tasks}
use shuchuang.Device.Users.{verify_user}
use shuchuang.Device.Users.History.{Event, requests, adds, logs_in, timer, history}
use shuchuang.Device.Tasks.{load_array, load_tasks_config}
use shuchuang.Device.System.Clock.{Ntp, on_ntp_event, request, request_host, synchronize_time}
use shuchuang.Device.Boot.{no_tasks, construct_tasks, with_clock, boot}
use shuchuang.Device.Main.{Machine, Meeting, UserFile, no_table, users, operations, main_start}
use shuchuang.Device.Main.Starts.{IsComplete, main_start-locked_out}
use shuchuang.Tests.Objects.{
  Fields, nil, field, text, int, lookup, as_text, as_int, as_number, fields_json,
}
use shuchuang.Tests.Engine.{tally_digest, first_match}
use shuchuang.Tests.Users.{admin, with_param}

abbrev server : Fields
server =
    field "host" (text "server")
      (field "ssl_port" (int (pos 13000)) (field "reg_port" (int (pos 13001)) nil))

abbrev paths : Fields
paths = field "User" (text "u") (field "Operation" (text "o") nil)

abbrev mode : Fields
mode = field "mode" (int (pos 1)) nil

abbrev me : Fields
me = field "uuid" (text "a") nil

abbrev china : Ntp
china = record { answer = λ host. some (pos 1000); can_set = true; offset = pos 28800 }

abbrev installed : Meeting Fields
installed = record {
  file = holds (
      ("DataPath", object paths)
      ∷ ("UserMode", object mode)
      ∷ ("RegProxy", object server)
      ∷ ("DeviceInfo", object me)
      ∷ []);
  ntp = china;
  reparse = some;
  users_at = λ path. users (admin ∷ []);
  operations_at = λ path. operations [];
  fd = pos 3;
}

abbrev fresh : Machine Fields
fresh = record {
  world = record (with_param nil) { param = none };
  proxy = record {
    started = false;
    sock = false;
    ssl_sock = false;
    token = "";
    uuid = "";
    last_check = 0;
    config = none;
    effects = [];
  };
  rpc = record {
    started = false;
    alive = false;
    joining = false;
    queue = [];
    running = [];
    posted = [];
  };
}

abbrev booted : World Fields
booted =
    (boot installed.ntp installed.reparse
      (record fresh.world { config = (init installed.file).1 })).1

abbrev new_users : Meeting Fields
new_users = record installed { users_at = λ path. no_table }

installed-IsComplete :
    (u : String → UserFile)
    → IsComplete (record installed { users_at = u }) fresh booted "u" "o" "a" (pos 1)
unfolding init config_of boot synchronize_time request_host request on_ntp_event with_clock
    construct_tasks no_tasks load_tasks_config load_array on_config on_tasks get_object get_array
    find lookup as_text as_int as_number fields_json ◌>>=◌
installed-IsComplete u = record {
  root =
      ("DataPath", object paths)
      ∷ ("UserMode", object mode)
      ∷ ("RegProxy", object server)
      ∷ ("DeviceInfo", object me)
      ∷ [];
  o_data = paths;
  o_mode = mode;
  o_reg = server;
  o_info = me;
  host = "server";
  ssl_port = pos 13000;
  reg_port = pos 13001;
  booted = refl;
  config = refl;
  data_path = refl;
  has_user = refl;
  has_operation = refl;
  users_path = refl;
  operations_path = refl;
  user_mode = refl;
  the_mode = refl;
  reg = refl;
  has_host = refl;
  has_ssl = refl;
  has_reg = refl;
  info = refl;
  has_uuid = refl;
}

abbrev tries : List (Event Fields)
tries =
    requests adds (some (field "username" (text "admin") nil)) (pos 2000000)
    ∷ timer (pos 3000000)
    ∷ requests logs_in (some (field "username" (text "admin") nil)) (pos 4000000)
    ∷ []

main_start-locked_out_example :
    let (r, s) = main_start new_users fresh in
    (r ≡ ok tt) × (verify_user "t1" (pos 5) (history s.world tries).users.table ≡ false)
main_start-locked_out_example =
    main_start-locked_out new_users fresh booted "u" "o" "a" (pos 1) tries "t1" (pos 5)
      (installed-IsComplete new_users.users_at) refl refl
