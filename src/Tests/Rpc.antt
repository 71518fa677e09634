-- ===== src/Tests/Rpc.antt =====
-- Runs of the theorems on CRPCClient.

use Prim.Native.String.{String}
use shuchuang.Shared.{◌≡◌, refl, ap, none, some, ◌==◌, string_key, if◌then◌else◌}
use shuchuang.Shared.Int.{pos, ◌-ℤ◌, int_key}
use shuchuang.Shared.Outcome.{ok, pure}
use shuchuang.Device.UserTable.{get_user_by_token}
use shuchuang.Device.Users.{check_user_validity, verify_user, by_token}
use shuchuang.Device.Rpc.{
  Parsed, unreadable, object, Response, bad, SystemHandlers, parse_action, lacks_key, run_task,
}
use shuchuang.Device.Rpc.Guards.{run_task_invalid_token}
use shuchuang.Device.Rpc.Labels.{label, run_task-label}
use shuchuang.Tests.Objects.{
  Fields, text, nil, field, lookup, as_text, as_number, int64, fields_json,
}
use shuchuang.Tests.Engine.{tally_digest, first_match}
use shuchuang.Tests.Users.{with_param}

abbrev idle : SystemHandlers Fields
idle = record { reset_config = pure tt; start_update = pure tt; get_dev_version = pure tt }

abbrev of_stranger : Fields
of_stranger = field "token" (text "t3") nil

abbrev of_guest_token : Fields
of_guest_token = field "token" (text "t2") nil

abbrev request : Fields
request = field "type" (text "request") (
    field "action" (text "device.open")
      (field "param" (text "p") (field "requestid" (int64 (pos 4)) nil)))

unfoldable parser : String → Parsed Fields
parser s = if s == "q" then object request else if s == "p" then object of_stranger else unreadable

run_task_invalid_token_example :
    run_task idle parser "q" (with_param nil)
    ≡ (ok (bad "device.open" (pos 4) "402"), with_param of_stranger)
unfolding fields_json lookup as_text as_number parser parse_action verify_user check_user_validity
    ◌-ℤ◌ by_token get_user_by_token first_match
run_task_invalid_token_example =
    run_task_invalid_token idle parser "q" "request" "device.open" "p" "device" "open" "t3" (pos 4)
      request of_stranger (with_param nil) refl refl refl refl refl refl refl refl refl refl refl
      refl refl

abbrev refused : Response Fields
refused = bad "device.open" (pos 4) "402"

run_task-label_example : label refused ≡ (
    if ◌==◌ {A = String} "request" "response"
    then none
    else if lacks_key request
    then some ("", pos 0)
    else some ("device.open", pos 4))
unfolding fields_json lookup as_text as_number parser parse_action verify_user check_user_validity
    ◌-ℤ◌ by_token get_user_by_token first_match
run_task-label_example =
    run_task-label idle "device.open" (pos 4) parser "q" "request" request (with_param nil) refused
      refl refl refl refl refl
      (ap (λ r. r.0)
        (run_task_invalid_token idle parser "q" "request" "device.open" "p" "device" "open" "t3"
          (pos 4) request of_stranger (with_param nil) refl refl refl refl refl refl refl refl refl
          refl refl refl refl))
