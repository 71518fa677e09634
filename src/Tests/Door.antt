-- ===== src/Tests/Door.antt =====
-- Runs of the theorems on CDeviceController and COpManager.
use shuchuang.Shared.{◌≡◌, refl, ◌==◌, true, false, none, [], ◌∷◌}
use shuchuang.Shared.Int.{ℤ, int_key, pos}
use shuchuang.Shared.Dict.{find}
use shuchuang.Device.UserTable.{get_user_by_token}
use shuchuang.Device.OperationTable.{OperationRecordNode, OpManager}
use shuchuang.Device.World.{World, steps}
use shuchuang.Device.Users.{by_token, can_user_open_door}
use shuchuang.Device.Door.{switch, open_door, open_closed, log_switch}
use shuchuang.Device.Door.Opening.{Allowed, open_door-Allowed}
use shuchuang.Tests.Objects.{Fields, text, nil, field, lookup, as_text, fields_json}
use shuchuang.Tests.Engine.{first_match}
use shuchuang.Tests.Users.{with_param}

abbrev of_guest : Fields
of_guest = field "token" (text "t2") nil

abbrev in_admin_mode : World Fields
in_admin_mode = record (with_param of_guest) {
  door = record (with_param of_guest).door { user_mode = pos 1 };
}

abbrev by_task : World Fields
by_task = record (with_param of_guest) { param = none }

open_door-Allowed_example :
    (((with_param of_guest).door.fd == pos 0) ≡ false)
    × Allowed (with_param of_guest) (open_door (with_param of_guest)).1
unfolding open_door open_closed log_switch switch steps fields_json lookup as_text by_token
    get_user_by_token can_user_open_door first_match find
open_door-Allowed_example = open_door-Allowed (with_param of_guest) refl refl

abbrev opened_at : ℤ → OperationRecordNode
opened_at t = record { timestamp = t; operation = pos 1; username = "guest"; schema = pos 0 }

abbrev holding_two : OpManager
holding_two = record {
  started = true;
  cache = opened_at (pos 4) ∷ opened_at (pos 6) ∷ [];
  last_delete_time = pos 0;
  table = record { session = true; broken = false; rows = opened_at (pos 2) ∷ [] };
}

abbrev out_of_order : OpManager
out_of_order = record holding_two { table = record holding_two.table { broken = true } }
