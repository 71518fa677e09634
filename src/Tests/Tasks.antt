-- ===== src/Tests/Tasks.antt =====
-- Runs of the theorems on CTaskManager.
use shuchuang.Shared.{
  ◌≡◌, refl, true, false, [], ◌∷◌, ◌+◌, ◌%◌, not, arith, ltb, ◌==◌, if◌then◌else◌, nat_key,
  string_key,
}
use shuchuang.Shared.Outcome.{ok}
use shuchuang.Shared.Int.{pos, int_key}
use shuchuang.Shared.Dict.{find}
use shuchuang.Device.World.{World}
use shuchuang.Device.Tasks.Entries.{count, present}
use shuchuang.Device.Tasks.Stored.{Agrees}
use shuchuang.Device.Tasks.History.{Event, adds, history, history-Agrees, AllFresh}
use shuchuang.Tests.Objects.{Fields, int, nested, nil, field, fields_json}
use shuchuang.Tests.Engine.{first_match}
use shuchuang.Tests.Users.{with_param}
use shuchuang.Device.TaskTable.{TaskInfo, TaskHandler, day_of_week, day_mask}
use shuchuang.Device.Tasks.Runs.{run, run-local_day}

abbrev alarm : TaskInfo
alarm = record {
  id = pos 9;
  option = pos 1;
  hour = pos 7;
  minute = pos 30;
  weekday = pos 32;
  active = pos 1;
}

abbrev pub alarm_fields : Fields
alarm_fields = field "option" (int (pos 1)) (
    field "hour" (int (pos 7)) (
      field "minute" (int (pos 30))
        (field "weekday" (int (pos 32)) (field "active" (int (pos 1)) nil))))

abbrev pub asking : Fields → World Fields
asking o = with_param (field "task" (nested o) nil)

nothing-Agrees : (o : Fields) → Agrees (asking o)
unfolding Agrees count present find
nothing-Agrees o = (record { counted = λ id. refl; listed = tt; described = λ id h e. tt }, refl)

abbrev pub adding : Event Fields
adding = record { request = adds; param = (asking alarm_fields).param; now = pos 9 }

history-Agrees_example : Agrees (history (asking alarm_fields) (adding ∷ []))
unfolding find AllFresh
history-Agrees_example =
    history-Agrees (asking alarm_fields) (adding ∷ []) (refl, tt) (nothing-Agrees alarm_fields)

-- A task for Monday, at 7 o'clock of a Monday in China, which is a Sunday by UTC.
abbrev on_monday : TaskHandler
on_monday = record {
  serial = 0;
  id = pos 9;
  option = pos 1;
  hour = pos 7;
  minute = pos 0;
  weekday = 32;
  is_active = true;
  running = false;
}

abbrev in_china : World Fields
in_china = record (asking alarm_fields) { now = pos 342000000000 }

run-local_day_example :
    let (r, w') = run on_monday in_china in
    let runs_on =
      if ltb ((342000000000 + 28800000000) % 86400000000) 28800000000 then (1 + 1) % 7 else 1 in
    (r ≡ ok tt)
    × (w'.door.door_open ≡ (
        if day_of_week (342000000000 + 28800000000) == runs_on
        then not (on_monday.option == pos 0)
        else in_china.door.door_open))
    × (w'.users ≡ in_china.users)
unfolding day_mask
run-local_day_example =
    run-local_day 342000000000 28800000000 1 on_monday in_china (omega arith) refl (omega arith)
      refl refl
