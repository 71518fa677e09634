-- ===== src/Device/TaskTable.antt =====
-- The data of CTaskManager and CTaskHandler, Src/Device/Component/Task: the tasks, their schedule
-- and the queue of the timer.
use shuchuang.Shared.{
  ℕ, ◌+◌, ◌-◌, ◌*◌, ◌/◌, ◌%◌, ◌^◌, Bool, false, List, [], ◌∷◌, not, ◌&&◌, ◌||◌, ◌==◌, leb,
  if◌then◌else◌, nat_key, keep, Option, none, some,
}
use shuchuang.Shared.Int.{ℤ, pos, negsuc, pos_part, ltb_ℤ, int_key, ◌+ℤ◌, ◌-ℤ◌}
use shuchuang.Shared.Dict.{Dict}
use shuchuang.Shared.Poco.{Json}

-- `struct _TaskInfo`
pub record TaskInfo : Type 0 where
  pub id : ℤ
  pub option : ℤ
  pub hour : ℤ
  pub minute : ℤ
  pub weekday : ℤ
  pub active : ℤ

-- CTaskHandler; `serial` tells one object from another.
pub record TaskHandler : Type 0 where
  pub serial : ℕ
  pub id : ℤ
  pub option : ℤ
  pub hour : ℤ
  pub minute : ℤ
  pub weekday : ℕ
  pub is_active : Bool
  pub running : Bool

-- An entry of the timer's queue: the first time, in microseconds; then it runs each day.
pub record Scheduled : Type 0 where
  pub handler : TaskHandler
  pub first : ℤ

pub record TaskManager (O : Type 0) : Type 0 where
  pub task_map : Dict ℤ TaskHandler
  pub task_config : List O
  pub queue : List Scheduled
  pub created : ℕ
  pub utc_offset : ℤ

-- The conversion from `int` to `UInt8`.
abbrev pub to_uint8 : ℤ → ℕ
to_uint8 (pos n) = n % 256
to_uint8 (negsuc n) = 255 - n % 256

unfoldable pub set_task_info : TaskInfo → TaskHandler → TaskHandler
set_task_info task h = if h.running then h else record h {
  id = task.id;
  option = task.option;
  hour = task.hour;
  minute = task.minute;
  weekday = to_uint8 task.weekday;
  is_active = task.active == pos 1;
}

-- A new handler, all of whose fields `setTaskInfo` then sets.
unfoldable pub new_handler : ℕ → TaskInfo → TaskHandler
unfolding set_task_info
new_handler serial task = set_task_info task (record {
  serial = serial;
  id = pos 0;
  option = pos 0;
  hour = pos 0;
  minute = pos 0;
  weekday = 0;
  is_active = false;
  running = false;
})

-- `TimerTask::cancel`
unfoldable pub cancel : TaskHandler → List Scheduled → List Scheduled
cancel h queue = keep (λ e. not (e.handler.serial == h.serial)) queue

-- The test of `taskExists` for one handler.
unfoldable pub same_schedule : TaskInfo → TaskHandler → Bool
same_schedule task h =
    let active_same =
      h.is_active && task.active == pos 1 || not h.is_active && task.active == pos 0 in
    h.hour == task.hour
    && (h.minute == task.minute && (pos h.weekday == task.weekday && active_same))

unfoldable pub task_exists : TaskInfo → Dict ℤ TaskHandler → ℤ
unfolding same_schedule
task_exists task [] = pos 0
task_exists task ((i, h) ∷ m) = if same_schedule task h then h.id else task_exists task m

unfoldable pub in_range : TaskInfo → Bool
in_range task = not (
    not (task.option == pos 0) && not (task.option == pos 1)
    || (ltb_ℤ task.hour (pos 0)
        || ltb_ℤ (pos 23) task.hour
        || (ltb_ℤ task.minute (pos 0)
            || ltb_ℤ (pos 59) task.minute
            || (ltb_ℤ task.weekday (pos 0) || ltb_ℤ (pos 127) task.weekday))))

abbrev pub minute_us : ℕ
minute_us = 60000000

-- An offset in seconds, in microseconds.
abbrev pub offset_us : ℤ → ℤ
offset_us (pos n) = pos (n * 1000000)
offset_us (negsuc n) = negsuc ((n + 1) * 1000000 - 1)

-- The local time in whole minutes.
unfoldable pub local_minute : ℤ → ℤ → ℕ
local_minute now utc_offset = pos_part (now +ℤ offset_us utc_offset) / minute_us

-- `diffMinutes` in `addToScheduleQueue`: from the minute `base` of the local time to the minute
-- `des` of a day.
unfoldable pub first_wait : ℕ → ℕ → ℕ
first_wait base des =
    let diff = (des + 1440 - base % 1440) % 1440 in if leb diff 1 then diff + 1440 else diff

-- `Poco::DateTime(year, month, day, hour, minute)` throws where a number is out of range.
unfoldable pub first_time : ℤ → ℤ → TaskHandler → Option ℤ
unfolding first_wait local_minute
first_time now utc_offset h =
    if ltb_ℤ h.hour (pos 0)
      || ltb_ℤ (pos 23) h.hour
      || (ltb_ℤ h.minute (pos 0) || ltb_ℤ (pos 59) h.minute)
    then none
    else let base = local_minute now utc_offset in
      let des = pos_part h.hour * 60 + pos_part h.minute in
      some (pos ((base + first_wait base des) * minute_us) -ℤ offset_us utc_offset)

-- `DateTime::dayOfWeek` of a time after 1970, in microseconds; 0 is Sunday.
unfoldable pub day_of_week : ℕ → ℕ
day_of_week now = (now / 86400000000 + 4) % 7

-- `TaskSunday >> dayOffset`
unfoldable pub day_mask : ℕ → ℕ
day_mask day = 64 / 2 ^ day

-- `dayMask & m_weekday`, where the mask has one bit.
unfoldable pub has_bit : ℕ → ℕ → Bool
has_bit mask weekday = (weekday / mask) % 2 == 1

-- The test of `run`: the day is taken from the UTC time, before `makeLocal`.
unfoldable pub due : ℕ → TaskHandler → Bool
unfolding has_bit day_mask day_of_week
due now h = has_bit (day_mask (day_of_week now)) h.weekday

module _ {O : Type 0} ⦃j : Json O⦄ where
  unfoldable pub task_info_to_struct : TaskInfo → O
  task_info_to_struct task =
      let o0 = j.set_int64 j.empty "id" task.id in
      let o1 = j.set_int o0 "option" task.option in
      let o2 = j.set_int o1 "hour" task.hour in
      let o3 = j.set_int o2 "minute" task.minute in
      let o4 = j.set_int o3 "weekday" task.weekday in j.set_int o4 "active" task.active
