-- ===== src/Device/Records.antt =====
-- COpManager, Src/Device/Component/Record/OperationManager.cpp: the records of the openings, kept in
-- memory until the timer or a query writes them to the table.
pub mod Written
use shuchuang.Shared.{
  ℕ, ◌*◌, ◌/◌, ◌%◌, String, Bool, true, false, Option, none, some, List, [], ◌∷◌, ◌++◌, map, ◌||◌,
  ltb, if◌then◌else◌, not,
}
use shuchuang.Shared.Int.{ℤ, pos, ◌-ℤ◌, ltb_ℤ, pos_part}
use shuchuang.Shared.Outcome.{Action, pure, get, fail_if, ◌>>=◌, ◌>>◌}
use shuchuang.Shared.Poco.{Json}
use shuchuang.Device.OperationTable.{
  OperationRecordNode, OpManager, add_records, delete_records_by_date, get_records,
}
use shuchuang.Device.World.{
  World, Message, system_will_reboot, lacks, the_param, has, get_int, write_param, remove, on_ops,
}

unfoldable pub start : OpManager → Bool × OpManager
start m = if m.started then (false, m) else (true, record m { cache = []; started = true })

abbrev pub is_nil : List OperationRecordNode → Bool
is_nil [] = true
is_nil (r ∷ rs) = false

-- The cache is emptied whether the table took the records or not.
unfoldable pub write_all_records : OpManager → OpManager
write_all_records m =
    if is_nil m.cache then m else record m { table = (add_records m.cache m.table).1; cache = [] }

unfoldable pub stop : OpManager → Bool × OpManager
unfolding write_all_records
stop m = if m.started then (true, record (write_all_records m) { started = false }) else (false, m)

abbrev pub day_us : ℕ
day_us = 86400000000

-- `timerCallback`, each minute: once a day the records from before the last thirty days go.
unfoldable pub timer_callback : ℕ → OpManager → OpManager
unfolding write_all_records
timer_callback now m =
    let m' = write_all_records m in
    if ltb 0 (pos_part (pos now -ℤ m'.last_delete_time) / day_us)
    then record m' {
      table =
          (delete_records_by_date (pos (now / day_us * day_us) -ℤ pos (30 * day_us)) m'.table).1;
      last_delete_time = pos now;
    }
    else m'

unfoldable pub handle_notification : Message → OpManager → OpManager
unfolding write_all_records
handle_notification system_will_reboot m = write_all_records m
handle_notification _ m = m

unfoldable pub add_record : OperationRecordNode → OpManager → OpManager
add_record node m = record m { cache = m.cache ++ node ∷ [] }

module _ {O : Type 0} ⦃j : Json O⦄ where
  unfoldable pub record_entry : OperationRecordNode → O
  record_entry r =
      let e0 = j.set_int64 j.empty "Timestamp" r.timestamp in
      let e1 = j.set_int e0 "Operation" r.operation in
      let e2 = j.set_string e1 "Username" r.username in j.set_int e2 "Schema" r.schema

  -- The handler of the component "record".
  unfoldable pub list_records : Action (World O) (Unit {0})
  list_records = do
    w ← get
    fail_if (lacks w "starttime" || (lacks w "endtime" || (lacks w "limit" || lacks w "offset")))
        "440"
    on_ops write_all_records
    limit ← get_int "limit"
    offset ← get_int "offset"
    start_time ← get_int "starttime"
    end_time ← get_int "endtime"
    written ← get
    let (n, data_set) = get_records start_time end_time limit offset written.ops.table
    fail_if (ltb_ℤ n (pos 0)) "441"
    o ← the_param
    write_param (j.set_objects o "records" (map record_entry data_set))
    with_token ← has "token"
    if with_token then remove "token" else pure tt
