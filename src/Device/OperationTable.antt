-- ===== src/Device/OperationTable.antt =====
-- COperationRecord, Src/Device/Util/OperationRecord.cpp: the table `Operation`, whose key is the
-- time, and its statements; the data of COpManager and of CDeviceController.
use shuchuang.Shared.{
  String, Bool, true, false, List, [], ◌∷◌, ◌++◌, not, ◌&&◌, ◌||◌, ◌==◌, if◌then◌else◌, keep,
  length,
}
use shuchuang.Shared.Int.{ℤ, pos, negsuc, ◌-ℤ◌, ltb_ℤ, leb_ℤ, int_key}
use shuchuang.Device.UserTable.{page}

-- `struct _OperationRecordNode`
pub record OperationRecordNode : Type 0 where
  pub timestamp : ℤ
  pub operation : ℤ
  pub username : String
  pub schema : ℤ

pub record OperationTable : Type 0 where
  pub session : Bool
  pub broken : Bool
  pub rows : List OperationRecordNode

abbrev pub has_time : ℤ → List OperationRecordNode → Bool
has_time t [] = false
has_time t (r ∷ rs) = r.timestamp == t || has_time t rs

-- The rows after the INSERTs of one statement, up to the first that the key refuses, and whether
-- all went in. The transaction is committed either way.
unfoldable pub insert_all :
    List OperationRecordNode → List OperationRecordNode → Bool × List OperationRecordNode
insert_all [] rows = (true, rows)
insert_all (r ∷ rs) rows =
    let rest = insert_all rs (rows ++ r ∷ []) in
    if has_time r.timestamp rows then (false, rows) else rest

unfoldable pub add_records : List OperationRecordNode → OperationTable → ℤ × OperationTable
unfolding insert_all
add_records data_set t =
    if not t.session
    then (negsuc 0, t)
    else if t.broken
    then (negsuc 0, t)
    else let (all, rows) = insert_all data_set t.rows in
      (if all then pos (length data_set) else negsuc 0, record t { rows = rows })

-- `addRecord` of one record.
unfoldable pub add_single : OperationRecordNode → OperationTable → ℤ × OperationTable
add_single r t =
    if not t.session
    then (negsuc 0, t)
    else if t.broken || has_time r.timestamp t.rows
    then (negsuc 0, t)
    else (pos 1, record t { rows = t.rows ++ r ∷ [] })

-- Without a session the method returns -1, which is true.
unfoldable pub reset_op_record : OperationTable → Bool × OperationTable
reset_op_record t =
    if not t.session
    then (true, t)
    else if t.broken
    then (false, t)
    else (true, record t { rows = [] })

unfoldable pub delete_records_by_date : ℤ → OperationTable → ℤ × OperationTable
delete_records_by_date date t =
    if not t.session then (negsuc 0, t) else if t.broken then (negsuc 0, t) else (
      pos (length (keep (λ r. ltb_ℤ r.timestamp date) t.rows)),
      record t { rows = keep (λ r. not (ltb_ℤ r.timestamp date)) t.rows },
    )

-- `BETWEEN start AND end - 1`
abbrev pub between : ℤ → ℤ → OperationRecordNode → Bool
between start end r = leb_ℤ start r.timestamp && leb_ℤ r.timestamp (end -ℤ pos 1)

unfoldable pub get_records : ℤ → ℤ → ℤ → ℤ → OperationTable → ℤ × List OperationRecordNode
unfolding page
get_records start end limit offset t =
    if not t.session
    then (negsuc 0, [])
    else if t.broken
    then (negsuc 0, [])
    else let found = page limit offset (keep (between start end) t.rows) in
      (pos (length found), found)

pub record OpManager : Type 0 where
  pub started : Bool
  pub cache : List OperationRecordNode
  pub last_delete_time : ℤ
  pub table : OperationTable

-- A command to the port of the relay and the lamps.
pub data Ioctl : Type 0 where
  relay_on relay_off run_on run_off error_on error_off : Ioctl

-- `fd` is `m_fd`; `on_normal_close` and `in_normal_close` are the macros of the build;
-- `commands` went to the port, newest last; `key` is what SC_READ_KEY gives.
pub record DeviceController : Type 0 where
  pub fd : ℤ
  pub door_open : Bool
  pub user_mode : ℤ
  pub on_normal_close : Bool
  pub in_normal_close : Bool
  pub commands : List Ioctl
  pub key : ℤ
