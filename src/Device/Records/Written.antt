-- ===== src/Device/Records/Written.antt =====
-- What becomes of the records that COpManager keeps in memory.
use shuchuang.Shared.{
  ◌≡◌, refl, Bool, true, false, List, [], ◌∷◌, ◌++◌, not, ◌&&◌, ◌||◌, arith, Bool-cases, inl, inr,
}
use shuchuang.Shared.Int.{int_key}
use shuchuang.Device.OperationTable.{
  OperationRecordNode, OpManager, has_time, insert_all, add_records,
}
use shuchuang.Device.Records.{write_all_records, is_nil}

-- No record has the time of another or of a row.
abbrev pub all_new : List OperationRecordNode → List OperationRecordNode → Bool
all_new [] rows = true
all_new (r ∷ rs) rows = not (has_time r.timestamp rows) && all_new rs (rows ++ r ∷ [])

append_assoc : (xs ys zs : List OperationRecordNode) → (xs ++ ys) ++ zs ≡ xs ++ (ys ++ zs)
append_assoc [] ys zs = refl
append_assoc (x ∷ xs) ys zs = ground (arith, append_assoc xs ys zs)

append-nil : (xs : List OperationRecordNode) → xs ++ [] ≡ xs
append-nil [] = refl
append-nil (x ∷ xs) = ground (arith, append-nil xs)

nil_of : (xs : List OperationRecordNode) → is_nil xs ≡ true → xs ≡ []
nil_of [] h = refl
nil_of (x ∷ xs) h = ground arith

insert_all-new :
    (rs rows : List OperationRecordNode)
    → all_new rs rows ≡ true
    → insert_all rs rows ≡ (true, rows ++ rs)
unfolding insert_all
insert_all-new [] rows h = ground (arith, append-nil rows)
insert_all-new (r ∷ rs) rows h =
    ground (arith, insert_all-new rs (rows ++ r ∷ []), append_assoc rows (r ∷ []) rs)

-- Records with new and different times are all written, in their order, and none stays in memory;
-- the table answers.
pub write_all_records_lem :
    (m : OpManager)
    → m.table.session ≡ true
    → m.table.broken ≡ false
    → all_new m.cache m.table.rows ≡ true
    → let m' = write_all_records m in (m'.cache ≡ []) × (m'.table.rows ≡ m.table.rows ++ m.cache)
unfolding write_all_records add_records
write_all_records_lem m s b h = elim (Bool-cases (is_nil m.cache)) [
  | inl e ↦ (let n = nil_of m.cache e in (ground arith, ground (arith, append-nil m.table.rows)))
  | inr e ↦ (ground arith, ground (arith, insert_all-new m.cache m.table.rows h))
]

-- Where the table does not answer the records are lost: they leave the memory and reach no row.
pub write_all_records_lost :
    (m : OpManager)
    → (not m.table.session || m.table.broken) ≡ true
    → let m' = write_all_records m in (m'.cache ≡ []) × (m'.table ≡ m.table)
unfolding write_all_records add_records
write_all_records_lost m h = (ground (arith, nil_of m.cache), ground arith)
