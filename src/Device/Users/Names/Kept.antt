-- ===== src/Device/Users/Names/Kept.antt =====
-- The names of the users through any sequence of requests to CUserManager,
-- Src/Device/Component/User/UserManager.cpp.
use shuchuang.Shared.{List}
use shuchuang.Shared.Poco.{Json, Digest, Sqlite}
use shuchuang.Device.UserTable.{UserRecordNode}
use shuchuang.Device.World.{World}
use shuchuang.Device.Users.History.{Event, history}
use shuchuang.Device.Users.Kept.{KeptByStatements, history-Kept}
use shuchuang.Device.Users.Names.{
  DistinctNames, update_user-DistinctNames, delete_user-DistinctNames, add_user-DistinctNames,
}

DistinctNames-KeptByStatements : ⦃q : Sqlite UserRecordNode⦄ → KeptByStatements DistinctNames
DistinctNames-KeptByStatements = record {
  updates = update_user-DistinctNames;
  deletes = delete_user-DistinctNames;
  inserts = add_user-DistinctNames;
}

module _ {O : Type 0} ⦃j : Json O⦄ ⦃q : Sqlite UserRecordNode⦄ ⦃g : Digest⦄ where
  -- The names of the users stay distinct through any sequence of requests to CUserManager, good or bad,
  -- rounds of its timer and openings of the door, whatever the database takes: `addUser` refuses a name
  -- that is there.
  pub history-DistinctNames :
      (w : World O) (es : List (Event O))
      → DistinctNames w.users.table
      → DistinctNames (history w es).users.table
  history-DistinctNames = history-Kept DistinctNames DistinctNames-KeptByStatements
