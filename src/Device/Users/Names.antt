-- ===== src/Device/Users/Names.antt =====
-- The names of the users in the table of CUserRecord, Src/Device/Util/UserRecord.cpp, under its
-- statements.
pub mod Kept
use shuchuang.Shared.{
  String, ◌≡◌, Bool, true, List, [], ◌∷◌, ◌++◌, map, arith, false, ◌==◌, ◌||◌, not, eq_iff,
  string_key, keep, if-rule,
}
use shuchuang.Shared.Int.{ℤ}
use shuchuang.Shared.Outcome.Keeps.{Keeps}
use shuchuang.Shared.Poco.{Sqlite, AllTrue}
use shuchuang.Device.UserTable.{
  UserRecordNode, UserTable, has_name, overwrite, add_user, delete_user, update_user,
}
use shuchuang.Device.UserTable.Rows.{AllTrue-append, AllTrue-keep}
use shuchuang.Device.Users.Kept.{IsNew}
use shuchuang.Device.World.{on_table}
use shuchuang.Device.World.Keeps.{OnTable, Keeps-on_table}

abbrev pub lacks_name : String → UserRecordNode → Bool
lacks_name name r = not (has_name name r)

-- No two rows have one name.
abbrev pub Distinct : List UserRecordNode → Type 0
Distinct [] = Unit
Distinct (r ∷ rs) = AllTrue (lacks_name r.username) rs × Distinct rs

abbrev pub DistinctNames : UserTable → Type 0
DistinctNames t = Distinct t.rows

Distinct-append :
    (rows : List UserRecordNode) (n : UserRecordNode)
    → Distinct rows
    → AllTrue (lacks_name n.username) rows
    → Distinct (rows ++ n ∷ [])
Distinct-append [] n d l = (tt, tt)
Distinct-append (r ∷ rs) n (d, ds) (l, ls) = (
  AllTrue-append (lacks_name r.username) rs (n ∷ []) d
      (ground (arith, eq_iff r.username n.username, eq_iff n.username r.username), tt),
  Distinct-append rs n ds ls,
)

Distinct-keep :
    (p : UserRecordNode → Bool) (rows : List UserRecordNode)
    → Distinct rows
    → Distinct (keep p rows)
Distinct-keep p [] d = tt
Distinct-keep p (r ∷ rs) (d, ds) =
    if-rule Distinct (p r)
      (λ _. (AllTrue-keep (lacks_name r.username) p rs d, Distinct-keep p rs ds))
      (λ _. Distinct-keep p rs ds)

name-overwrite : (n r : UserRecordNode) → (overwrite n r).username ≡ r.username
name-overwrite n r = ground (arith, eq_iff r.username n.username)

lacks-overwrite :
    (name : String) (n : UserRecordNode) (rows : List UserRecordNode)
    → AllTrue (lacks_name name) rows
    → AllTrue (lacks_name name) (map (overwrite n) rows)
lacks-overwrite name n [] l = tt
lacks-overwrite name n (r ∷ rs) (l, ls) = (rw (name-overwrite n r) l, lacks-overwrite name n rs ls)

Distinct-overwrite :
    (n : UserRecordNode) (rows : List UserRecordNode)
    → Distinct rows
    → Distinct (map (overwrite n) rows)
Distinct-overwrite n [] d = tt
Distinct-overwrite n (r ∷ rs) (d, ds) =
    (rw (name-overwrite n r) (lacks-overwrite r.username n rs d), Distinct-overwrite n rs ds)

pub update_user-DistinctNames :
    (n : UserRecordNode) (t : UserTable) → DistinctNames t → DistinctNames (update_user n t).1
unfolding update_user
update_user-DistinctNames n t d = ground (arith, Distinct-overwrite n t.rows d)

pub delete_user-DistinctNames :
    (n : UserRecordNode) (t : UserTable) → DistinctNames t → DistinctNames (delete_user n t).1
unfolding delete_user
delete_user-DistinctNames n t d =
    ground (arith, Distinct-keep (λ r. not (has_name n.username r)) t.rows d)

pub add_user-DistinctNames :
    ⦃q : Sqlite UserRecordNode⦄ (n : UserRecordNode) (t : UserTable)
    → IsNew n.username t
    → DistinctNames t
    → DistinctNames (add_user n t).1
unfolding add_user
add_user-DistinctNames ⦃q⦄ n t new d =
    if-rule {A = ℤ × UserTable} (λ x. DistinctNames x.1) (not t.session) (λ _. d)
      (λ _.
        if-rule {A = ℤ × UserTable} (λ x. DistinctNames x.1) (n.username == "" || n.password == "")
          (λ _. d)
          (λ _.
            if-rule {A = ℤ × UserTable} (λ x. DistinctNames x.1)
              (t.broken || not (q.accepts t.rows n)) (λ _. d)
              (λ e. Distinct-append t.rows n d (new (ground (arith, e))))))
