-- ===== src/Device/UserTable.antt =====
-- CUserRecord, Src/Device/Util/UserRecord.cpp: the table `User` and its statements.
pub mod Rows
use shuchuang.Shared.{
  suc, String, Bool, true, false, Option, none, some, List, [], ◌∷◌, ◌++◌, map, ◌==◌, ◌||◌, not,
  if◌then◌else◌, string_key, length, keep, take, drop,
}
use shuchuang.Shared.Int.{ℤ, pos, negsuc}
use shuchuang.Shared.Poco.{Sqlite}

-- `struct _UserRecordNode`
pub record UserRecordNode : Type 0 where
  pub username : String
  pub password : String
  pub binduser : String
  pub authority : ℤ
  pub time_of_validity : ℤ
  pub remain_open : ℤ
  pub token : String
  pub last_verify : ℤ
  pub last_login : ℤ

-- `{"", "", "", 0, 0, 0, "", 0, 0}`
abbrev pub blank : UserRecordNode
blank = record {
  username = "";
  password = "";
  binduser = "";
  authority = pos 0;
  time_of_validity = pos 0;
  remain_open = pos 0;
  token = "";
  last_verify = pos 0;
  last_login = pos 0;
}

-- `session` is `m_session_ptr != NULL`; in a table that is `broken` every statement throws.
pub record UserTable : Type 0 where
  pub session : Bool
  pub broken : Bool
  pub rows : List UserRecordNode

abbrev pub has_name : String → UserRecordNode → Bool
has_name name r = r.username == name

abbrev pub has_token : String → UserRecordNode → Bool
has_token token r = r.token == token

-- The number of rows selected, and the node after `into`.
unfoldable pub selected :
    ⦃q : Sqlite UserRecordNode⦄ → List UserRecordNode → UserRecordNode → ℤ × UserRecordNode
selected ⦃q⦄ [] node = (pos 0, node)
selected ⦃q⦄ (r ∷ rs) node = (pos (suc (length rs)), q.pick r rs)

unfoldable pub get_single_user :
    ⦃q : Sqlite UserRecordNode⦄
    → (UserRecordNode → Bool)
    → UserRecordNode
    → UserTable
    → ℤ × UserRecordNode
unfolding selected
get_single_user matches node t =
    if not t.session
    then (negsuc 0, node)
    else if t.broken
    then (pos 0, node)
    else selected (keep matches t.rows) node

-- The columns that are not selected are those of the key, which a match has already.
unfoldable pub get_user_by_name :
    ⦃q : Sqlite UserRecordNode⦄ → UserRecordNode → UserTable → ℤ × UserRecordNode
unfolding get_single_user
get_user_by_name node t = get_single_user (has_name node.username) node t

unfoldable pub get_user_by_token :
    ⦃q : Sqlite UserRecordNode⦄ → UserRecordNode → UserTable → ℤ × UserRecordNode
unfolding get_single_user
get_user_by_token node t = get_single_user (has_token node.token) node t

unfoldable pub add_user : ⦃q : Sqlite UserRecordNode⦄ → UserRecordNode → UserTable → ℤ × UserTable
add_user ⦃q⦄ node t =
    if not t.session
    then (negsuc 0, t)
    else if node.username == "" || node.password == ""
    then (negsuc 0, t)
    else if t.broken || not (q.accepts t.rows node)
    then (pos 0, t)
    else (pos 1, record t { rows = t.rows ++ node ∷ [] })

unfoldable pub delete_user : UserRecordNode → UserTable → ℤ × UserTable
delete_user node t =
    if not t.session
    then (negsuc 0, t)
    else if node.username == ""
    then (negsuc 0, t)
    else if t.broken
    then (pos 0, t)
    else (
      pos (length (keep (has_name node.username) t.rows)),
      record t { rows = keep (λ r. not (has_name node.username r)) t.rows },
    )

abbrev pub overwrite : UserRecordNode → UserRecordNode → UserRecordNode
overwrite node r = if has_name node.username r then node else r

unfoldable pub update_user : UserRecordNode → UserTable → ℤ × UserTable
update_user node t =
    if not t.session
    then (negsuc 0, t)
    else if node.username == "" || node.password == ""
    then (negsuc 0, t)
    else if t.broken
    then (pos 0, t)
    else (
      pos (length (keep (has_name node.username) t.rows)),
      record t { rows = map (overwrite node) t.rows },
    )

-- `LIMIT ? OFFSET ?`: a negative limit is none, a negative offset is 0.
unfoldable pub page {ℓ} : {A : Type ℓ} → ℤ → ℤ → List A → List A
page (pos n) (pos k) rows = take n (drop k rows)
page (pos n) (negsuc k) rows = take n rows
page (negsuc n) (pos k) rows = drop k rows
page (negsuc n) (negsuc k) rows = rows

unfoldable pub get_users : ℤ → ℤ → UserTable → ℤ × List UserRecordNode
unfolding page
get_users limit offset t =
    if not t.session
    then (negsuc 0, [])
    else if t.broken
    then (negsuc 0, [])
    else let found = page limit offset t.rows in (pos (length found), found)
