-- ===== src/Device/Users/Budget.antt =====
-- The number of openings that a user has left: `canUserOpenDoor`, `userOpenDoor` and `writeCache`
-- of CUserManager.
use shuchuang.Shared.{
  ℕ, ◌-◌, ◌≤◌, ◌<◌, ◌+◌, suc, refl, option-rule, Bool-cases, Option-cases, if-rule, inl, inr,
  if◌then◌else◌, String, ◌≡◌, ◌≢◌, true, none, some, List, [], ◌∷◌, map, arith, ◌==◌, ◌||◌, not,
  string_key, eq_iff,
}
use shuchuang.Shared.Int.{ℤ, pos, neg_part, pos_part, int_key, int_beq_iff, -ℤ_parts, ◌-ℤ◌, ltb_ℤ}
use shuchuang.Shared.Dict.{Dict, find, find-insert, find-update}
use shuchuang.Shared.Poco.{Sqlite, AllTrue}
use shuchuang.Device.UserTable.{UserRecordNode, UserTable, has_name, overwrite}
use shuchuang.Device.UserTable.Rows.{IsOpen, update_user-written}
use shuchuang.Device.World.{UserManager}
use shuchuang.Device.Users.{by_token, can_user_open_door, user_open_door, write_entry}

-- The openings that wait to be written.
unfoldable pub cached : String → Dict String ℕ → ℕ
cached token m = elim (find token m) [ none ↦ 0 | some n ↦ n ]

user_open_door-table : (token : String) (u : UserManager) → (user_open_door token u).table ≡ u.table
unfolding user_open_door
user_open_door-table token u =
    option-rule (λ (v : UserManager). v.table ≡ u.table) (find token u.cache_map) (λ _. refl)
      (λ n _. refl)

-- An opening counts for its token and for no other.
user_open_door-cached :
    (token other : String) (u : UserManager)
    → cached other (user_open_door token u).cache_map
      ≡ (if token == other then suc (cached token u.cache_map) else cached other u.cache_map)
unfolding cached user_open_door
user_open_door-cached token other u =
    let m = u.cache_map in
    option-rule
      (λ (v : UserManager).
        cached other v.cache_map
        ≡ (if token == other then suc (cached token u.cache_map) else cached other u.cache_map))
      (find token m) (λ e. ground (arith, find-insert token other 1 m))
      (λ n e. ground (arith, find-update token other (n + 1) m))

can_user_open_door-cached :
    ⦃q : Sqlite UserRecordNode⦄ (token : String) (u : UserManager)
    → can_user_open_door token u ≡ true
    → let left = (by_token token u.table).1.remain_open in
      neg_part left ≡ 0 → cached token u.cache_map < pos_part left
unfolding can_user_open_door cached
can_user_open_door-cached token u can l =
    let left = (by_token token u.table).1.remain_open in
    elim (Option-cases (find token u.cache_map)) [
      | inl e ↦ ground arith
      | inr (n, e) ↦ ground (arith, -ℤ_parts left (pos n))
    ]

module _ ⦃q : Sqlite UserRecordNode⦄ where
  within :
      (token other : String) (u : UserManager)
      → can_user_open_door token u ≡ true
      → let left = (by_token other u.table).1.remain_open in
        cached other u.cache_map ≤ pos_part left
        → neg_part left ≡ 0
        → cached other (user_open_door token u).cache_map ≤ pos_part left
  within token other u can h l =
      let at = user_open_door-cached token other u in
      let below = can_user_open_door-cached token u can in
      elim (Bool-cases (token == other)) [
        | inl e ↦
            (let same : token ≡ other = ground (arith, eq_iff token other) in
              ground (arith, at, rw same at (below)))
        | inr e ↦ ground (arith, at)
      ]

module _ ⦃q : Sqlite UserRecordNode⦄ where
  -- The openings of a token that wait are no more than its user has left; a negative number left
  -- is no limit.
  unfoldable pub IsWithin : String → UserManager → Type 0
  unfolding cached
  IsWithin token u =
      let left = (by_token token u.table).1.remain_open in
      neg_part left ≡ 0 → cached token u.cache_map ≤ pos_part left

  -- An opening that `canUserOpenDoor` allows keeps every token within what its user has left.
  pub user_open_door-IsWithin :
      (token other : String) (u : UserManager)
      → can_user_open_door token u ≡ true
      → IsWithin other u
      → IsWithin other (user_open_door token u)
  unfolding IsWithin
  user_open_door-IsWithin token other u can h l =
      let same = user_open_door-table token u in
      let l' : neg_part (by_token other u.table).1.remain_open ≡ 0 = rw same at l in
      rw same (within token other u can (h l') l')

overwrite-remain :
    (m : UserRecordNode) (k : ℕ) (rs : List UserRecordNode)
    → m.remain_open ≡ pos k
    → AllTrue (λ x. not (has_name m.username x) || x.remain_open == pos k) (map (overwrite m) rs)
overwrite-remain m k [] e = tt
overwrite-remain m k (r ∷ rs) e =
    ground (arith, overwrite-remain m k rs e, int_beq_iff m.remain_open (pos k))

sub_pos : (a : ℤ) (r n : ℕ) → a ≡ pos r → n ≤ r → a -ℤ pos n ≡ pos (r - n)
unfolding ◌-ℤ◌
sub_pos a r n e k = rw e (ground arith)

-- Writing the openings of a token back leaves its user with that many less, in every row of his
-- name: the table answers, he has a name, a password and a limit, and he did not exceed it.
pub write_entry-remain :
    ⦃q : Sqlite UserRecordNode⦄ (token : String) (n r : ℕ) (t : UserTable)
    → let node = (by_token token t).1 in
      IsOpen t
      → node.username ≢ ""
      → node.password ≢ ""
      → node.remain_open ≡ pos r
      → 1 ≤ r
      → n ≤ r
      → AllTrue
          (λ x. not (has_name node.username x) || x.remain_open == pos (r - n))
          (write_entry token n t).rows
unfolding write_entry
write_entry-remain token n r t o u p e l k =
    let node = (by_token token t).1 in
    let m = record node { remain_open = node.remain_open -ℤ pos n } in
    let rem = sub_pos node.remain_open r n e k in
    let name = node.username in
    if-rule
      (λ (x : UserTable).
        AllTrue (λ y. not (has_name name y) || y.remain_open == pos (r - n)) x.rows)
      (ltb_ℤ (pos 0) node.remain_open)
      (λ _. rw (update_user-written m t o u p) (overwrite-remain m (r - n) t.rows rem))
      (λ f. ground arith)
