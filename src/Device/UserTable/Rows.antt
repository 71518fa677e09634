-- ===== src/Device/UserTable/Rows.antt =====
-- What the statements of the table `User` do to its rows.
use shuchuang.Shared.{
  String, ◌≡◌, refl, ◌≢◌, Bool, true, false, List, [], ◌∷◌, ◌++◌, map, arith, ◌==◌, ◌||◌, not,
  eq_iff, string_key, keep, Bool-cases, inl, inr, ◌⊎◌,
}
use shuchuang.Shared.Int.{pos, int_key}
use shuchuang.Shared.Poco.{Sqlite, AllTrue}
use shuchuang.Device.UserTable.{
  UserRecordNode, UserTable, has_name, has_token, selected, get_single_user, add_user, delete_user,
  update_user, overwrite,
}

module _ {ℓ} {R : Type ℓ} (p : R → Bool) where
  pub AllTrue-append : (xs ys : List R) → AllTrue p xs → AllTrue p ys → AllTrue p (xs ++ ys)
  AllTrue-append [] ys h k = k
  AllTrue-append (x ∷ xs) ys h k = (h.0, AllTrue-append xs ys h.1 k)

  pub AllTrue-keep : (m : R → Bool) (xs : List R) → AllTrue p xs → AllTrue p (keep m xs)
  AllTrue-keep m [] h = tt
  AllTrue-keep m (x ∷ xs) h = ground (arith, AllTrue-keep m xs h.1)

  -- What is kept passes the test that keeps it.
  pub keep_sound : (xs : List R) → AllTrue p (keep p xs)
  keep_sound [] = tt
  keep_sound (x ∷ xs) = ground (arith, keep_sound xs)

module _ (p : UserRecordNode → Bool) where
  pub AllTrue-overwrite :
      (n : UserRecordNode) (xs : List UserRecordNode)
      → p n ≡ true
      → AllTrue p xs
      → AllTrue p (map (overwrite n) xs)
  AllTrue-overwrite n [] h a = tt
  AllTrue-overwrite n (x ∷ xs) h a = ground (arith, AllTrue-overwrite n xs h a.1)

  -- An update to a node that passes keeps the test at every row.
  pub update_user-AllTrue :
      (n : UserRecordNode) (t : UserTable)
      → p n ≡ true
      → AllTrue p t.rows
      → AllTrue p (update_user n t).1.rows
  unfolding update_user
  update_user-AllTrue n t h a = ground (arith, AllTrue-overwrite n t.rows h a)

  pub delete_user-AllTrue :
      (n : UserRecordNode) (t : UserTable) → AllTrue p t.rows → AllTrue p (delete_user n t).1.rows
  unfolding delete_user
  delete_user-AllTrue n t a =
      ground (arith, AllTrue-keep p (λ r. not (has_name n.username r)) t.rows a)

  module _ ⦃q : Sqlite UserRecordNode⦄ where
    pub add_user-AllTrue :
        (n : UserRecordNode) (t : UserTable)
        → p n ≡ true
        → AllTrue p t.rows
        → AllTrue p (add_user n t).1.rows
    unfolding add_user
    add_user-AllTrue n t h a = ground (arith, AllTrue-append p t.rows (n ∷ []) a (h, tt))

    selected-passes :
        (rs : List UserRecordNode) (n : UserRecordNode)
        → p n ≡ true
        → AllTrue p rs
        → p (selected rs n).1 ≡ true
    unfolding selected
    selected-passes [] n h a = h
    selected-passes (r ∷ rs) n h a = q.pick_sound p r rs a.0 a.1

    -- The node that a SELECT leaves passes a test that the rows and the node before pass.
    pub get_single_user-passes :
        (m : UserRecordNode → Bool) (n : UserRecordNode) (t : UserTable)
        → p n ≡ true
        → AllTrue p t.rows
        → p (get_single_user m n t).1 ≡ true
    unfolding get_single_user
    get_single_user-passes m n t h a =
        ground (arith, selected-passes (keep m t.rows) n h (AllTrue-keep p m t.rows a))

-- Some row passes.
abbrev pub some_true {ℓ} : {R : Type ℓ} → (R → Bool) → List R → Bool
some_true p [] = false
some_true p (r ∷ rs) = p r || some_true p rs

-- A table that answers: it has a session, and its statements do not throw.
abbrev pub IsOpen : UserTable → Type 0
IsOpen t = (t.session ≡ true) × (t.broken ≡ false)

module _ (k : String) where
  -- After an update, a token selects the updated node, and others that had it.
  pub overwrite-token-AllTrue :
      (p : UserRecordNode → Bool) (n : UserRecordNode) (rs : List UserRecordNode)
      → p n ≡ true
      → AllTrue (λ r. not (has_token k r) || p r) rs
      → AllTrue p (keep (has_token k) (map (overwrite n) rs))
  overwrite-token-AllTrue p n [] h f = tt
  overwrite-token-AllTrue p n (r ∷ rs) h f = ground (arith, overwrite-token-AllTrue p n rs h f.1)

  pub overwrite-token-some :
      (n : UserRecordNode) (rs : List UserRecordNode)
      → n.token ≡ k
      → some_true (has_name n.username) rs ≡ true
      → some_true (has_token k) (map (overwrite n) rs) ≡ true
  overwrite-token-some n [] e h = h
  overwrite-token-some n (r ∷ rs) e h =
      ground (arith, overwrite-token-some n rs e, eq_iff n.token k)

  -- An update that takes the token away from the only user that carries it.
  pub overwrite-token-none :
      (n : UserRecordNode) (rs : List UserRecordNode)
      → has_token k n ≡ false
      → AllTrue (λ r. not (has_token k r) || has_name n.username r) rs
      → AllTrue (λ r. not (has_token k r)) (map (overwrite n) rs)
  overwrite-token-none n [] h a = tt
  overwrite-token-none n (r ∷ rs) h a = ground (arith, overwrite-token-none n rs h a.1)

module _ ⦃q : Sqlite UserRecordNode⦄ where
  pub keep-nil :
      (m : UserRecordNode → Bool) (rs : List UserRecordNode)
      → AllTrue (λ r. not (m r)) rs
      → keep m rs ≡ []
  keep-nil m [] h = refl
  keep-nil m (r ∷ rs) h = ground (arith, keep-nil m rs h.1)

  keep-cons :
      (m p : UserRecordNode → Bool) (rs : List UserRecordNode)
      → some_true m rs ≡ true
      → AllTrue p (keep m rs)
      → (r : UserRecordNode) × (xs : List UserRecordNode) × (keep m rs ≡ r ∷ xs)
        × (p r ≡ true)
        × AllTrue p xs
  keep-cons m p [] h a = ground arith
  keep-cons m p (r ∷ rs) h a = elim (Bool-cases (m r)) [
    | inl e ↦ (r, keep m rs, ground arith, ground arith, ground arith)
    | inr e ↦
        (let (x, xs, k, px, pxs) = keep-cons m p rs (ground arith) (ground arith) in
          (x, xs, ground arith, px, pxs))
  ]

  -- Where a row matches, a SELECT counts and leaves a node that passes what the matches pass.
  pub get_single_user-some :
      (m p : UserRecordNode → Bool) (t : UserTable) (n : UserRecordNode)
      → IsOpen t
      → some_true m t.rows ≡ true
      → AllTrue p (keep m t.rows)
      → let (c, x) = get_single_user m n t in ((c == pos 0) ≡ false) × (p x ≡ true)
  unfolding get_single_user selected
  get_single_user-some m p t n (o, b) h a =
      let (r, xs, e, pr, pxs) = keep-cons m p t.rows h a in
      (ground (arith), ground (arith, q.pick_sound p r xs pr pxs))

  pub get_single_user-none :
      (m : UserRecordNode → Bool) (t : UserTable) (n : UserRecordNode)
      → IsOpen t
      → AllTrue (λ r. not (m r)) t.rows
      → (get_single_user m n t).0 ≡ pos 0
  unfolding get_single_user selected
  get_single_user-none m t n (o, b) h = ground (arith, keep-nil m t.rows h)

pub keep-passes :
    (m p : UserRecordNode → Bool) (rs : List UserRecordNode)
    → AllTrue (λ r. not (m r) || p r) rs
    → AllTrue p (keep m rs)
keep-passes m p [] h = tt
keep-passes m p (r ∷ rs) h = ground (arith, keep-passes m p rs h.1)

pub some-or-none :
    (m : UserRecordNode → Bool) (rs : List UserRecordNode)
    → (some_true m rs ≡ true) ⊎ AllTrue (λ r. not (m r)) rs
some-or-none m [] = inr tt
some-or-none m (r ∷ rs) = elim (Bool-cases (m r)) [
  | inl e ↦ inl (ground arith)
  | inr e ↦ elim (some-or-none m rs) [ inl h ↦ inl (ground arith) | inr h ↦ inr (ground arith) ]
]

-- An update with a name and a password, in a table that answers.
pub update_user-written :
    (n : UserRecordNode) (t : UserTable)
    → IsOpen t
    → n.username ≢ ""
    → n.password ≢ ""
    → (update_user n t).1 ≡ record t { rows = map (overwrite n) t.rows }
unfolding update_user
update_user-written n t (o, b) u p = ground (arith, eq_iff n.username "", eq_iff n.password "")
