-- ===== src/Device/Tasks/Entries.antt =====
-- The entries of the task configuration, by their ids.
use shuchuang.Shared.{
  ℕ, ◌+◌, ◌≤◌, ◌≡◌, refl, ap, Bool, true, false, not, ◌&&◌, ◌||◌, Option, none, some, List, [], ◌∷◌,
  ◌++◌, arith, ◌==◌, if◌then◌else◌, is_some, nat_key, ◌⊎◌, inl, inr, Option-cases, Bool-cases,
  string_key,
}
use shuchuang.Shared.Int.{ℤ, pos, int_key, int_beq_iff}
use shuchuang.Shared.Dict.{Dict, find, insert, erase, find-insert, find-erase}
use shuchuang.Shared.Poco.{Json, AllTrue}
use shuchuang.Device.TaskTable.{TaskInfo, TaskHandler, task_info_to_struct, new_handler, to_uint8}
use shuchuang.Device.Tasks.{split_config}

module _ {O : Type 0} ⦃j : Json O⦄ where
  abbrev pub has_id : O → Bool
  has_id o = is_some (j.extract_int64 o "id")

  abbrev pub is_entry : ℤ → O → Bool
  is_entry id o = elim (j.extract_int64 o "id") [ none ↦ false | some i ↦ i == id ]

  -- The number of entries with an id.
  unfoldable pub count : ℤ → List O → ℕ
  count id [] = 0
  count id (o ∷ os) = if is_entry id o then 1 + count id os else count id os

  pub count-append : (id : ℤ) (xs ys : List O) → count id (xs ++ ys) ≡ count id xs + count id ys
  unfolding count
  count-append id [] ys = ground arith
  count-append id (x ∷ xs) ys = ground (arith, count-append id xs ys)

  pub count-cons :
      (id : ℤ) (x : O) (xs : List O)
      → count id (x ∷ xs) ≡ (if is_entry id x then 1 else 0) + count id xs
  unfolding count
  count-cons id x xs = ground arith

  -- Among entries with ids, either none has the id, or the first that has it is found.
  pub split_config-cases :
      (id : ℤ) (os : List O)
      → AllTrue has_id os
      → ((split_config id os ≡ some none) × (count id os ≡ 0))
        ⊎ ((b : List O) × (x : O) × (a : List O) × (split_config id os ≡ some (some (b, x, a)))
            × (os ≡ b ++ x ∷ a)
            × (j.extract_int64 x "id" ≡ some id)
            × AllTrue has_id b
            × AllTrue has_id a)
  unfolding split_config count
  split_config-cases id [] h = inl (refl, refl)
  split_config-cases id (o ∷ os) h = elim (Option-cases (j.extract_int64 o "id")) [
    | inl e ↦ ground arith
    | inr (i, ei) ↦ elim (Bool-cases (i == id)) [
      | inl e ↦ inr ([], o, os, ground arith, refl, ground (arith, int_beq_iff i id), tt, h.1)
      | inr e ↦ elim (split_config-cases id os h.1) [
        | inl (s, c) ↦ inl (ground arith, ground arith)
        | inr (b, x, a, s, eq, ex, hb, ha) ↦
            inr (o ∷ b, x, a, ground arith, ap (λ l. o ∷ l) eq, ex, (h.0, hb), ha)
      ]
    ]
  ]

-- The entry that is written for a task has its id.
pub task_info_to_struct-id :
    (O : Type 0) ⦃j : Json O⦄ (task : TaskInfo)
    → j.extract_int64 (task_info_to_struct {O = O} task) "id" ≡ some task.id
unfolding task_info_to_struct
task_info_to_struct-id O ⦃j⦄ task =
    rw
      (
        j.extract_int64-set_int, j.extract_int64-set_int, j.extract_int64-set_int,
        j.extract_int64-set_int, j.extract_int64-set_int, j.extract_int64-set_int64,
      )
      refl

-- A field of an entry is the given number.
abbrev pub is_number : Option ℤ → ℤ → Bool
is_number none z = false
is_number (some y) z = y == z

abbrev is_weekday : Option ℤ → ℕ → Bool
is_weekday none d = false
is_weekday (some y) d = to_uint8 y == d

abbrev is_activity : Option ℤ → Bool → Bool
is_activity none b = false
is_activity (some y) b = if b then y == pos 1 else not (y == pos 1)

-- An entry describes a task: what it does, when, on which days, and whether it is active.
abbrev pub describes : {O : Type 0} → ⦃j : Json O⦄ → TaskHandler → O → Bool
describes ⦃j⦄ h o =
    is_number (j.extract_int o "option") h.option
    && (is_number (j.extract_int o "hour") h.hour
        && (is_number (j.extract_int o "minute") h.minute
            && (is_weekday (j.extract_int o "weekday") h.weekday
                && is_activity (j.extract_int o "active") h.is_active)))

module _ (O : Type 0) ⦃j : Json O⦄ (task : TaskInfo) where
  struct-option : j.extract_int (task_info_to_struct {O = O} task) "option" ≡ some task.option
  unfolding task_info_to_struct
  struct-option =
      rw
        (
          j.extract_int-set_int, j.extract_int-set_int, j.extract_int-set_int,
          j.extract_int-set_int, j.extract_int-set_int,
        )
        refl

  struct-hour : j.extract_int (task_info_to_struct {O = O} task) "hour" ≡ some task.hour
  unfolding task_info_to_struct
  struct-hour =
      rw
        (j.extract_int-set_int, j.extract_int-set_int, j.extract_int-set_int, j.extract_int-set_int)
        refl

  struct-minute : j.extract_int (task_info_to_struct {O = O} task) "minute" ≡ some task.minute
  unfolding task_info_to_struct
  struct-minute = rw (j.extract_int-set_int, j.extract_int-set_int, j.extract_int-set_int) refl

  struct-weekday : j.extract_int (task_info_to_struct {O = O} task) "weekday" ≡ some task.weekday
  unfolding task_info_to_struct
  struct-weekday = rw (j.extract_int-set_int, j.extract_int-set_int) refl

  struct-active : j.extract_int (task_info_to_struct {O = O} task) "active" ≡ some task.active
  unfolding task_info_to_struct
  struct-active = rw j.extract_int-set_int refl

  -- The entry that is written for a task describes its handler.
  pub new_handler-describes :
      (serial : ℕ) → describes (new_handler serial task) (task_info_to_struct {O = O} task) ≡ true
  unfolding new_handler
  new_handler-describes serial =
      rw (struct-option, struct-hour, struct-minute, struct-weekday, struct-active) (ground arith)

-- Entries with another id pass what is asked of those with this one.
pub absent-entries :
    {O : Type 0} ⦃j : Json O⦄ (id : ℤ) (p : O → Bool) (os : List O)
    → count id os ≡ 0
    → AllTrue (λ o. not (is_entry id o) || p o) os
unfolding count
absent-entries id p [] z = tt
absent-entries id p (o ∷ os) z = (ground (arith, z), absent-entries id p os (ground (arith, z)))

-- Whether a task has the id, as a number.
unfoldable pub present : ℤ → Dict ℤ TaskHandler → ℕ
present id m = if is_some (find id m) then 1 else 0

pub present-insert :
    (id i : ℤ) (h : TaskHandler) (m : Dict ℤ TaskHandler)
    → present i m ≡ 0
    → present id (insert i h m) ≡ (if i == id then 1 else 0) + present id m
unfolding present
present-insert id i h m e = ground (arith, find-insert i id h m, int_beq_iff i id)

pub present-erase :
    (id i : ℤ) (m : Dict ℤ TaskHandler)
    → present id (erase i m) ≡ (if i == id then 0 else present id m)
unfolding present
present-erase id i m = ground (arith, find-erase i id m)

pub count-nil : (O : Type 0) ⦃j : Json O⦄ (id : ℤ) → count {O = O} id [] ≡ 0
unfolding count
count-nil O id = refl

pub present-erased : (i : ℤ) (m : Dict ℤ TaskHandler) → present i (erase i m) ≡ 0
unfolding present
present-erased i m = ground (arith, find-erase i i m)

pub present-bound : (i : ℤ) (m : Dict ℤ TaskHandler) → present i m ≤ 1
unfolding present
present-bound i m = ground arith

pub present-none : (i : ℤ) (m : Dict ℤ TaskHandler) → find i m ≡ none → present i m ≡ 0
unfolding present
present-none i m e = rw e refl

pub present-some :
    (i : ℤ) (h : TaskHandler) (m : Dict ℤ TaskHandler) → find i m ≡ some h → present i m ≡ 1
unfolding present
present-some i h m e = rw e refl
