-- ===== src/Device/Tasks/Agree.antt =====
-- The tasks in memory and the task configuration of CTaskManager describe the same tasks.
use shuchuang.Shared.{
  ◌+◌, ◌≡◌, Bool, true, false, not, ◌||◌, ◌⊎◌, inl, inr, Bool-cases, some, List, [], ◌∷◌, ◌++◌,
  arith, ◌==◌, if◌then◌else◌, string_key,
}
use shuchuang.Shared.Int.{ℤ, int_key, int_beq_iff}
use shuchuang.Shared.Dict.{Dict, find, insert, erase, find-insert, find-erase}
use shuchuang.Shared.Poco.{Json, AllTrue}
use shuchuang.Device.UserTable.Rows.{AllTrue-append}
use shuchuang.Device.TaskTable.{TaskInfo, TaskHandler, task_info_to_struct}
use shuchuang.Device.Tasks.Entries.{
  count-nil, present-erased, present-bound, has_id, is_entry, count, count-append, count-cons,
  task_info_to_struct-id, absent-entries, describes, present, present-insert, present-erase,
}

-- Each id has as many entries in the configuration as it has tasks: one or none; and every entry
-- has an id; and the entries with the id of a task describe this task.
pub record AgreeOn {O : Type 0} ⦃j : Json O⦄ (m : Dict ℤ TaskHandler) (c : List O) : Type 0 where
  pub counted : (id : ℤ) → count id c ≡ present id m
  pub listed : AllTrue has_id c
  pub described :
      (id : ℤ) (h : TaskHandler)
      → find id m ≡ some h
      → AllTrue (λ o. not (is_entry id o) || describes h o) c

find-kept :
    (id i : ℤ) (k : TaskHandler) (m : Dict ℤ TaskHandler)
    → find i (erase id m) ≡ some k
    → find i m ≡ some k
find-kept id i k m e = ground (arith, e, find-erase id i m)

-- What is found after an insertion of a task that was not there.
found-cases :
    (id i : ℤ) (h k : TaskHandler) (m : Dict ℤ TaskHandler)
    → present id m ≡ 0
    → find i (insert id h m) ≡ some k
    → ((id ≡ i) × (k ≡ h)) ⊎ (((id == i) ≡ false) × (find i m ≡ some k))
unfolding present
found-cases id i h k m fresh e = elim (Bool-cases (id == i)) [
  | inl same ↦ inl (
    (int_beq_iff id i).0 same,
    ground (arith, e, find-insert id i h m, fresh, (int_beq_iff id i).0 same),
  )
  | inr other ↦ inr (other, ground (arith, e, find-insert id i h m))
]

module _ {O : Type 0} ⦃j : Json O⦄ where
  is_entry-some : (id i : ℤ) (x : O) → j.extract_int64 x "id" ≡ some i → is_entry id x ≡ (i == id)
  is_entry-some id i x e = ground arith

  AllTrue-middle :
      (p : O → Bool) (b a : List O) (x : O)
      → AllTrue p b
      → p x ≡ true
      → AllTrue p a
      → AllTrue p (b ++ x ∷ a)
  AllTrue-middle p b a x hb hx ha = AllTrue-append p b (x ∷ a) hb (hx, ha)

  AllTrue-replaced :
      (p : O → Bool) (b a : List O) (x y : O)
      → p y ≡ true
      → AllTrue p (b ++ x ∷ a)
      → AllTrue p (b ++ y ∷ a)
  AllTrue-replaced p [] a x y h (hx, ha) = (h, ha)
  AllTrue-replaced p (o ∷ b) a x y h (ho, hs) = (ho, AllTrue-replaced p b a x y h hs)

  AllTrue-without :
      (p : O → Bool) (b a : List O) (x : O) → AllTrue p (b ++ x ∷ a) → AllTrue p (b ++ a)
  AllTrue-without p [] a x (hx, ha) = ha
  AllTrue-without p (o ∷ b) a x (ho, hs) = (ho, AllTrue-without p b a x hs)

  AllTrue-last :
      (id : ℤ) (p : O → Bool) (c : List O) (y : O)
      → count id c ≡ 0
      → p y ≡ true
      → AllTrue (λ o. not (is_entry id o) || p o) (c ++ y ∷ [])
  AllTrue-last id p c y z h =
      AllTrue-append _ c (y ∷ []) (absent-entries id p c z) (ground (arith, h), tt)

  -- Where the entries beside `y` have another id, they all pass if `y` does.
  AllTrue-only :
      (id : ℤ) (p : O → Bool) (b a : List O) (y : O)
      → count id (b ++ a) ≡ 0
      → p y ≡ true
      → AllTrue (λ o. not (is_entry id o) || p o) (b ++ y ∷ a)
  AllTrue-only id p [] a y z h = (ground (arith, h), absent-entries id p a z)
  AllTrue-only id p (o ∷ b) a y z h = (
    ground (arith, z, count-cons id o (b ++ a)),
    AllTrue-only id p b a y (ground (arith, z, count-cons id o (b ++ a))) h,
  )

  count-middle :
      (id i : ℤ) (b a : List O) (x : O)
      → j.extract_int64 x "id" ≡ some i
      → count id (b ++ x ∷ a) ≡ (if i == id then 1 else 0) + count id (b ++ a)
  count-middle id i b a x e = ground (
    arith,
    count-append id b (x ∷ a),
    count-append id b a,
    count-cons id x a,
    is_entry-some id i x e,
  )

  store-described :
      (task : TaskInfo) (h : TaskHandler) (m : Dict ℤ TaskHandler) (c : List O) (id : ℤ)
      (k : TaskHandler)
      → present task.id m ≡ 0
      → describes h (task_info_to_struct {O = O} task) ≡ true
      → AgreeOn m c
      → find id (insert task.id h m) ≡ some k
      → AllTrue (λ o. not (is_entry id o) || describes k o) (c ++ task_info_to_struct task ∷ [])
  store-described task h m c id k fresh d a e =
      let s : O = task_info_to_struct task in
      let z : count task.id c ≡ 0 = ground (arith, a.counted task.id) in
      elim (found-cases task.id id h k m fresh e) [
        | inl (same, it) ↦ rw⁻¹ same (rw it (AllTrue-last task.id (describes h) c s z d))
        | inr (other, e') ↦
            AllTrue-append _ c (s ∷ []) (a.described id k e')
              (ground (arith, is_entry-some id task.id s (task_info_to_struct-id O task)), tt)
      ]

  pub store-AgreeOn :
      (task : TaskInfo) (h : TaskHandler) (m : Dict ℤ TaskHandler) (c : List O)
      → present task.id m ≡ 0
      → describes h (task_info_to_struct {O = O} task) ≡ true
      → AgreeOn m c
      → AgreeOn (insert task.id h m) (c ++ task_info_to_struct task ∷ [])
  store-AgreeOn task h m c fresh d a =
      let s : O = task_info_to_struct task in
      let e = task_info_to_struct-id O task in
      record {
        counted = λ id. ground (
          arith,
          count-append id c (s ∷ []),
          count-cons id s [],
          count-nil O id,
          is_entry-some id task.id s e,
          present-insert id task.id h m fresh,
          a.counted id,
        );
        listed = AllTrue-middle has_id c [] s a.listed (ground arith) tt;
        described = λ id k e. store-described task h m c id k fresh d a e;
      }

  pub erase-AgreeOn :
      (id : ℤ) (m : Dict ℤ TaskHandler) (b a : List O) (x : O)
      → j.extract_int64 x "id" ≡ some id
      → AllTrue has_id b
      → AllTrue has_id a
      → AgreeOn m (b ++ x ∷ a)
      → AgreeOn (erase id m) (b ++ a)
  erase-AgreeOn id m b a x e hb ha g = record {
    counted = λ i.
        ground
          (arith, count-middle i id b a x e, g.counted i, present-erase i id m, present-bound i m);
    listed = AllTrue-append has_id b a hb ha;
    described = λ i k e. AllTrue-without _ b a x (g.described i k (find-kept id i k m e));
  }

  pub absent-AgreeOn :
      (id : ℤ) (m : Dict ℤ TaskHandler) (c : List O)
      → count id c ≡ 0
      → AgreeOn m c
      → AgreeOn (erase id m) c
  absent-AgreeOn id m c z g = record {
    counted = λ i. ground (arith, present-erase i id m, g.counted i, int_beq_iff id i);
    listed = g.listed;
    described = λ i k e. g.described i k (find-kept id i k m e);
  }

  renewed-described :
      (task : TaskInfo) (h : TaskHandler) (m : Dict ℤ TaskHandler) (b a : List O) (x : O) (id : ℤ)
      (k : TaskHandler)
      → j.extract_int64 x "id" ≡ some task.id
      → present task.id m ≡ 1
      → describes h (task_info_to_struct {O = O} task) ≡ true
      → AgreeOn m (b ++ x ∷ a)
      → find id (insert task.id h (erase task.id m)) ≡ some k
      → AllTrue (λ o. not (is_entry id o) || describes k o) (b ++ task_info_to_struct task ∷ a)
  renewed-described task h m b a x id k ex one d g e =
      let s : O = task_info_to_struct task in
      let z : count task.id (b ++ a) ≡ 0 = ground (
        arith,
        g.counted task.id,
        count-middle task.id task.id b a x ex,
        int_beq_iff task.id task.id,
      ) in
      elim (found-cases task.id id h k (erase task.id m) (present-erased task.id m) e) [
        | inl (same, it) ↦ rw⁻¹ same (rw it (AllTrue-only task.id (describes h) b a s z d))
        | inr (other, e') ↦
            AllTrue-replaced _ b a x s
              (ground (arith, is_entry-some id task.id s (task_info_to_struct-id O task)))
              (g.described id k (find-kept task.id id k m e'))
      ]

  -- The task gets a new handler, and its entry is written again.
  pub renewed-AgreeOn :
      (task : TaskInfo) (h : TaskHandler) (m : Dict ℤ TaskHandler) (b a : List O) (x : O)
      → j.extract_int64 x "id" ≡ some task.id
      → present task.id m ≡ 1
      → describes h (task_info_to_struct {O = O} task) ≡ true
      → AllTrue has_id b
      → AllTrue has_id a
      → AgreeOn m (b ++ x ∷ a)
      → AgreeOn (insert task.id h (erase task.id m)) (b ++ task_info_to_struct task ∷ a)
  renewed-AgreeOn task h m b a x ex one d hb ha g =
      let s : O = task_info_to_struct task in
      let e = task_info_to_struct-id O task in
      record {
        counted = λ i. ground (
          arith,
          g.counted i,
          count-middle i task.id b a s e,
          count-middle i task.id b a x ex,
          present-insert i task.id h (erase task.id m) (present-erased task.id m),
          present-erase i task.id m,
          int_beq_iff task.id i,
        );
        listed = AllTrue-middle has_id b a s hb (ground arith) ha;
        described = λ i k f. renewed-described task h m b a x i k ex one d g f;
      }
