-- ===== src/Device/Tasks/Schedule.antt =====
-- When a task runs: `addToScheduleQueue` of CTaskManager and `run` of CTaskHandler,
-- Src/Device/Component/Task.
use shuchuang.Shared.{
  ℕ, zero, suc, ◌+◌, ◌&&◌, not, Bool-cases, ◌*◌, ◌%◌, ◌≤◌, ◌<◌, ◌≡◌, refl, Bool, true, false, some,
  arith, ◌==◌, nat_key, nat_beq, inl, inr,
}
use shuchuang.Shared.Int.{ℤ, pos, ◌-ℤ◌}
use shuchuang.Device.TaskTable.{
  TaskHandler, first_wait, first_time, local_minute, offset_us, minute_us, due, day_mask,
  day_of_week, has_bit,
}

-- The wait until the minute `des` of the day is at least two minutes and at most a day and a minute,
-- and it ends at that minute.
pub first_wait_bounds :
    (base des : ℕ)
    → des < 1440
    → (2 ≤ first_wait base des)
      × (first_wait base des ≤ 1441)
      × ((base + first_wait base des) % 1440 ≡ des)
unfolding first_wait
first_wait_bounds base des h = (ground arith, ground arith, ground arith)

-- A handler with an hour and a minute of a day gets a first time: the local minute of it shows that
-- hour and that minute, and it is two minutes to a day and a minute ahead of the local time.
pub first_time_lands :
    (now utc_offset : ℤ) (hour minute : ℕ) (h : TaskHandler)
    → h.hour ≡ pos hour
    → h.minute ≡ pos minute
    → hour < 24
    → minute < 60
    → (m : ℕ) × (first_time now utc_offset h ≡ some (pos (m * minute_us) -ℤ offset_us utc_offset))
      × (m % 1440 ≡ hour * 60 + minute)
      × (local_minute now utc_offset + 2 ≤ m)
      × (m ≤ local_minute now utc_offset + 1441)
unfolding first_time
first_time_lands now utc_offset hour minute h eh em lh lm =
    let base = local_minute now utc_offset in
    let (low, high, at) = first_wait_bounds base (hour * 60 + minute) (omega arith) in
    (
      base + first_wait base (hour * 60 + minute),
      rw (eh, em) (ground arith),
      at,
      omega arith,
      omega arith,
    )

all_below : ℕ → (ℕ → Bool) → Bool
all_below zero p = true
all_below (suc n) p = p n && all_below n p

all_below_sound : (n i : ℕ) (p : ℕ → Bool) → all_below n p ≡ true → i < n → p i ≡ true
unfolding all_below
all_below_sound zero i p h l = ground arith
all_below_sound (suc n) i p h l = elim (Bool-cases (nat_beq i n)) [
  | inl e ↦ (let e' : i ≡ n = ground arith in rw e' (ground arith))
  | inr e ↦ all_below_sound n i p (ground arith) (ground arith)
]

same_bool : Bool → Bool → Bool
same_bool true b = b
same_bool false b = not b

same_bool_sound : (a b : Bool) → same_bool a b ≡ true → a ≡ b
unfolding same_bool
same_bool_sound true true h = refl
same_bool_sound true false h = ground arith
same_bool_sound false true h = ground arith
same_bool_sound false false h = refl

-- The masks of two days share their bit if the days are one.
mask_table :
    all_below 7 (λ d. all_below 7 (λ e. same_bool (has_bit (day_mask e) (day_mask d)) (e == d)))
    ≡ true
unfolding all_below same_bool has_bit day_mask
mask_table = refl

days : (d e : ℕ) → d < 7 → e < 7 → has_bit (day_mask e) (day_mask d) ≡ (e == d)
days d e l k = same_bool_sound _ _ (
    all_below_sound 7 e _
      (all_below_sound 7 d
        (λ x. all_below 7 (λ y. same_bool (has_bit (day_mask y) (day_mask x)) (y == x))) mask_table
        l)
      k)

-- A task for one day of the week runs at a time if the UTC day of that time is this day, and not
-- otherwise, whatever the day is at the device.
pub due-day_mask :
    (now day : ℕ) (h : TaskHandler)
    → day < 7
    → h.weekday ≡ day_mask day
    → due now h ≡ (day_of_week now == day)
unfolding due day_of_week
due-day_mask now day h l e = rw e (days day (day_of_week now) l (omega arith))
