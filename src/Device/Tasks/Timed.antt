-- ===== src/Device/Tasks/Timed.antt =====
-- The queue of the timer of CTaskManager, Src/Device/Component/Task/TaskManager.cpp: when the tasks in
-- it run, by the offset of the local time that the manager has.
pub mod Kept
use shuchuang.Shared.{
  ℕ, ◌+◌, ◌*◌, ◌%◌, ◌<◌, ◌≡◌, refl, Bool, false, Option, none, some, List, [], ◌∷◌, ◌++◌, arith,
  keep, nat_key, if-rule,
}
use shuchuang.Shared.Int.{ℤ, pos, negsuc, ◌-ℤ◌, int_key, ltb_ℤ}
use shuchuang.Shared.Outcome.{Action, or_throw, get, ◌>>=◌}
use shuchuang.Shared.Outcome.Keeps.{Keeps, Keeps-modify, Keeps-bind-get, Keeps-bind, keeps_rules}
use shuchuang.Shared.Poco.{Json}
use shuchuang.Common.Config.{Config}
use shuchuang.Device.TaskTable.{
  TaskInfo, TaskHandler, Scheduled, TaskManager, first_time, minute_us, offset_us, cancel,
}
use shuchuang.Device.World.{World, on_tasks, on_config, the_param, write_param}
use shuchuang.Device.Tasks.{
  make_handler, add_to_schedule_queue, schedule_active, struct_to_task_info, set_task_config,
  checked_task, store_task, add_task, drop_handler,
}
use shuchuang.Device.Tasks.Schedule.{first_time_lands}

-- The first time of a task shows its hour and its minute at an offset.
pub record IsTimed (offset : ℤ) (e : Scheduled) : Type 0 where
  pub at : ℕ
  pub hour : ℕ
  pub minute : ℕ
  pub of_hour : e.handler.hour ≡ pos hour
  pub of_minute : e.handler.minute ≡ pos minute
  pub first : e.first ≡ pos (at * minute_us) -ℤ offset_us offset
  pub shows : at % 1440 ≡ hour * 60 + minute

abbrev pub AllTimed : ℤ → List Scheduled → Type 0
AllTimed offset [] = Unit
AllTimed offset (e ∷ es) = IsTimed offset e × AllTimed offset es

pub record IsOn {O : Type 0} (offset : ℤ) (w : World O) : Type 0 where
  pub offset_is : w.tasks.utc_offset ≡ offset
  pub timed : AllTimed offset w.tasks.queue

hour_range :
    (z : ℤ) (n : ℕ)
    → ltb_ℤ z (pos 0) ≡ false
    → ltb_ℤ (pos n) z ≡ false
    → (h : ℕ) × (z ≡ pos h) × (h < n + 1)
hour_range (pos h) n a b = (h, refl, ground arith)
hour_range (negsuc h) n a b = ground arith

ranges :
    (now offset first : ℤ) (h : TaskHandler)
    → first_time now offset h ≡ some first
    → (ltb_ℤ h.hour (pos 0) ≡ false)
      × (ltb_ℤ (pos 23) h.hour ≡ false)
      × (ltb_ℤ h.minute (pos 0) ≡ false)
      × (ltb_ℤ (pos 59) h.minute ≡ false)
unfolding first_time
ranges now offset first h e = ground (arith, e)

first_time-IsTimed :
    (now offset first : ℤ) (h : TaskHandler)
    → first_time now offset h ≡ some first
    → IsTimed offset (record { handler = h; first = first })
first_time-IsTimed now offset first h e =
    let (h0, h23, m0, m59) = ranges now offset first h e in
    let (hour, eh, lh) = hour_range h.hour 23 h0 h23 in
    let (minute, em, lm) = hour_range h.minute 59 m0 m59 in
    let (m, at, shows, low, high) = first_time_lands now offset hour minute h eh em lh lm in
    record {
      at = m;
      hour = hour;
      minute = minute;
      of_hour = eh;
      of_minute = em;
      first = cc;
      shows = shows;
    }

AllTimed-append :
    (offset : ℤ) (es fs : List Scheduled)
    → AllTimed offset es
    → AllTimed offset fs
    → AllTimed offset (es ++ fs)
AllTimed-append offset [] fs h k = k
AllTimed-append offset (e ∷ es) fs (t, h) k = (t, AllTimed-append offset es fs h k)

AllTimed-keep :
    (offset : ℤ) (p : Scheduled → Bool) (es : List Scheduled)
    → AllTimed offset es
    → AllTimed offset (keep p es)
AllTimed-keep offset p [] h = tt
AllTimed-keep offset p (e ∷ es) (t, h) =
    if-rule (AllTimed offset) (p e) (λ _. (t, AllTimed-keep offset p es h))
      (λ _. AllTimed-keep offset p es h)

module _ {O : Type 0} (offset : ℤ) where
  pub Keeps-same_queue :
      (f : TaskManager O → TaskManager O)
      → ((t : TaskManager O) → (f t).utc_offset ≡ t.utc_offset)
      → ((t : TaskManager O) → (f t).queue ≡ t.queue)
      → Keeps (IsOn offset) (on_tasks f)
  unfolding on_tasks
  Keeps-same_queue f o q =
      Keeps-modify _
        (λ w h. record { offset_is = rw (o w.tasks) h.offset_is; timed = rw (q w.tasks) h.timed })

  pub make_handler-IsOn : (task : TaskInfo) → Keeps (IsOn {O = O} offset) (make_handler task)
  unfolding make_handler
  make_handler-IsOn task =
      Keeps-bind-get _ (λ w h.
        Keeps-bind _ _ (Keeps-same_queue _ (λ t. refl) (λ t. refl)) (λ u. search keeps_rules))

  schedule-IsOn :
      (h : TaskHandler) (o : Option ℤ) (w : World O)
      → first_time w.now offset h ≡ o
      → IsOn offset w
      → IsOn offset
          ((or_throw o >>= λ first.
              on_tasks
                (λ t. record t { queue = t.queue ++ record { handler = h; first = first } ∷ [] }))
            w).1
  unfolding ◌>>=◌ on_tasks
  schedule-IsOn h none w e i = i
  schedule-IsOn h (some first) w e i = record {
    offset_is = i.offset_is;
    timed =
        AllTimed-append offset w.tasks.queue _ i.timed
          (first_time-IsTimed w.now offset first h e, tt);
  }

  add_to_schedule_queue-IsOn :
      (h : TaskHandler) → Keeps (IsOn {O = O} offset) (add_to_schedule_queue h)
  unfolding add_to_schedule_queue get or_throw ◌>>=◌ on_tasks
  add_to_schedule_queue-IsOn h = record {
    at = λ w i. schedule-IsOn h (first_time w.now w.tasks.utc_offset h) w (rw i.offset_is refl) i;
  }

  pub on_config-IsOn :
      {A : Type 0} (m : Action (Config O) A) → Keeps (IsOn {O = O} offset) (on_config m)
  unfolding on_config
  on_config-IsOn m = record { at = λ w i. record { offset_is = i.offset_is; timed = i.timed } }

  pub write_param-IsOn : (o : O) → Keeps (IsOn {O = O} offset) (write_param o)
  unfolding write_param
  write_param-IsOn o = Keeps-modify _ (λ w i. record { offset_is = i.offset_is; timed = i.timed })

  pub the_param-IsOn : Keeps (IsOn {O = O} offset) the_param
  unfolding the_param
  the_param-IsOn = search keeps_rules

  pub schedule_active-IsOn : (h : TaskHandler) → Keeps (IsOn {O = O} offset) (schedule_active h)
  unfolding schedule_active
  schedule_active-IsOn h = search (add_to_schedule_queue-IsOn, keeps_rules)

module _ {O : Type 0} ⦃j : Json O⦄ (offset : ℤ) where
  pub drop_handler-IsOn :
      (id : ℤ) (h : TaskHandler) → Keeps (IsOn {O = O} offset) (drop_handler id h)
  unfolding drop_handler on_tasks cancel
  drop_handler-IsOn id h = Keeps-modify _ (λ w i. record {
    offset_is = i.offset_is;
    timed = AllTimed-keep offset _ w.tasks.queue i.timed;
  })

  pub ruleset timed_rules = (
    keeps_rules, make_handler-IsOn, schedule_active-IsOn, drop_handler-IsOn, on_config-IsOn,
    write_param-IsOn, the_param-IsOn, Keeps-same_queue,
  )

  pub set_task_config-IsOn :
      (config : List O) → Keeps (IsOn {O = O} offset) (set_task_config config)
  unfolding set_task_config
  set_task_config-IsOn config = search timed_rules depth 40

  pub struct_to_task_info-IsOn : (ds : O) → Keeps (IsOn {O = O} offset) (struct_to_task_info ds)
  unfolding struct_to_task_info
  struct_to_task_info-IsOn ds = search timed_rules depth 40

  store_task-IsOn : (task : TaskInfo) → Keeps (IsOn {O = O} offset) (store_task task)
  unfolding store_task
  store_task-IsOn task = search (timed_rules, set_task_config-IsOn) depth 40

  checked_task-IsOn : Keeps (IsOn {O = O} offset) checked_task
  unfolding checked_task
  checked_task-IsOn = search (timed_rules, struct_to_task_info-IsOn) depth 40

  pub add_task-IsOn : Keeps (IsOn {O = O} offset) add_task
  unfolding add_task
  add_task-IsOn = search (timed_rules, checked_task-IsOn, store_task-IsOn) depth 40
