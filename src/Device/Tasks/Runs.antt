-- ===== src/Device/Tasks/Runs.antt =====
-- `run` of CTaskHandler, Src/Device/Component/Task/TaskHandler.cpp: what the timer does with a task when
-- its time has come.
use shuchuang.Shared.{
  ℕ, ◌+◌, ◌%◌, ◌<◌, ◌≡◌, refl, ap, Bool, true, false, none, map, arith, not, ltb, ◌==◌,
  if◌then◌else◌, nat_key, Bool-cases, inl, inr,
}
use shuchuang.Shared.Int.{ℤ, pos, pos_part, int_key}
use shuchuang.Shared.Outcome.{Outcome, ok, thrown, Action, pure, get, ◌>>=◌, ◌>>◌}
use shuchuang.Shared.Poco.{Json, Sqlite}
use shuchuang.Device.UserTable.{UserRecordNode}
use shuchuang.Device.TaskTable.{TaskHandler, Scheduled, TaskManager, due, day_mask, day_of_week}
use shuchuang.Device.Tasks.Schedule.{due-day_mask}
use shuchuang.Device.World.{World, on_tasks, on_ops, on_door}
use shuchuang.Device.Door.{switch, open_door, open_closed, close_door, close_open, log_switch}

-- `m_running` of one object, wherever it is referred to.
unfoldable pub set_running : ℕ → TaskHandler → TaskHandler
set_running serial h = if h.serial == serial then record h { running = true } else h

-- What the door says is not asked.
abbrev unasked : Outcome (Unit {0}) → Outcome (Unit {0})
unasked thrown = thrown
unasked _ = ok tt

module _ {O : Type 0} where
  unfoldable pub mark : TaskHandler → TaskManager O → TaskManager O
  unfolding set_running
  mark h t = record t {
    task_map = map (λ (e : ℤ × TaskHandler). (e.0, set_running h.serial e.1)) t.task_map;
    queue = map (λ (e : Scheduled). record e { handler = set_running h.serial e.handler }) t.queue;
  }

  -- A handler that gets a null pointer for its parameter.
  unfoldable pub with_nil : Action (World O) (Unit {0}) → Action (World O) (Unit {0})
  with_nil m w =
      let (r, w') = m (record w { param = none }) in (unasked r, record w' { param = w.param })

module _ {O : Type 0} ⦃j : Json O⦄ ⦃q : Sqlite UserRecordNode⦄ where
  unfoldable pub run : TaskHandler → Action (World O) (Unit {0})
  unfolding mark with_nil
  run h = do
    on_tasks (mark h)
    w ← get
    if due (pos_part w.now) h
        then with_nil (if h.option == pos 0 then close_door else open_door)
        else pure tt

  -- The handler ended well, the door is as it says, and no user pays for it.
  abbrev Leaves : Bool → World O → Outcome (Unit {0}) × World O → Type 0
  Leaves opened w (r, w') = (r ≡ ok tt) × (w'.door.door_open ≡ opened) × (w'.users ≡ w.users)

  open_by_task : (w : World O) → (w.door.fd == pos 0) ≡ false → Leaves true w (with_nil open_door w)
  unfolding with_nil open_door open_closed log_switch switch on_ops on_door ◌>>=◌
  open_by_task w e = elim (Bool-cases w.door.door_open) [
    | inl o ↦ rw (e, o) (refl, refl, refl)
    | inr o ↦ rw (e, o) (refl, refl, refl)
  ]

  close_by_task :
      (w : World O) → (w.door.fd == pos 0) ≡ false → Leaves false w (with_nil close_door w)
  unfolding with_nil close_door close_open log_switch switch on_ops on_door ◌>>=◌
  close_by_task w e = elim (Bool-cases w.door.door_open) [
    | inl o ↦ rw (e, o) (refl, refl, refl)
    | inr o ↦ rw (e, o) (refl, refl, refl)
  ]

  by_option :
      (b : Bool) (w : World O)
      → (w.door.fd == pos 0) ≡ false
      → Leaves (not b) w (with_nil (if b then close_door else open_door) w)
  by_option true w e = close_by_task w e
  by_option false w e = open_by_task w e

  if_due :
      (d b : Bool) (w : World O)
      → (w.door.fd == pos 0) ≡ false
      → Leaves
          (if d then not b else w.door.door_open)
          w
          ((if d then with_nil (if b then close_door else open_door) else pure tt) w)
  unfolding pure
  if_due true b w e = by_option b w e
  if_due false b w e = (refl, refl, refl)

  run-door :
      (h : TaskHandler) (w : World O)
      → (w.door.fd == pos 0) ≡ false
      → Leaves
          (if due (pos_part w.now) h then not (h.option == pos 0) else w.door.door_open)
          w
          (run h w)
  unfolding run on_tasks ◌>>=◌
  run-door h w e =
      if_due (due (pos_part w.now) h) (h.option == pos 0) (record w { tasks = mark h w.tasks }) e

-- The day of the week by a local clock that is ahead of UTC, from that of UTC.
day_of_week-ahead :
    (now ahead : ℕ)
    → ahead < 86400000000
    → day_of_week (now + ahead) ≡ (
        if ltb ((now + ahead) % 86400000000) ahead
        then (day_of_week now + 1) % 7
        else day_of_week now)
unfolding day_of_week
day_of_week-ahead now ahead l = ground arith

same_next_day :
    (b : Bool) (d e : ℕ)
    → d < 7
    → e < 7
    → (d == e) ≡ ((if b then (d + 1) % 7 else d) == (if b then (e + 1) % 7 else e))
same_next_day true d e l k = ground arith
same_next_day false d e l k = refl

day_of_week_bound : (now : ℕ) → day_of_week now < 7
unfolding day_of_week
day_of_week_bound now = omega arith

-- A task for one day is due, by a local clock that is ahead, on the day after while the local time of
-- day is below the offset, and on its day from then on.
due-ahead :
    (now ahead day : ℕ) (h : TaskHandler)
    → day < 7
    → ahead < 86400000000
    → h.weekday ≡ day_mask day
    → due now h ≡ (
        day_of_week (now + ahead)
        == (if ltb ((now + ahead) % 86400000000) ahead then (day + 1) % 7 else day))
due-ahead now ahead day h l a e =
    rw (due-day_mask now day h l e, day_of_week-ahead now ahead a)
      (same_next_day (ltb ((now + ahead) % 86400000000) ahead) (day_of_week now) day
        (day_of_week_bound now) l)

module _ {O : Type 0} ⦃j : Json O⦄ ⦃q : Sqlite UserRecordNode⦄ where
  -- A task for one day of the week, run on a device that has its port and whose local time is ahead of
  -- UTC by less than a day: it ends well, and opens the door, or closes it where its option is 0, on its
  -- local day; but while the local time of day is below the offset it does so on the day after, and on
  -- its own day it leaves the door as it is. No user pays for it.
  pub run-local_day :
      (now ahead day : ℕ) (h : TaskHandler) (w : World O)
      → day < 7
      → h.weekday ≡ day_mask day
      → ahead < 86400000000
      → w.now ≡ pos now
      → (w.door.fd == pos 0) ≡ false
      → let (r, w') = run h w in
        let runs_on = if ltb ((now + ahead) % 86400000000) ahead then (day + 1) % 7 else day in
        (r ≡ ok tt)
        × (w'.door.door_open ≡ (
            if day_of_week (now + ahead) == runs_on
            then not (h.option == pos 0)
            else w.door.door_open))
        × (w'.users ≡ w.users)
  run-local_day now ahead day h w l m a n e =
      rw⁻¹ (due-ahead now ahead day h l a m) (rw (ap pos_part n) at (run-door h w e))
