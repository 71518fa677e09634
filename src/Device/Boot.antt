-- ===== src/Device/Boot.antt =====
-- The main function of the device, Src/Device/Main.cpp, from the setting of the clock to the tasks, with
-- the constructor of CTaskManager, Src/Device/Component/Task/TaskManager.cpp.
use shuchuang.Shared.{
  String, ◌≡◌, refl, Bool, true, false, Option, none, some, List, [], ◌∷◌, if◌then◌else◌,
  Bool-cases, inl, inr,
}
use shuchuang.Shared.Int.{ℤ, pos}
use shuchuang.Shared.Outcome.{Outcome, ok, failed, thrown, Action, ◌>>=◌, ◌>>◌}
use shuchuang.Shared.Outcome.Keeps.{Keeps}
use shuchuang.Shared.Poco.{Json}
use shuchuang.Common.Config.{get_object}
use shuchuang.Device.TaskTable.{TaskManager}
use shuchuang.Device.World.{World, on_tasks}
use shuchuang.Device.Tasks.{load_tasks_config}
use shuchuang.Device.Tasks.History.{
  Request, adds, removes, modifies, Event, handler, react, met, history,
}
use shuchuang.Device.Tasks.Timed.{IsOn, AllTimed, add_task-IsOn}
use shuchuang.Device.Tasks.Timed.Kept.{remove_task-IsOn, modify_task-IsOn, load_tasks_config-IsOn}
use shuchuang.Device.System.Clock.{
  Clock, at_start, Ntp, on_ntp_event, request, request_host, synchronize_time,
}

-- The offset that the start of the device ends up with, by what the host answered.
abbrev pub synchronized : Ntp → Option ℤ → ℤ
synchronized ntp none = pos 0
synchronized ntp (some t) = if ntp.can_set then ntp.offset else pos 0

request-synchronized :
    (ntp : Ntp) (a : Option ℤ) (time : ℤ)
    → let (r, c) = request ntp a (at_start time) in
      (b : Bool) × (r ≡ ok b) × (c.utc_offset ≡ synchronized ntp a)
unfolding request on_ntp_event ◌>>=◌
request-synchronized ntp none time = (false, refl, refl)
request-synchronized ntp (some t) time = elim (Bool-cases ntp.can_set) [
  | inl e ↦ (true, rw e refl, rw e refl)
  | inr e ↦ (true, rw e refl, rw e refl)
]

module _ {O : Type 0} where
  -- The members that the constructor sets; the offset is read once.
  unfoldable pub no_tasks : ℤ → TaskManager O → TaskManager O
  no_tasks offset t = record t { task_map = []; task_config = []; queue = []; utc_offset = offset }

module _ {O : Type 0} ⦃j : Json O⦄ where
  -- `CTaskManager()`.
  unfoldable pub construct_tasks : (O → Option O) → ℤ → Action (World O) (Unit {0})
  construct_tasks reparse offset = do on_tasks (no_tasks offset); load_tasks_config reparse

  -- What `synchronizeTime` says is not asked; what it throws ends `main`.
  unfoldable pub with_clock : (O → Option O) → Outcome Bool → Clock → Action (World O) (Unit {0})
  with_clock reparse (ok b) c w = construct_tasks reparse c.utc_offset (record w { now = c.time })
  with_clock reparse (failed d) c w = (thrown, w)
  with_clock reparse thrown c w = (thrown, w)

  unfoldable pub boot : Ntp → (O → Option O) → Action (World O) (Unit {0})
  unfolding with_clock
  boot ntp reparse w =
      let (r, c) = synchronize_time w.config ntp (at_start w.now) in with_clock reparse r c w

  construct_tasks-IsOn :
      (reparse : O → Option O) (offset : ℤ) (w : World O)
      → IsOn offset (construct_tasks reparse offset w).1
  unfolding construct_tasks on_tasks no_tasks ◌>>=◌
  construct_tasks-IsOn reparse offset w =
      (load_tasks_config-IsOn offset reparse).at _ (record { offset_is = refl; timed = tt })

  with_clock-IsOn :
      (reparse : O → Option O) (r : Outcome Bool) (c : Clock) (b : Bool) (w : World O)
      → r ≡ ok b
      → IsOn c.utc_offset (with_clock reparse r c w).1
  unfolding with_clock
  with_clock-IsOn reparse r c b w e =
      rw e (construct_tasks-IsOn reparse c.utc_offset (record w { now = c.time }))

  handler-IsOn : (offset : ℤ) (r : Request) → Keeps (IsOn {O = O} offset) (handler r)
  unfolding handler
  handler-IsOn offset adds = add_task-IsOn offset
  handler-IsOn offset removes = remove_task-IsOn offset
  handler-IsOn offset modifies = modify_task-IsOn offset

  history-IsOn :
      (offset : ℤ) (w : World O) (es : List (Event O)) → IsOn offset w → IsOn offset (history w es)
  unfolding history react
  history-IsOn offset w [] h = h
  history-IsOn offset w (e ∷ es) h = history-IsOn offset (react w e) es (
      (handler-IsOn offset e.request).at (met w e)
        (record { offset_is = h.offset_is; timed = h.timed }))

  boot-IsOn :
      (ntp : Ntp) (reparse : O → Option O) (w : World O) (o : O) (host : String)
      → (get_object "RegProxy" w.config).0 ≡ ok (some o)
      → j.get_string o "host" ≡ some host
      → IsOn (synchronized ntp (ntp.answer host)) (boot ntp reparse w).1
  unfolding boot synchronize_time request_host ◌>>=◌
  boot-IsOn ntp reparse w o host e h =
      let (b, done, at) = request-synchronized ntp (ntp.answer host) w.now in
      rw (e, h) (rw⁻¹ at (with_clock-IsOn reparse _ _ b w done))

  -- After a start of the device whose configuration names a host, and any requests that add, remove or
  -- modify a task, the first time of every task that waits in the queue shows the hour and the minute of
  -- the task: in local time where the host answered at the start and the clock could be set, and in UTC
  -- otherwise.
  pub boot-history :
      (ntp : Ntp) (reparse : O → Option O) (w : World O) (o : O) (host : String)
      (es : List (Event O))
      → (get_object "RegProxy" w.config).0 ≡ ok (some o)
      → j.get_string o "host" ≡ some host
      → AllTimed
          (synchronized ntp (ntp.answer host))
          (history (boot ntp reparse w).1 es).tasks.queue
  boot-history ntp reparse w o host es e h =
      (history-IsOn (synchronized ntp (ntp.answer host)) (boot ntp reparse w).1 es
        (boot-IsOn ntp reparse w o host e h)).timed
