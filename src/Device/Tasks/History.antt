-- ===== src/Device/Tasks/History.antt =====
-- Any sequence of requests to CTaskManager that change its tasks.
use shuchuang.Shared.{◌≡◌, none, Option, List, [], ◌∷◌}
use shuchuang.Shared.Int.{ℤ, int_key}
use shuchuang.Shared.Dict.{find}
use shuchuang.Shared.Outcome.{Action}
use shuchuang.Shared.Poco.{Json}
use shuchuang.Device.World.{World}
use shuchuang.Device.Tasks.{add_task, remove_task, modify_task}
use shuchuang.Device.Tasks.Stored.{Agrees, add_task-Agrees, remove_task-Agrees}
use shuchuang.Device.Tasks.Renewed.{modify_task-Agrees}

pub data Request : Type 0 where
  adds removes modifies : Request

-- A request comes with its parameter and the time.
pub record Event (O : Type 0) : Type 0 where
  pub request : Request
  pub param : Option O
  pub now : ℤ

module _ {O : Type 0} ⦃j : Json O⦄ where
  -- What a request finds.
  abbrev pub met : World O → Event O → World O
  met w e = record w { param = e.param; now = e.now }

  unfoldable pub handler : Request → Action (World O) (Unit {0})
  handler adds = add_task
  handler removes = remove_task
  handler modifies = modify_task

  unfoldable pub react : World O → Event O → World O
  unfolding handler
  react w e = (handler e.request (met w e)).1

  unfoldable pub history : World O → List (Event O) → World O
  unfolding react
  history w [] = w
  history w (e ∷ es) = history (react w e) es

  -- No task has the time of a request as its id when that request comes.
  unfoldable pub AllFresh : World O → List (Event O) → Type 0
  unfolding react
  AllFresh w [] = Unit
  AllFresh w (e ∷ es) = (find e.now w.tasks.task_map ≡ none) × AllFresh (react w e) es

  handler-Agrees :
      (r : Request) (w : World O)
      → find w.now w.tasks.task_map ≡ none
      → Agrees w
      → Agrees (handler r w).1
  unfolding handler
  handler-Agrees adds w fresh g = add_task-Agrees w fresh g
  handler-Agrees removes w fresh g = remove_task-Agrees w g
  handler-Agrees modifies w fresh g = modify_task-Agrees w g

  -- The tasks in memory and the task configuration agree after any sequence of requests that add, remove
  -- or modify a task, whether they end well or not, if they did before it and no request comes at a time
  -- that is the id of a task: each id has as many entries as tasks, one or none, and the entry of a task
  -- has its option, its hour, its minute, its days and whether it is active.
  pub history-Agrees :
      (w : World O) (es : List (Event O)) → AllFresh w es → Agrees w → Agrees (history w es)
  unfolding history react AllFresh Agrees
  history-Agrees w [] fresh g = g
  history-Agrees w (e ∷ es) (now, later) g =
      history-Agrees (react w e) es later (handler-Agrees e.request (met w e) now g)
