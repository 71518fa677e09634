-- ===== src/Device/Rpc/Server.antt =====
-- CRPCServer, Src/Device/RPC/RPCServer.cpp: the queue of the requests, the thread that gives each one
-- to a task of its own, and the answers that it posts to CRegProxy.
pub mod Order
pub mod Stuck
use shuchuang.Shared.{
  ℕ, zero, suc, String, Bool, true, false, Option, none, some, List, [], ◌∷◌, ◌++◌, length, ltb,
  if◌then◌else◌,
}

-- A `RequestNotification` with its number and its text; a CRPCClient that runs has the same two.
pub record Request : Type 0 where
  pub id : ℕ
  pub text : String

-- `alive` is false once an exception has ended the thread of `run`; `joining` says that a call of
-- `stop` waits for this thread. `running` are the clients of the tasks, and `posted` the answers with
-- the numbers of their requests.
pub record RpcServer (O : Type 0) : Type 0 where
  pub started : Bool
  pub alive : Bool
  pub joining : Bool
  pub queue : List Request
  pub running : List Request
  pub posted : List (ℕ × O)

-- The client at a position and those that are left.
unfoldable pub take_out : ℕ → List Request → Option (Request × List Request)
take_out k [] = none
take_out zero (r ∷ rs) = some (r, rs)
take_out (suc k) (r ∷ rs) =
    let rest = take_out k rs in elim rest [ none ↦ none | some (c, left) ↦ some (c, r ∷ left) ]

module _ {O : Type 0} where
  unfoldable pub start : RpcServer O → RpcServer O
  start s = if s.started then s else record s { started = true; alive = true }

  -- `stop` up to the `join` of the thread. It does not take `m_started` back.
  unfoldable pub stop : RpcServer O → RpcServer O
  stop s = if s.started then record s { queue = []; joining = true } else s

  unfoldable pub add_request : Request → RpcServer O → RpcServer O
  add_request r s = record s { queue = s.queue ++ r ∷ [] }

  -- A round of `run` for the first request of the queue: `m_task_manager->start` throws where all
  -- threads of the pool are busy, and nothing catches that.
  unfoldable pub give_task : ℕ → Request → List Request → RpcServer O → RpcServer O
  give_task capacity r rest s =
      if ltb (length s.running) capacity
      then record s { queue = rest; running = s.running ++ r ∷ [] }
      else record s { queue = rest; alive = false }

  unfoldable pub run : ℕ → RpcServer O → RpcServer O
  unfolding give_task
  run capacity s = elim s.queue [ [] ↦ s | r ∷ rest ↦ give_task capacity r rest s ]

  abbrev pub answer : Request → Option O → List (ℕ × O)
  answer r none = []
  answer r (some o) = (r.id, o) ∷ []

  unfoldable pub post_answer :
      Option (Request × List Request) → Option O → RpcServer O → RpcServer O
  post_answer none response s = s
  post_answer (some (r, left)) response s = record s {
    running = left;
    posted = s.posted ++ answer r response;
  }

  -- `handleFinish` of the client at a position, with its response or a null pointer.
  unfoldable pub handle_finish : ℕ → Option O → RpcServer O → RpcServer O
  unfolding post_answer
  handle_finish k response s = post_answer (take_out k s.running) response s
