-- ===== src/Server/Registrar.antt =====
-- CRegServer, Src/TransmitServer/RegServer/RegServer.cpp: the sockets of the devices, the tasks that
-- serve them, and the requests of phones that wait for the answer of a device. Each function is what
-- one thread does under the mutexes that it holds, or one round of its loop for one socket.
pub mod Sockets
pub mod Runs
pub mod Requests
pub mod Released
pub mod Answers
pub mod Wakes
pub mod Pool
pub mod Listening
use Prim.Native.String.{String}
use shuchuang.Shared.{
  ℕ, ◌-◌, Bool, true, false, Option, none, some, List, [], ◌∷◌, ◌++◌, not, ◌||◌, ltb, leb, ◌==◌,
  nat_key, string_key, if◌then◌else◌,
}
use shuchuang.Shared.Int.{pos}
use shuchuang.Shared.Dict.{Dict, find, insert, erase}
use shuchuang.Shared.Poco.{Json}
use shuchuang.Server.Devices.{DeviceManager, get_device}
use shuchuang.Server.Messages.{MsgHandler, Kind, ssl, reg, SocketState, disconnected}

-- `struct _RequestInfo`: the thread that waits, and its request. `response` is the null pointer until
-- an answer is there.
pub record RequestInfo (O : Type 0) : Type 0 where
  pub src_id : ℕ
  pub uuid : String
  pub timeout : ℕ
  pub request : O
  pub response : Option O

-- The sockets are known by their numbers; a map holds the state of those that no task has. `closed`,
-- `written` and `released` are what was done: the sockets that were closed, the texts sent on a
-- socket, and the threads whose semaphore was set, with the response that they find.
pub record RegServer (O : Type 0) : Type 0 where
  pub started : Bool
  pub ssl_map : Dict ℕ SocketState
  pub ssl_list : List ℕ
  pub reg_map : Dict ℕ SocketState
  pub reg_list : List ℕ
  pub request_map : Dict ℕ (RequestInfo O)
  pub ssl_tasks : List ℕ
  pub reg_tasks : Dict ℕ SocketState
  pub closed : List ℕ
  pub written : List (ℕ × O)
  pub released : List (ℕ × Option O)

-- `std::find` and `erase` of a list of sockets: the first one goes.
unfoldable pub drop_socket : ℕ → List ℕ → List ℕ
drop_socket i [] = []
drop_socket i (k ∷ ks) = if k == i then ks else k ∷ drop_socket i ks

module _ {O : Type 0} where
  unfoldable pub ssl_accept : ℕ → RegServer O → RegServer O
  ssl_accept i s = record s {
    ssl_map = insert i disconnected s.ssl_map;
    ssl_list = s.ssl_list ++ i ∷ [];
  }

  unfoldable pub reg_accept : ℕ → RegServer O → RegServer O
  reg_accept i s = record s {
    reg_map = insert i disconnected s.reg_map;
    reg_list = s.reg_list ++ i ∷ [];
  }

  -- A socket that can be read leaves the list and the map, and a task gets it.
  unfoldable pub ssl_handler : ℕ → RegServer O → RegServer O
  ssl_handler i s =
      let listed = record s { ssl_list = drop_socket i s.ssl_list } in
      elim (find i s.ssl_map) [
        | none ↦ listed
        | some _ ↦ record listed { ssl_map = erase i s.ssl_map; ssl_tasks = i ∷ s.ssl_tasks }
      ]

  unfoldable pub reg_handler : ℕ → RegServer O → RegServer O
  reg_handler i s =
      let listed = record s { reg_list = drop_socket i s.reg_list } in
      elim (find i s.reg_map) [
        | none ↦ listed
        | some c ↦ record listed { reg_map = erase i s.reg_map; reg_tasks = (i, c) ∷ s.reg_tasks }
      ]

  -- The socket of a task goes back to the list and the map.
  unfoldable pub put_back : ℕ → SocketState → RegServer O → RegServer O
  put_back i c s = record s { reg_list = s.reg_list ++ i ∷ []; reg_map = insert i c s.reg_map }

  -- An answer of a device is given to the request with its number.
  unfoldable pub deliver : ℕ → Option O → RegServer O → RegServer O
  deliver id response s = elim (find id s.request_map) [
    | none ↦ s
    | some r ↦ record s {
      request_map = erase id s.request_map;
      released = s.released ++ (r.src_id, response) ∷ [];
    }
  ]

  -- `handleTaskFinish` of a task with the type 1, by its request number.
  unfoldable pub finish_reg : MsgHandler O → RegServer O → RegServer O
  unfolding put_back deliver
  finish_reg h s =
      if h.req_id == 0
      then (if h.receive
          then put_back h.sock h.state s
          else record s { closed = s.closed ++ h.sock ∷ [] })
      else if h.req_id == 1
      then put_back h.sock h.state s
      else deliver h.req_id h.http_response (put_back h.sock h.state s)

  -- `handleTaskFinish`. The task is gone from those that run.
  unfoldable pub handle_task_finish : MsgHandler O → RegServer O → RegServer O
  unfolding finish_reg
  handle_task_finish h s = elim h.kind [
    | ssl ↦ record s {
      ssl_tasks = drop_socket h.sock s.ssl_tasks;
      closed = s.closed ++ h.sock ∷ [];
    }
    | reg ↦ finish_reg h (record s { reg_tasks = erase h.sock s.reg_tasks })
  ]

  -- `removeSocket` with the choice 1.
  unfoldable pub remove_socket : ℕ → RegServer O → RegServer O
  remove_socket i s = record s {
    reg_list = drop_socket i s.reg_list;
    closed = s.closed ++ i ∷ [];
    reg_map = erase i s.reg_map;
  }

  unfoldable pub handle_offline : ℕ → RegServer O → RegServer O
  unfolding remove_socket
  handle_offline i s = elim (find i s.reg_map) [ none ↦ s | some _ ↦ remove_socket i s ]

  -- `now - sent > timeout`, as unsigned numbers: the clock does not go back behind a request.
  abbrev pub timed_out : ℕ → ℕ → RequestInfo O → Bool
  timed_out now sent r = ltb r.timeout (now - sent)

  -- The loop of `httpRequestTimer` over the entries: those that go, and those that stay.
  unfoldable pub waiting : ℕ → Dict ℕ (RequestInfo O) → Dict ℕ (RequestInfo O)
  waiting now [] = []
  waiting now ((k, r) ∷ m) =
      let rest = waiting now m in if timed_out now k r then rest else (k, r) ∷ rest

  unfoldable pub given_up : ℕ → Dict ℕ (RequestInfo O) → List (ℕ × Option O)
  given_up now [] = []
  given_up now ((k, r) ∷ m) =
      let rest = given_up now m in if timed_out now k r then (r.src_id, r.response) ∷ rest else rest

  -- One round of `httpRequestTimer`.
  unfoldable pub http_request_timer : ℕ → RegServer O → RegServer O
  unfolding waiting given_up
  http_request_timer now s = record s {
    request_map = waiting now s.request_map;
    released = s.released ++ given_up now s.request_map;
  }

-- What `sendRequest` does before it waits: it answers at once, or leaves the request to wait.
pub data Sending (O : Type 0) : Type 0 where
  answered : O → Sending O
  waits : Sending O

module _ {O : Type 0} ⦃j : Json O⦄ where
  abbrev pub not_found : O → O
  not_found request =
      j.set_string
        (j.set_string (j.set_string (j.remove request "type") "type" "response") "result" "failed")
        "detail" "404"

  -- The number of a request is the clock in microseconds; `insert` leaves an entry that has it.
  unfoldable pub post_request : ℕ → ℕ → RequestInfo O → RegServer O → Sending O × RegServer O
  post_request now id r s = (
    waits,
    record s {
      request_map = insert now r s.request_map;
      written = s.written ++ (id, j.set_int64 r.request "requestid" (pos now)) ∷ [];
    },
  )

  unfoldable pub send_to : ℕ → ℕ → RequestInfo O → RegServer O → Sending O × RegServer O
  unfolding post_request
  send_to now id r s = elim (find id s.reg_map) [
    | none ↦ (answered (not_found r.request), s)
    | some _ ↦ post_request now id r s
  ]

  unfoldable pub send_request :
      DeviceManager → ℕ → RequestInfo O → RegServer O → Sending O × RegServer O
  unfolding send_to
  send_request devices now r s = elim (get_device r.uuid devices) [
    | none ↦ (answered (not_found r.request), s)
    | some d ↦ send_to now d.id r s
  ]

-- `setServerPort`: both ports are set, or none.
unfoldable pub set_server_port : ℕ → ℕ → ℕ × ℕ → Bool × (ℕ × ℕ)
set_server_port ssl_port reg_port ports =
    if ltb ssl_port 1024 || (ltb 65535 ssl_port || (ltb reg_port 1024 || ltb 65535 reg_port))
    then (false, ports)
    else (true, (ssl_port, reg_port))
