-- ===== src/Server/Registrar/Answers.antt =====
-- Which answer a request of a phone gets at CRegServer.
use shuchuang.Shared.{
  String, ℕ, ◌<◌, ◌≡◌, refl, true, none, some, [], ◌∷◌, ◌++◌, arith, ◌==◌, nat_key, nat_beq_iff,
  if◌then◌else◌,
}
use shuchuang.Shared.Dict.{find, find-insert, find-erase}
use shuchuang.Shared.Poco.{Json, Digest}
use shuchuang.Server.Devices.{DeviceManager, DeviceInfo, get_device, check_device}
use shuchuang.Server.Messages.{MsgHandler, Library, reg, SocketState, interrupted, receive_bytes}
use shuchuang.Server.Messages.Handle.{run_task, run_received}
use shuchuang.Device.Rpc.{Parsed}
use shuchuang.Server.Registrar.{
  RegServer, RequestInfo, Sending, reg_handler, handle_task_finish, finish_reg, put_back, deliver,
  send_request, send_to, post_request, not_found,
}

module _ {O : Type 0} where
  -- An answer with the number of a request that waits, 2 or more, releases the thread of this request
  -- with this answer and no other thread; the other requests wait on.
  pub handle_task_finish-delivers :
      (h : MsgHandler O) (s : RegServer O) (r : RequestInfo O) (k : ℕ)
      → h.kind ≡ reg
      → 1 < h.req_id
      → find h.req_id s.request_map ≡ some r
      → let t = handle_task_finish h s in
        (t.released ≡ s.released ++ (r.src_id, h.http_response) ∷ [])
        × (find k t.request_map ≡ (if h.req_id == k then none else find k s.request_map))
  unfolding handle_task_finish finish_reg put_back deliver
  handle_task_finish-delivers h s r k kind big waits =
      (ground (arith), ground (arith, find-erase h.req_id k s.request_map))

  -- A socket that a task has got is not in the map.
  reg_handler_gone : (i : ℕ) (s : RegServer O) → find i (reg_handler i s).reg_map ≡ none
  unfolding reg_handler
  reg_handler_gone i s = ground (arith, find-erase i i s.reg_map, nat_beq_iff i i)

module _ {O : Type 0} ⦃j : Json O⦄ where
  -- While a task serves the socket of a device, the request of a phone to this device is answered
  -- "404" and nothing is sent.
  pub send_request_busy :
      (devices : DeviceManager) (now : ℕ) (r : RequestInfo O) (d : DeviceInfo) (s : RegServer O)
      → get_device r.uuid devices ≡ some d
      → let t = reg_handler d.id s in
        send_request devices now r t ≡ (Sending.answered (not_found r.request), t)
  unfolding send_request send_to
  send_request_busy devices now r d s g =
      rw (send_request, g) (rw (send_to, reg_handler_gone d.id s) refl)

  -- A second request under the number of one that waits waits too, and is not
  -- among the requests: they are as they were.
  pub send_request_collision :
      (devices : DeviceManager) (now : ℕ) (r q : RequestInfo O) (d : DeviceInfo) (c : SocketState)
      (k : ℕ) (s : RegServer O)
      → get_device r.uuid devices ≡ some d
      → find d.id s.reg_map ≡ some c
      → find now s.request_map ≡ some q
      → let (answer, t) = send_request devices now r s in
        (answer ≡ Sending.waits) × (find k t.request_map ≡ find k s.request_map)
  unfolding send_request send_to post_request
  send_request_collision devices now r q d c k s g h f =
      (ground arith, ground (arith, find-insert now k r s.request_map, nat_beq_iff now k))

  -- A device whose connection breaks while it is read, as a reset does, stays online at the registry,
  -- though its socket is closed.
  pub run_task_interrupted :
      ⦃g : Digest⦄
      → (lib : Library O) (parse : String → Parsed O) (now : ℕ) (uuid : String) (h : MsgHandler O)
        (s : RegServer O)
      → h.kind ≡ reg
      → h.req_id ≡ 0
      → check_device uuid h.devices ≡ true
      → let h' = run_task lib parse now interrupted h in
        (check_device uuid h'.devices ≡ true)
        × ((handle_task_finish h' s).closed ≡ s.closed ++ h.sock ∷ [])
  unfolding run_task receive_bytes run_received handle_task_finish finish_reg
  run_task_interrupted lib parse now uuid h s kind id on = (ground arith, ground arith)
