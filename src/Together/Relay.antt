-- ===== src/Together/Relay.antt =====
-- A request of a phone and the answer of its device: `sendRequest` of CRegServer, CRegMsgHandler on the
-- answer, and `handleTaskFinish`.
use Prim.Native.String.{String}
use shuchuang.Shared.{
  ℕ, ◌<◌, ◌≡◌, ap, ◌∙◌, true, none, some, [], ◌∷◌, ◌++◌, arith, nat_key, nat_beq_iff, string_key,
}
use shuchuang.Shared.Int.{pos}
use shuchuang.Shared.Dict.{find, find-insert}
use shuchuang.Shared.Outcome.{◌>>=◌}
use shuchuang.Shared.Poco.{Json, Digest}
use shuchuang.Device.Rpc.{Parsed, object}
use shuchuang.Server.Devices.{DeviceInfo, DeviceManager, get_device}
use shuchuang.Server.Messages.{MsgHandler, Library, reg, SocketState, chunks}
use shuchuang.Server.Messages.Handle.{
  run_task, handle_parsed, handle_reg_msg, handle_response, is_response,
}
use shuchuang.Server.Registrar.{
  RegServer, RequestInfo, Sending, send_request, send_to, post_request, handle_task_finish,
}
use shuchuang.Server.Registrar.Answers.{handle_task_finish-delivers}

module _ {O : Type 0} ⦃j : Json O⦄ where
  -- An object that answers the request with the number.
  unfoldable pub Answers : O → ℕ → Type 0
  Answers o n =
      (j.has o "type" ≡ true)
      × (j.get_string o "type" ≡ some "response")
      × (j.has o "requestid" ≡ true)
      × (j.get_int o "requestid" ≡ some (pos n))

  run_task-Answers :
      ⦃g : Digest⦄
      → (lib : Library O) (parse : String → Parsed O) (now n : ℕ) (text : String) (o : O)
        (h : MsgHandler O)
      → h.kind ≡ reg
      → parse text ≡ object o
      → Answers o n
      → let h' = run_task lib parse now (chunks text []) h in
        (h'.kind ≡ reg) × (h'.req_id ≡ n) × (h'.http_response ≡ some o)
  unfolding run_task handle_parsed handle_reg_msg is_response handle_response Answers ◌>>=◌
  run_task-Answers lib parse now n text o h kind read (has, type, has', id) =
      rw (read, kind, has, type, has', id) (ground arith, ground arith, ground arith)

  send_request-waits :
      (devices : DeviceManager) (now : ℕ) (r : RequestInfo O) (d : DeviceInfo) (c : SocketState)
      (s : RegServer O)
      → get_device r.uuid devices ≡ some d
      → find d.id s.reg_map ≡ some c
      → find now s.request_map ≡ none
      → let (sending, t) = send_request devices now r s in
        (sending ≡ Sending.waits)
        × (t.written ≡ s.written ++ (d.id, j.set_int64 r.request "requestid" (pos now)) ∷ [])
        × (t.released ≡ s.released)
        × (find now t.request_map ≡ some r)
  unfolding send_request send_to post_request
  send_request-waits devices now r d c s known held fresh =
      let entry = find-insert now now r s.request_map in
      (
        ground (arith, known, held),
        ground (arith, known, held),
        ground (arith, known, held),
        ground (arith, known, held, fresh, entry, nat_beq_iff now now),
      )

  -- A request of a phone for a device whose socket the server holds is written on that socket with a
  -- new number and waits; an answer of the device with this number, read by a task, releases the
  -- thread of the phone with this answer and no other thread, and the request waits no more.
  pub send_request-handle_task_finish :
      ⦃g : Digest⦄
      → (lib : Library O) (parse : String → Parsed O) (devices : DeviceManager) (now later : ℕ)
        (r : RequestInfo O) (d : DeviceInfo) (c : SocketState) (text : String) (o : O)
        (h : MsgHandler O) (s : RegServer O)
      → get_device r.uuid devices ≡ some d
      → find d.id s.reg_map ≡ some c
      → find now s.request_map ≡ none
      → 1 < now
      → h.kind ≡ reg
      → parse text ≡ object o
      → Answers o now
      → let (sending, waits) = send_request devices now r s in
        let t = handle_task_finish (run_task lib parse later (chunks text []) h) waits in
        (sending ≡ Sending.waits)
        × (waits.written ≡ s.written ++ (d.id, j.set_int64 r.request "requestid" (pos now)) ∷ [])
        × (t.released ≡ s.released ++ (r.src_id, some o) ∷ [])
        × (find now t.request_map ≡ none)
  send_request-handle_task_finish lib parse devices now later r d c text o h s known held fresh big
        kind read answers =
      let (kind', id, response) = run_task-Answers lib parse later now text o h kind read answers in
      let (sending, written, kept, entry) =
        send_request-waits devices now r d c s known held fresh in
      let waits = (send_request devices now r s).1 in
      let h' = run_task lib parse later (chunks text []) h in
      let (released, gone) =
        handle_task_finish-delivers h' waits r now kind' (rw id big) (rw id entry) in
      (
        sending,
        written,
        released
            ∙ ap (λ l. l ++ (r.src_id, h'.http_response) ∷ []) kept
            ∙ ap (λ a. s.released ++ (r.src_id, a) ∷ []) response,
        gone ∙ rw id (ground (arith, nat_beq_iff now now)),
      )
