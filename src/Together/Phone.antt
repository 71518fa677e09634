-- ===== src/Together/Phone.antt =====
-- A whole request of a phone: CHTTPRequestHandler, `sendRequest` of CRegServer, CRegMsgHandler on the
-- answer of the device, and the answer to the phone.
use Prim.Native.String.{String}
use shuchuang.Shared.{
  ℕ, ◌*◌, ◌<◌, ◌≡◌, refl, ap, ◌∙◌, false, Option, none, some, List, [], ◌∷◌, ◌++◌, arith, ◌==◌,
  nat_key, nat_beq_iff, string_key, if◌then◌else◌,
}
use shuchuang.Shared.Int.{pos}
use shuchuang.Shared.Dict.{find}
use shuchuang.Shared.Outcome.{ok}
use shuchuang.Shared.Poco.{Json, Digest}
use shuchuang.Device.Rpc.{Parsed, object, parse_action}
use shuchuang.Server.Devices.{DeviceInfo, DeviceManager, get_device}
use shuchuang.Server.Http.{
  Surroundings, Release, check_request_format, handle_request, handle_parsed, handle_format,
  handle_checked, dispatch_action, dispatch,
}
use shuchuang.Server.Messages.{MsgHandler, Library, reg, SocketState, chunks}
use shuchuang.Server.Messages.Handle.{run_task}
use shuchuang.Server.Registrar.{
  RegServer, RequestInfo, Sending, answered, waits, send_request, handle_task_finish,
}
use shuchuang.Together.Relay.{Answers, send_request-handle_task_finish}

module _ {O : Type 0} where
  -- The response that a thread finds, which is the last that it was released with.
  unfoldable pub response_of : ℕ → Option O → List (ℕ × Option O) → Option O
  response_of src found [] = found
  response_of src found ((k, a) ∷ rs) = response_of src (if k == src then a else found) rs

  response_of-last :
      (src : ℕ) (found a : Option O) (rs : List (ℕ × Option O))
      → response_of src found (rs ++ (src, a) ∷ []) ≡ a
  unfolding response_of
  response_of-last src found a [] = ground (arith, nat_beq_iff src src)
  response_of-last src found a ((k, b) ∷ rs) =
      response_of-last src (if k == src then b else found) a rs

  -- What `sendRequest` leaves in the request: its own answer, or that of the device, if it comes.
  -- `later` is what happens at the server until the thread is released.
  unfoldable pub reply : ℕ → (RegServer O → RegServer O) → Sending O × RegServer O → Option O
  reply src later (answered o, s) = some o
  reply src later (waits, s) = response_of src none (later s).released

  reply-waits :
      (src : ℕ) (later : RegServer O → RegServer O) (x : Sending O × RegServer O)
      → x.0 ≡ waits
      → reply src later x ≡ response_of src none (later x.1).released
  unfolding reply
  reply-waits src later (answered o, s) e = cc
  reply-waits src later (waits, s) e = refl

  -- The request of a handler, which waits for five seconds.
  unfoldable pub request_of : ℕ → String → O → RequestInfo O
  request_of src uuid request = record {
    src_id = src;
    uuid = uuid;
    timeout = 5 * 1000 * 1000;
    request = request;
    response = none;
  }

module _ {O : Type 0} ⦃j : Json O⦄ where
  unfoldable pub relay_by :
      DeviceManager → ℕ → ℕ → (RegServer O → RegServer O) → RegServer O → String → O → Option O
  unfolding reply request_of
  relay_by devices now src later s uuid request =
      reply src later (send_request devices now (request_of src uuid request) s)

  -- The surroundings of a handler at a registry and a register server.
  abbrev pub at_server :
      DeviceManager
      → (O → List String → O)
      → (String → Release O)
      → ℕ
      → ℕ
      → (RegServer O → RegServer O)
      → RegServer O
      → Surroundings O
  at_server devices set_features release now src later s = record {
    devices = devices;
    set_features = set_features;
    release = release;
    relay = relay_by devices now src later s;
  }

  relay_by-answer :
      ⦃g : Digest⦄
      → (lib : Library O) (read : String → Parsed O) (devices : DeviceManager) (now time src : ℕ)
        (d : DeviceInfo) (c : SocketState) (text uuid : String) (request o : O) (h : MsgHandler O)
        (s : RegServer O)
      → get_device uuid devices ≡ some d
      → find d.id s.reg_map ≡ some c
      → find now s.request_map ≡ none
      → 1 < now
      → h.kind ≡ reg
      → read text ≡ object o
      → Answers o now
      → relay_by devices now src
          (λ w. handle_task_finish (run_task lib read time (chunks text []) h) w)
          s
          uuid
          request
        ≡ some o
  unfolding relay_by reply
  relay_by-answer lib read devices now time src d c text uuid request o h s known held fresh big
        kind parsed answers =
      let r = request_of src uuid request in
      let (sending, written, released, gone) =
        send_request-handle_task_finish lib read devices now time r d c text o h s known held fresh
          big kind parsed answers in
      reply-waits src (λ w. handle_task_finish (run_task lib read time (chunks text []) h) w)
        (send_request devices now r s) sending
      ∙ ap (response_of src none) released
      ∙ response_of-last src none (some o) s.released

  -- A whole request of a phone to a component of a device that is registered, and whose socket the
  -- register server holds: it is written on that socket with a new number, and where the device answers
  -- with this number in time, the phone is answered what the device answered.
  pub handle_request-answer :
      ⦃g : Digest⦄
      → (lib : Library O) (read parse : String → Parsed O) (devices : DeviceManager)
        (set_features : O → List String → O) (release : String → Release O) (now time src : ℕ)
        (d : DeviceInfo) (c : SocketState) (text line uuid action component method : String)
        (request p o : O) (h : MsgHandler O) (s : RegServer O)
      → parse line ≡ object request
      → check_request_format request ≡ ok p
      → j.get_string p "uuid" ≡ some uuid
      → j.get_string request "action" ≡ some action
      → parse_action action ≡ some (component, method)
      → (component == "server") ≡ false
      → (component == "update") ≡ false
      → get_device uuid devices ≡ some d
      → find d.id s.reg_map ≡ some c
      → find now s.request_map ≡ none
      → 1 < now
      → h.kind ≡ reg
      → read text ≡ object o
      → Answers o now
      → let answer =
          λ (w : RegServer O). handle_task_finish (run_task lib read time (chunks text []) h) w in
        ((send_request devices now (request_of src uuid request) s).1.written
          ≡ s.written ++ (d.id, j.set_int64 request "requestid" (pos now)) ∷ [])
        × (handle_request (at_server devices set_features release now src answer s) parse line
            ≡ ok o)
  unfolding handle_request handle_parsed handle_format handle_checked dispatch_action dispatch
      request_of
  handle_request-answer lib read parse devices set_features release now time src d c text line uuid
        action component method request p o h s pl f u ac pa cs cu known held fresh big kind parsed
        answers =
      let (sending, written, released, gone) =
        send_request-handle_task_finish lib read devices now time (request_of src uuid request) d c
          text o h s known held fresh big kind parsed answers in
      let relayed_answer =
        relay_by-answer lib read devices now time src d c text uuid request o h s known held fresh
          big kind parsed answers in
      (written, rw (pl, f, u, ac, pa, cs, cu, relayed_answer) refl)
