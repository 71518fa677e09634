-- ===== src/Tests/Registrar.antt =====
-- Runs of the theorems on CRegServer, CRegMsgHandler and the statuses of the registry.
use shuchuang.Shared.{
  String, ◌<◌, ◌≡◌, refl, true, none, some, [], ◌∷◌, ◌++◌, nat_key, string_key, arith,
}
use shuchuang.Shared.Dict.{find}
use shuchuang.Device.Rpc.{Parsed, object}
use shuchuang.Server.Devices.{get_device}
use shuchuang.Server.Devices.Sessions.{onlines, step}
use shuchuang.Server.Devices.Statuses.{Moves, view}
use shuchuang.Server.Devices.Refines.{step-Moves}
use shuchuang.Server.Messages.{Library, MsgHandler, reg, SocketState, chunks}
use shuchuang.Server.Messages.Handle.{run_task}
use shuchuang.Server.Registrar.{
  RegServer, RequestInfo, Sending, reg_accept, reg_handler, handle_task_finish, send_request,
  http_request_timer, send_to, post_request,
}
use shuchuang.Server.Registrar.Sockets.{count, count_keys, IsPlaced}
use shuchuang.Server.Registrar.Runs.{Reach, here, next, accepts_reg, reads_reg, Reach-IsPlaced}
use shuchuang.Server.Registrar.Requests.{releases}
use shuchuang.Server.Registrar.Released.{send_request-releases}
use shuchuang.Tests.Objects.{Fields, nil, field, text, int64, fields_json}
use shuchuang.Together.Relay.{Answers, send_request-handle_task_finish}
use shuchuang.Shared.Int.{pos}
use shuchuang.Tests.Engine.{tally_digest, honest}
use shuchuang.Tests.Server.{none_known, none_known-IsSound, connected, with_connected}

step-Moves_example :
    Moves none_known
      (onlines "a" "mu" 7 2)
      (view none_known)
      (view (step none_known (onlines "a" "mu" 7 2)))
step-Moves_example = step-Moves none_known (onlines "a" "mu" 7 2) none_known-IsSound

abbrev pub idle : RegServer Fields
idle = record {
  started = true;
  ssl_map = [];
  ssl_list = [];
  reg_map = [];
  reg_list = [];
  request_map = [];
  ssl_tasks = [];
  reg_tasks = [];
  closed = [];
  written = [];
  released = [];
}

idle-IsPlaced : IsPlaced idle
unfolding count count_keys find
idle-IsPlaced = record {
  ssl_placed = λ i. (refl, omega arith);
  reg_placed = λ i. (refl, omega arith);
}

served : Reach idle (reg_handler 4 (reg_accept 4 idle))
unfolding count_keys find
served = next (next here (accepts_reg 4 refl)) (reads_reg 4)

Reach-IsPlaced_example : IsPlaced (reg_handler 4 (reg_accept 4 idle))
Reach-IsPlaced_example = Reach-IsPlaced idle-IsPlaced served

-- A device is connected on the socket 4, and a phone asks for it.
abbrev pub listening : RegServer Fields
listening = record idle { reg_map = (4, SocketState.connected) ∷ []; reg_list = 4 ∷ [] }

abbrev asking : RequestInfo Fields
asking = record { src_id = 9; uuid = "a"; timeout = 10; request = nil; response = none }

send_request-releases_example :
    releases 9 listening.released
    < releases 9
        (http_request_timer 200 (send_request with_connected 100 asking listening).1).released
unfolding find send_request send_to post_request get_device
send_request-releases_example =
    send_request-releases with_connected 100 200 asking listening refl refl here (omega arith)

abbrev held : RegServer Fields
held = record listening { request_map = (100, asking) ∷ [] }

abbrev pub ended : MsgHandler Fields
ended = record {
  kind = reg;
  sock = 4;
  state = SocketState.connected;
  receive = true;
  req_id = 0;
  http_response = none;
  result = nil;
  sent = [];
  devices = with_connected;
}

-- The answer of the device.
abbrev pub answering : Fields
answering = field "type" (text "response") (field "requestid" (int64 (pos 100)) nil)

pub answering-Answers : Answers answering 100
unfolding Answers fields_json
answering-Answers = (refl, refl, refl, refl)

abbrev pub read_answer : String → Parsed Fields
read_answer t = object answering

abbrev pub copies : Library Fields
copies = record { rebuild = λ o. o; decimal = λ n. "" }

send_request-handle_task_finish_example :
    let (sending, waits) = send_request with_connected 100 asking listening in
    let t = handle_task_finish (run_task copies read_answer 150 (chunks "x" []) ended) waits in
    (sending ≡ Sending.waits)
    × (waits.written ≡ [] ++ (4, fields_json.set_int64 nil "requestid" (pos 100)) ∷ [])
    × (t.released ≡ [] ++ (9, some answering) ∷ [])
    × (find 100 t.request_map ≡ none)
unfolding find get_device
send_request-handle_task_finish_example =
    send_request-handle_task_finish copies read_answer with_connected 100 150 asking connected
      SocketState.connected "x" answering ended listening refl refl refl (omega arith) refl refl
      answering-Answers
