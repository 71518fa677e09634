-- ===== src/Tests/Phone.antt =====
-- A run of the theorem on a whole request of a phone.
use shuchuang.Shared.{◌≡◌, refl, [], ◌∷◌, ◌++◌, arith, string_key, nat_key}
use shuchuang.Shared.Int.{pos}
use shuchuang.Shared.Dict.{find}
use shuchuang.Shared.Outcome.{ok}
use shuchuang.Device.Rpc.{parse_action}
use shuchuang.Server.Devices.{get_device}
use shuchuang.Server.Http.{
  handle_request, no_directory, check_request_format, check_type, check_param,
}
use shuchuang.Server.Messages.{SocketState, chunks}
use shuchuang.Server.Messages.Handle.{run_task}
use shuchuang.Server.Registrar.{send_request, handle_task_finish}
use shuchuang.Together.Phone.{request_of, at_server, handle_request-answer}
use shuchuang.Tests.Objects.{lookup, as_text, as_nested, fields_json}
use shuchuang.Tests.Engine.{tally_digest}
use shuchuang.Tests.Server.{connected, with_connected}
use shuchuang.Tests.Http.{opening, of_device, reader}
use shuchuang.Tests.Registrar.{listening, ended, answering, answering-Answers, read_answer, copies}

handle_request-answer_example :
    ((send_request with_connected 100 (request_of 9 "a" opening) listening).1.written
      ≡ [] ++ (4, fields_json.set_int64 opening "requestid" (pos 100)) ∷ [])
    × (handle_request
          (at_server with_connected
            (λ o f. o)
            (λ t. no_directory)
            100
            9
            (λ w. handle_task_finish (run_task copies read_answer 150 (chunks "x" []) ended) w)
            listening)
          reader
          "open"
        ≡ ok answering)
unfolding find get_device reader check_request_format check_type check_param parse_action
    fields_json lookup as_text as_nested
handle_request-answer_example =
    handle_request-answer copies read_answer reader with_connected (λ o f. o) (λ t. no_directory)
      100 150 9 connected SocketState.connected "x" "open" "a" "device.open" "device" "open" opening
      of_device answering ended listening refl refl refl refl refl refl refl refl refl refl
      (omega arith) refl refl answering-Answers
