-- ===== src/Tests/Proxy.antt =====
-- Runs of the theorems on CRegProxy, alone and against the server.
use Prim.Native.String.{String, ◌++◌ as append_text}
use shuchuang.Shared.{
  ◌≡◌, refl, true, false, none, some, Option, [], ◌∷◌, ◌==◌, string_key, if◌then◌else◌,
}
use shuchuang.Shared.Dict.{find}
use shuchuang.Shared.Outcome.{ok, ◌>>=◌}
use shuchuang.Common.Config.{Setting, get_object}
use shuchuang.Device.Rpc.{Parsed, object, other}
use shuchuang.Device.Proxy.{
  RegProxy, Exchange, Sent, text, Syntax, packet, register_request, clip, create_packet,
}
use shuchuang.Device.Proxy.Register.{
  register_to_server, get_register_token, token_of_answer, token_of_param, take_token,
}
use shuchuang.Device.Proxy.Tokens.{Took, get_register_token-Took}
use shuchuang.Server.Devices.{add_device, check_device}
use shuchuang.Server.Messages.{Library}
use shuchuang.Together.Identity.{Identity, IsConfigured, identity_packet}
use shuchuang.Together.Token.{token_answer}
use shuchuang.Together.Admission.{
  asked, entered, exchange_with, register_answer, register_to_server-check_device,
}
use shuchuang.Tests.Objects.{Fields, text as text_value, nil, field, lookup, as_text, fields_json}
use shuchuang.Tests.Engine.{tally_digest}
use shuchuang.Tests.Server.{none_known}

abbrev me : Identity
me = record {
  mobile = "phone";
  installation = "";
  name = "door";
  type = "lock";
  manufacture = "maker";
}

abbrev text_of : Option String → String
text_of none = ""
text_of (some s) = s

-- Objects are told apart by their type and action.
abbrev label : Fields → String
label o = append_text (text_of (as_text (lookup o "type"))) (text_of (as_text (lookup o "action")))

abbrev same : Library Fields
same = record { rebuild = λ o. o; decimal = λ n. "7" }

abbrev ask_packet : Fields
ask_packet = identity_packet me "a"

abbrev enter_packet : Fields
enter_packet = packet "server.register" (register_request "mu" "a")

abbrev read_label : String → Parsed Fields
read_label t =
    if t == "requestserver.token"
    then object ask_packet
    else if t == "responseserver.token"
    then object (token_answer ask_packet "a" "mu" "7")
    else if t == "requestserver.register"
    then object enter_packet
    else if t == "responseserver.register"
    then object (register_answer enter_packet)
    else other

abbrev labels : Syntax Fields
labels = record { print = label; parse = read_label }

abbrev dev_info : Fields
dev_info =
    field "name" (text_value "door")
      (field "type" (text_value "lock") (field "manufacture" (text_value "maker") nil))

abbrev apns : Fields
apns = field "MobileToken" (text_value "phone") (field "InstallationId" (text_value "") nil)

abbrev proxy : RegProxy Fields
proxy = record {
  started = true;
  sock = false;
  ssl_sock = false;
  token = "";
  uuid = "a";
  last_check = 0;
  config = some (("DeviceInfo", Setting.object dev_info) ∷ ("APNS", Setting.object apns) ∷ []);
  effects = [];
}

proxy-IsConfigured : IsConfigured me proxy.config
unfolding IsConfigured get_object find ◌>>=◌ fields_json
proxy-IsConfigured = (dev_info, apns, refl, refl, refl, refl, refl, refl, refl)

register_to_server-check_device_example :
    let h = asked labels same me "a" 1 4 none_known in
    let k = entered labels same "mu" "a" 2 7 h.devices in
    let (r, p) =
      register_to_server labels (exchange_with labels h) (exchange_with labels k) proxy in
    (r ≡ ok true) × (p.token ≡ "mu") × (p.sock ≡ true) × (check_device "a" k.devices ≡ true)
unfolding fields_json clip tally_digest add_device find
register_to_server-check_device_example =
    register_to_server-check_device labels same me proxy none_known 1 2 4 7 "mu" proxy-IsConfigured
      refl refl refl refl refl

abbrev answered : Exchange
answered = record {
  resolves = true;
  connects = true;
  sends = Sent.done;
  replies = text "responseserver.token";
}

get_register_token-Took_example :
    Took "a" labels answered (get_register_token labels answered proxy).1
unfolding get_register_token create_packet take_token token_of_answer token_of_param get_object find
    clip fields_json tally_digest ◌>>=◌
get_register_token-Took_example = get_register_token-Took labels answered proxy refl
