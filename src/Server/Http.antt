-- ===== src/Server/Http.antt =====
-- CHTTPRequestHandler, Src/TransmitServer/HTTPServer/HTTPRequestHandler.cpp, and the check for an
-- update, Src/TransmitServer/UpdateManager/UpdateManager.cpp: what a phone is answered.
pub mod Replies
pub mod Serving
use Prim.Native.String.{String}
use shuchuang.Shared.{
  ℕ, Bool, true, false, Option, none, some, List, not, ◌||◌, ◌==◌, string_key, if◌then◌else◌,
}
use shuchuang.Shared.Outcome.{Outcome, ok, failed, thrown}
use shuchuang.Shared.Poco.{Json}
use shuchuang.Device.Rpc.{Parsed, unreadable, other, object, parse_action}
use shuchuang.Server.Devices.{DeviceInfo, DeviceManager, get_device}

-- What stands in the update directory for a type of device: no directory, no file "Info", a file
-- that cannot be loaded, one where an entry is missing or of another kind, or one with a version, a
-- build time and the list of the new features.
pub data Release (O : Type 0) : Type 0 where
  no_directory no_info unloadable incomplete : Release O
  ready : String → String → List String → Release O

module _ {O : Type 0} ⦃j : Json O⦄ where
  abbrev pub as_response : O → O
  as_response o = j.set_string (j.remove o "type") "type" "response"

  abbrev pub refusal : O → String → O
  refusal r d = j.set_string (j.set_string r "result" "failed") "detail" d

  abbrev pub lacks_field : O → Bool
  lacks_field o = not (j.has o "type") || (not (j.has o "action") || not (j.has o "param"))

  unfoldable pub check_param : Option O → Outcome O
  check_param none = failed "103"
  check_param (some p) = if j.has p "uuid" then ok p else failed "104"

  unfoldable pub check_type : O → Option String → Outcome O
  check_type o none = thrown
  check_type o (some t) =
      if t == "request" then check_param (j.get_object o "param") else failed "102"

  -- A request with every field gives its parameter.
  unfoldable pub check_request_format : O → Outcome O
  check_request_format o =
      if lacks_field o then failed "101" else check_type o (j.get_string o "type")

  -- A registered device is called online, whether it is or not.
  unfoldable pub device_state : String → Option DeviceInfo → O
  device_state uuid none = j.set_string (j.set_string j.empty "uuid" uuid) "state" "offline"
  device_state uuid (some d) =
      j.set_string (j.set_string (j.set_string j.empty "uuid" uuid) "state" "online") "type"
        d.dev_type

  abbrev pub good : O → O → O
  good r p = j.set_object (j.remove (j.set_string r "result" "good") "param") "param" p

  unfoldable pub serve_server : DeviceManager → String → O → String → O
  serve_server m uuid r method =
      if method == "check" then good r (device_state uuid (get_device uuid m)) else refusal r "106"

  -- `set_features` is `set` of a list of texts, which the interface of the objects leaves out.
  unfoldable pub found : (O → List String → O) → O → Release O → Outcome O
  found set_features p no_directory = failed "451"
  found set_features p no_info = failed "452"
  found set_features p unloadable = failed "453"
  found set_features p incomplete = thrown
  found set_features p (ready version buildtime features) = ok (
      j.set_object p "update" (
        set_features (j.set_string (j.set_string j.empty "version" version) "buildtime" buildtime)
          features))

  unfoldable pub check_update : (O → List String → O) → (String → Release O) → O → Outcome O
  check_update set_features release p =
      if not (j.has p "type") then failed "450" else elim (j.get_string p "type") [
        | none ↦ thrown
        | some t ↦ found set_features p (release t)
      ]

  abbrev answer_update : O → Outcome O → Outcome O
  answer_update r (ok p) = ok (good r p)
  answer_update r (failed d) = ok (refusal r d)
  answer_update r thrown = thrown

  unfoldable pub serve_update :
      (O → List String → O) → (String → Release O) → O → O → String → Outcome O
  serve_update set_features release p r method =
      if method == "check"
      then answer_update r (check_update set_features release p)
      else ok (refusal r "106")

  -- The request as it came, where the device does not answer in time.
  abbrev pub relayed : O → Option O → O
  relayed request none = refusal request "timeout"
  relayed request (some r) = r

-- What the handler reaches: the registry, the update directory, and `sendRequest` of CRegServer,
-- which gives the answer of the device with a uuid or none in time.
pub record Surroundings (O : Type 0) : Type 0 where
  pub devices : DeviceManager
  pub set_features : O → List String → O
  pub release : String → Release O
  pub relay : String → O → Option O

module _ {O : Type 0} ⦃j : Json O⦄ (s : Surroundings O) where
  unfoldable pub dispatch : O → O → String → String → String → Outcome O
  dispatch request p uuid component method =
      if component == "server"
      then ok (serve_server s.devices uuid (as_response request) method)
      else if component == "update"
      then serve_update s.set_features s.release p (as_response request) method
      else ok (relayed request (s.relay uuid request))

  unfoldable pub dispatch_action : O → O → String → Option (String × String) → Outcome O
  dispatch_action request p uuid none = ok (refusal (as_response request) "105")
  dispatch_action request p uuid (some names) = dispatch request p uuid names.0 names.1

  unfoldable pub handle_checked : O → O → Option String → Option String → Outcome O
  handle_checked request p none action = thrown
  handle_checked request p (some uuid) none = thrown
  handle_checked request p (some uuid) (some action) =
      dispatch_action request p uuid (parse_action action)

  unfoldable pub handle_format : O → Outcome O → Outcome O
  handle_format request thrown = thrown
  handle_format request (failed d) = ok (refusal (as_response request) d)
  handle_format request (ok p) =
      handle_checked request p (j.get_string p "uuid") (j.get_string request "action")

  -- The text is a line of the request, of at most 511 bytes.
  unfoldable pub handle_parsed : Parsed O → Outcome O
  handle_parsed unreadable = ok (refusal (j.set_string j.empty "type" "response") "100")
  handle_parsed other = thrown
  handle_parsed (object request) = handle_format request (check_request_format request)

  unfoldable pub handle_request : (String → Parsed O) → String → Outcome O
  handle_request parse line = handle_parsed (parse line)
