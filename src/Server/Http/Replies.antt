-- ===== src/Server/Http/Replies.antt =====
-- What the answers of CHTTPRequestHandler say.
use Prim.Native.String.{String}
use shuchuang.Shared.{ℕ, ◌≡◌, refl, false, none, some, arith, ◌==◌, string_key, eq_refl}
use shuchuang.Shared.Dict.{find, find-insert}
use shuchuang.Shared.Outcome.{ok, failed}
use shuchuang.Shared.Poco.{Json, Digest}
use shuchuang.Device.Rpc.{Parsed, object, parse_action}
use shuchuang.Server.Devices.{DeviceManager, get_device, add_device, check_device, new_device}
use shuchuang.Server.Http.{
  Surroundings, as_response, refusal, check_request_format, device_state, dispatch, dispatch_action,
  handle_checked, handle_format, handle_parsed, handle_request,
}

module _ {O : Type 0} ⦃j : Json O⦄ where
  -- A request of a wrong format is answered by a response that says so and why.
  pub handle_request_refused :
      (s : Surroundings O) (parse : String → Parsed O) (line d : String) (request : O)
      → parse line ≡ object request
      → check_request_format request ≡ failed d
      → (r : O) × (handle_request s parse line ≡ ok r)
        × (j.get_string r "type" ≡ some "response")
        × (j.get_string r "result" ≡ some "failed")
        × (j.get_string r "detail" ≡ some d)
  unfolding handle_request handle_parsed handle_format
  handle_request_refused s parse line d request p f = (
    refusal (as_response request) d,
    rw (p, f) refl,
    simp j.get_string-set_string,
    simp j.get_string-set_string,
    simp j.get_string-set_string,
  )

  -- A request to another component than "server" and "update", for a device that does not answer in
  -- time, comes back with the result "failed" and the detail "timeout", and its type is still
  -- "request".
  pub handle_request_timeout :
      (s : Surroundings O) (parse : String → Parsed O) (line uuid action component method : String)
      (request p : O)
      → parse line ≡ object request
      → check_request_format request ≡ ok p
      → j.get_string request "type" ≡ some "request"
      → j.get_string p "uuid" ≡ some uuid
      → j.get_string request "action" ≡ some action
      → parse_action action ≡ some (component, method)
      → (component == "server") ≡ false
      → (component == "update") ≡ false
      → s.relay uuid request ≡ none
      → (r : O) × (handle_request s parse line ≡ ok r)
        × (j.get_string r "type" ≡ some "request")
        × (j.get_string r "result" ≡ some "failed")
        × (j.get_string r "detail" ≡ some "timeout")
  unfolding handle_request handle_parsed handle_format handle_checked dispatch_action dispatch
  handle_request_timeout s parse line uuid action component method request p pl f ty u ac pa cs cu
        silent =
      (
        refusal request "timeout",
        rw (pl, f, u, ac, pa, cs, cu, silent) refl,
        simp (j.get_string-set_string, ty),
        simp j.get_string-set_string,
        simp j.get_string-set_string,
      )

get_device-add_device :
    ⦃g : Digest⦄
    → (uuid dev_type : String) (id now : ℕ) (m : DeviceManager) → find uuid m.device_map ≡ none
    → get_device uuid (add_device uuid id dev_type now m).1
      ≡ some (new_device uuid id dev_type (g.md5 (g.uuid m.drawn)) now)
unfolding add_device get_device
get_device-add_device ⦃g⦄ uuid dev_type id now m fresh =
    let d = new_device uuid id dev_type (g.md5 (g.uuid m.drawn)) now in
    ground (arith, find-insert uuid uuid d m.device_map, eq_refl uuid)

-- A device that was not registered and has just asked for a token is not online, and the state that
-- a phone is told of it is "online".
pub device_state-add_device :
    (O : Type 0) ⦃j : Json O⦄ ⦃g : Digest⦄
    → (uuid dev_type : String) (id now : ℕ) (m : DeviceManager) → find uuid m.device_map ≡ none
    → let m' = (add_device uuid id dev_type now m).1 in
      (check_device uuid m' ≡ false)
      × (j.get_string (device_state uuid (get_device uuid m')) "state" ≡ some "online")
unfolding check_device device_state get_device new_device
device_state-add_device O ⦃j⦄ uuid dev_type id now m fresh =
    rw (get_device-add_device uuid dev_type id now m fresh) (
      rw (check_device, get_device-add_device uuid dev_type id now m fresh) refl,
      simp j.get_string-set_string,
    )
