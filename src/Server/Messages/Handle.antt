-- ===== src/Server/Messages/Handle.antt =====
-- What CRegMsgHandler does with a message: `handleSslMsg`, `handleRegMsg` and `runTask`.
use Prim.Native.String.{String, ◌++◌ as append_text}
use shuchuang.Shared.{
  ℕ, Bool, true, false, Option, none, some, [], ◌∷◌, ◌++◌, not, ◌||◌, ◌==◌, string_key, nat_key,
  if◌then◌else◌,
}
use shuchuang.Shared.Int.{ℤ, pos}
use shuchuang.Shared.Outcome.{
  Outcome, Action, thrown, pure, fail, get, or_throw, modify, ◌>>=◌, ◌>>◌,
}
use shuchuang.Shared.Poco.{Json, Digest}
use shuchuang.Device.Rpc.{Parsed, object, parse_action}
use shuchuang.Server.Devices.{
  add_device, keep_alive_device, device_online, bind_mobile, unbind_mobile,
}
use shuchuang.Server.Messages.{
  MsgHandler, Library, ssl, reg, Received, receive_bytes, set_result, refuse, refuse_detail,
  when_lacking, format_check, named, set_good, on_devices,
}

-- A number as UInt64: the conversion of a negative one throws.
abbrev pub unsigned : Option ℤ → Option ℕ
unsigned (some (pos n)) = some n
unsigned _ = none

module _ {O : Type 0} ⦃j : Json O⦄ where
  abbrev pub lacks_device : O → Bool
  lacks_device p =
      not (j.has p "uuid")
      || (not (j.has p "type")
          || (not (j.has p "name")
              || (not (j.has p "manufacture")
                  || (not (j.has p "mobiletoken") || not (j.has p "installationid")))))

  -- The parameter of the answer to a request for a token.
  abbrev pub token_param : String → String → String → String → O
  token_param uuid token tms key =
      j.set_string
        (j.set_string (j.set_string (j.set_string j.empty "uuid" uuid) "token" token) "timestamp"
          tms)
        "key" key

  unfoldable pub answer_token :
      String → String → String → String → String → Option String → Action (MsgHandler O) (Unit {0})
  unfolding set_result on_devices
  answer_token uuid mobile installation tms key none = do set_result "result" "failed"; fail ""
  answer_token uuid mobile installation tms key (some token) = do
    on_devices (bind_mobile uuid mobile installation)
    set_result "result" "good"
    modify (λ h. record h {
      result = j.set_object (j.remove h.result "param") "param" (token_param uuid token tms key);
    })

  -- `now` is the clock in microseconds.
  unfoldable pub handle_ssl_msg :
      ⦃g : Digest⦄ → Library O → ℕ → O → Action (MsgHandler O) (Unit {0})
  unfolding refuse refuse_detail when_lacking format_check named on_devices answer_token
  handle_ssl_msg ⦃g⦄ lib now request = do
    p ← format_check request
    action ← or_throw (j.get_string request "action")
    names ← named (parse_action action)
    when_lacking (not (names.0 == "server")) (refuse "200")
    when_lacking (not (names.1 == "token")) (refuse "201")
    when_lacking (lacks_device p) (refuse_detail "104")
    uuid ← or_throw (j.get_string p "uuid")
    type ← or_throw (j.get_string p "type")
    name ← or_throw (j.get_string p "name")
    mobile ← or_throw (j.get_string p "mobiletoken")
    installation ← or_throw (j.get_string p "installationid")
    h ← get
    token ← on_devices (add_device uuid h.sock type now)
    answer_token uuid mobile installation (lib.decimal now)
        (g.md5 (append_text "alpha2015" (lib.decimal now))) token

  unfoldable pub handle_register : ℕ → O → Action (MsgHandler O) (Unit {0})
  unfolding refuse_detail when_lacking on_devices set_good
  handle_register now p = do
    when_lacking (not (j.has p "token") || not (j.has p "uuid")) (refuse_detail "104")
    token ← or_throw (j.get_string p "token")
    uuid ← or_throw (j.get_string p "uuid")
    h ← get
    done ← on_devices (device_online uuid token h.sock now)
    set_good done

  -- The answer is good whether there is such a device or not.
  unfoldable pub handle_keepalive : ℕ → O → Action (MsgHandler O) (Unit {0})
  unfolding refuse_detail when_lacking on_devices set_good
  handle_keepalive now p = do
    when_lacking (not (j.has p "uuid")) (refuse_detail "104")
    uuid ← or_throw (j.get_string p "uuid")
    on_devices (keep_alive_device uuid now)
    set_good true

  -- The detail is a number here.
  unfoldable pub handle_bind : O → Action (MsgHandler O) (Unit {0})
  unfolding set_result when_lacking on_devices set_good
  handle_bind p = do
    when_lacking (not (j.has p "mobiletoken") || not (j.has p "installationid")) (do
      modify (λ h. record h { result = j.set_int h.result "detail" (pos 104) })
      set_result "result" "failed"
      fail "104")
    uuid ← or_throw (j.get_string p "uuid")
    mobile ← or_throw (j.get_string p "mobiletoken")
    installation ← or_throw (j.get_string p "installationid")
    done ← on_devices (bind_mobile uuid mobile installation)
    set_good done

  unfoldable pub handle_unbind : O → Action (MsgHandler O) (Unit {0})
  unfolding on_devices set_good
  handle_unbind p = do
    uuid ← or_throw (j.get_string p "uuid")
    done ← on_devices (unbind_mobile uuid)
    set_good done

  unfoldable pub handle_method : ℕ → O → String → Action (MsgHandler O) (Unit {0})
  unfolding refuse
  handle_method now p method =
      if method == "register"
      then handle_register now p
      else if method == "keepalive"
      then handle_keepalive now p
      else if method == "bind"
      then handle_bind p
      else if method == "unbind"
      then handle_unbind p
      else refuse "201"

  unfoldable pub handle_request : ℕ → O → Action (MsgHandler O) (Unit {0})
  unfolding set_result refuse when_lacking format_check named
  handle_request now request = do
    p ← format_check request
    action ← or_throw (j.get_string request "action")
    set_result "action" action
    names ← named (parse_action action)
    when_lacking (not (names.0 == "server")) (refuse "200")
    handle_method now p names.1

  -- A response of a device to the request of a phone: its number, or 1 where it has none.
  unfoldable pub handle_response : O → Action (MsgHandler O) (Unit {0})
  handle_response request = do
    id ←
        (if j.has request "requestid"
          then or_throw (unsigned (j.get_int request "requestid"))
          else pure 1)
    modify (λ h. record h { req_id = id; http_response = some request })

  unfoldable pub is_response : O → Action (MsgHandler O) Bool
  is_response request =
      if j.has request "type"
      then (do t ← or_throw (j.get_string request "type"); pure (t == "response"))
      else pure false

  unfoldable pub handle_reg_msg : ℕ → O → Action (MsgHandler O) (Unit {0})
  unfolding is_response
  handle_reg_msg now request = do
    response ← is_response request
    if response then handle_response request else handle_request now request

  unfoldable pub handle_parsed :
      ⦃g : Digest⦄ → Library O → ℕ → Parsed O → Action (MsgHandler O) (Unit {0})
  unfolding set_result
  handle_parsed lib now (object request) = do
    h ← get
    modify (λ h. record h { result = lib.rebuild request })
    elim h.kind [ ssl ↦ handle_ssl_msg lib now request | reg ↦ handle_reg_msg now request ]
  handle_parsed lib now _ = do
    modify (λ h. record h { result = j.empty })
    set_result "type" "response"
    set_result "result" "failed"
    set_result "detail" "100"

  -- The end of `runTask`, where no exception left the handler: a response is not answered.
  abbrev pub answer : Outcome (Unit {0}) × MsgHandler O → MsgHandler O
  answer (thrown, h) = h
  answer (_, h) = if h.req_id == 0 then record h { sent = h.sent ++ h.result ∷ [] } else h

  unfoldable pub run_received :
      ⦃g : Digest⦄
      → Library O
      → (String → Parsed O)
      → ℕ
      → Option String × MsgHandler O
      → MsgHandler O
  run_received lib parse now (none, h) = record h { receive = false }
  run_received lib parse now (some text, h) =
      answer (handle_parsed lib now (parse text) (record h { receive = true }))

  unfoldable pub run_task :
      ⦃g : Digest⦄ → Library O → (String → Parsed O) → ℕ → Received → MsgHandler O → MsgHandler O
  unfolding receive_bytes run_received
  run_task lib parse now r h = run_received lib parse now (receive_bytes r h)
