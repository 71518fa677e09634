-- ===== src/Server/Messages.antt =====
-- CRegMsgHandler, Src/TransmitServer/RegServer/RegMsgHandler.cpp: one message of a device, read from
-- its socket, handled and answered.
pub mod Handle
use Prim.Native.String.{String, ◌++◌ as append_text}
use shuchuang.Shared.{
  ℕ, Bool, true, false, Option, none, some, List, [], ◌∷◌, ◌++◌, not, ◌&&◌, ◌||◌, ◌==◌, string_key,
  nat_key, if◌then◌else◌,
}
use shuchuang.Shared.Int.{ℤ, pos, negsuc}
use shuchuang.Shared.Outcome.{
  Outcome, Action, ok, failed, thrown, pure, fail, throw, get, or_throw, modify, fail_if, ◌>>=◌,
  ◌>>◌,
}
use shuchuang.Shared.Poco.{Json, Digest}
use shuchuang.Device.Rpc.{Parsed, unreadable, other, object, parse_action}
use shuchuang.Server.Devices.{
  DeviceManager, add_device, keep_alive_device, device_online, device_offline_id, bind_mobile,
  unbind_mobile,
}

-- What stands in `SocketTime::state`.
pub data SocketState : Type 0 where
  disconnected connecting connected : SocketState

-- `ssl` is the type 0, a device that asks for a token, and `reg` the type 1.
pub data Kind : Type 0 where
  ssl reg : Kind

-- What a read of the socket gives: it throws, or gives no byte, or the chunks that are there, each as
-- the text up to its first zero.
pub data Received : Type 0 where
  interrupted closed : Received
  chunks : String → List String → Received

-- The handler with its socket, the registry that it reaches, and what it has sent. `sock` is the
-- number of the socket, `impl()`.
pub record MsgHandler (O : Type 0) : Type 0 where
  pub kind : Kind
  pub sock : ℕ
  pub state : SocketState
  pub receive : Bool
  pub req_id : ℕ
  pub http_response : Option O
  pub result : O
  pub sent : List O
  pub devices : DeviceManager

-- What `new JSON::Object(request)` builds of a pointer, and `snprintf` of `%ld`.
pub record Library (O : Type 0) : Type 0 where
  pub rebuild : O → O
  pub decimal : ℕ → String

abbrev pub is_reg : Kind → Bool
is_reg ssl = false
is_reg reg = true

abbrev pub is_connected : SocketState → Bool
is_connected connected = true
is_connected _ = false

abbrev pub is_connecting : SocketState → Bool
is_connecting connecting = true
is_connecting _ = false

-- `m_recv_buf += buf`, for each chunk while more is there.
unfoldable pub join : String → List String → String
join s [] = s
join s (c ∷ cs) = join (append_text s c) cs

module _ {O : Type 0} where
  -- `receiveBytes`: the text, or none for `return false`.
  unfoldable pub receive_bytes : Received → MsgHandler O → Option String × MsgHandler O
  unfolding join
  receive_bytes closed h =
      let told =
        if is_reg h.kind && is_connected h.state
        then record h { devices = (device_offline_id h.sock h.devices).1 }
        else h in
      (none, record told { state = disconnected })
  receive_bytes interrupted h =
      if not (is_reg h.kind) || is_connecting h.state
      then (none, record h { state = disconnected })
      else (none, h)
  receive_bytes (chunks c cs) h = (some (join c cs), record h { state = connected })

module _ {O : Type 0} ⦃j : Json O⦄ where
  unfoldable pub set_result : String → String → Action (MsgHandler O) (Unit {0})
  set_result k v = modify (λ h. record h { result = j.set_string h.result k v })

  -- `return false` after the result says so.
  unfoldable pub refuse : String → Action (MsgHandler O) (Unit {0})
  unfolding set_result
  refuse d = do set_result "result" "failed"; set_result "detail" d; fail d

  -- The same, with the detail first.
  unfoldable pub refuse_detail : String → Action (MsgHandler O) (Unit {0})
  unfolding set_result
  refuse_detail d = do set_result "detail" d; set_result "result" "failed"; fail d

  unfoldable pub when_lacking :
      Bool → Action (MsgHandler O) (Unit {0}) → Action (MsgHandler O) (Unit {0})
  when_lacking b m = if b then m else pure tt

  abbrev pub lacks_field : O → Bool
  lacks_field o = not (j.has o "type") || (not (j.has o "action") || not (j.has o "param"))

  unfoldable pub extract_param : Option O → Action (MsgHandler O) O
  unfolding set_result
  extract_param none = do set_result "detail" "103"; set_result "result" "failed"; fail "103"
  extract_param (some p) = pure p

  -- `formatCheck`: the parameter of the request.
  unfoldable pub format_check : O → Action (MsgHandler O) O
  unfolding set_result refuse_detail when_lacking extract_param
  format_check request = do
    when_lacking (lacks_field request) (do
      set_result "detail" "101"
      set_result "result" "failed"
      set_result "type" "response"
      fail "101")
    type ← or_throw (j.get_string request "type")
    when_lacking (not (type == "request")) (do
      set_result "detail" "102"
      set_result "type" "response"
      set_result "result" "failed"
      fail "102")
    set_result "type" "response"
    extract_param (j.get_object request "param")

  unfoldable pub named : Option (String × String) → Action (MsgHandler O) (String × String)
  unfolding set_result
  named none = do set_result "result" "failed"; set_result "detail" "105"; fail "105"
  named (some names) = pure names

  unfoldable pub set_good : Bool → Action (MsgHandler O) (Unit {0})
  unfolding set_result
  set_good b = set_result "result" (if b then "good" else "failed")

  -- A call of the registry.
  unfoldable pub on_devices :
      {A : Type 0} → (DeviceManager → A × DeviceManager) → Action (MsgHandler O) A
  on_devices f h = let (r, m) = f h.devices in (ok r, record h { devices = m })
