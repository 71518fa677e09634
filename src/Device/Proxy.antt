-- ===== src/Device/Proxy.antt =====
-- CRegProxy, Src/Device/RegProxy/RegProxy.cpp: the device asks the server for a token, registers with
-- it, and then passes the requests of the server on.
pub mod Register
pub mod Loop
pub mod Tokens
use Prim.Native.String.{String}
use shuchuang.Shared.{
  ℕ, zero, suc, ◌-◌, ◌*◌, Bool, true, false, Option, none, some, List, [], ◌∷◌, ◌++◌, not, ◌||◌,
  ltb, leb, ◌==◌, string_key, if◌then◌else◌,
}
use shuchuang.Shared.Outcome.{
  Outcome, Action, ok, failed, thrown, pure, fail, throw, get, or_throw, modify, fail_if, ◌>>=◌,
  ◌>>◌,
}
use shuchuang.Shared.Poco.{Json, Digest}
use shuchuang.Common.Config.{Config, get_object}
use shuchuang.Device.World.{Message, system_will_reboot, device_unbind_mobile, device_bind_mobile}
use shuchuang.Device.Rpc.{Parsed, unreadable, other, object}

pub data Wire : Type 0 where
  plain secure : Wire

-- What the proxy does to the world: it closes a socket, writes a text on one, switches the light of
-- an error, and hands a request of the server to CRPCServer.
pub data Effect : Type 0 where
  closes : Wire → Effect
  writes : Wire → String → Effect
  light : Bool → Effect
  requests : String → Effect

-- `m_sock` and `m_ssl_sock` by whether there is one. `last_check` is in microseconds.
pub record RegProxy (O : Type 0) : Type 0 where
  pub started : Bool
  pub sock : Bool
  pub ssl_sock : Bool
  pub token : String
  pub uuid : String
  pub last_check : ℕ
  pub config : Config O
  pub effects : List Effect

-- What a call of the socket gives: it throws, or fails with a number that is not positive.
pub data Sent : Type 0 where
  broken refused done : Sent

pub data Reply : Type 0 where
  broken nothing : Reply
  text : String → Reply

-- One connection to the server: whether its name is resolved, whether it connects, and what becomes
-- of the message and its reply.
pub record Exchange : Type 0 where
  pub resolves : Bool
  pub connects : Bool
  pub sends : Sent
  pub replies : Reply

-- What `poll` finds on the socket.
pub data Poll : Type 0 where
  quiet : Poll
  ready : Reply → Poll

pub data RequestAction : Type 0 where
  get_token register keepalive : RequestAction

-- 30 seconds, and two minutes.
abbrev pub check_period : ℕ
check_period = 30 * 1000 * 1000

abbrev pub keep_alive_timeout : ℕ
keep_alive_timeout = 2 * 60 * 1000 * 1000

-- The start of a text that `snprintf` leaves in a buffer.
unfoldable pub clip : ℕ → String → String
clip zero s = String.[]
clip (suc n) String.[] = String.[]
clip (suc n) (String.◌∷◌ c s) = String.◌∷◌ c (clip n s)

-- How objects are printed, and texts parsed.
pub record Syntax (O : Type 0) : Type 0 where
  pub print : O → String
  pub parse : String → Parsed O

module _ {O : Type 0} where
  unfoldable pub emit : Effect → Action (RegProxy O) (Unit {0})
  emit e = modify (λ p. record p { effects = p.effects ++ e ∷ [] })

  -- `dealError` of one socket.
  unfoldable pub deal_error : Wire → Action (RegProxy O) (Unit {0})
  deal_error plain p =
      if p.sock
      then (ok tt, record p { sock = false; effects = p.effects ++ closes plain ∷ [] })
      else (ok tt, p)
  deal_error secure p =
      if p.ssl_sock
      then (ok tt, record p { ssl_sock = false; effects = p.effects ++ closes secure ∷ [] })
      else (ok tt, p)

  -- `dealError` before `return false`.
  unfoldable pub give_up : Wire → Action (RegProxy O) Bool
  unfolding deal_error
  give_up w = do deal_error w; pure false

  unfoldable pub on_config : {A : Type 0} → Action (Config O) A → Action (RegProxy O) A
  on_config m p = let (r, c) = m p.config in (r, record p { config = c })

module _ {O : Type 0} ⦃j : Json O⦄ where
  -- A request of the device: type, action and parameter.
  abbrev pub packet : String → O → O
  packet action param =
      j.set_object (j.set_string (j.set_string j.empty "type" "request") "action" action) "param"
        param

  abbrev pub token_request : String → String → String → String → String → String → O
  token_request mobile installation name type manufacture uuid =
      j.set_string
        (j.set_string
          (j.set_string
            (j.set_string
              (j.set_string (j.set_string j.empty "mobiletoken" mobile) "installationid"
                installation)
              "name" name)
            "type" type)
          "manufacture" manufacture)
        "uuid" uuid

  abbrev pub register_request : String → String → O
  register_request token uuid = j.set_string (j.set_string j.empty "token" token) "uuid" uuid

  unfoldable pub token_packet : Action (RegProxy O) O
  unfolding on_config
  token_packet = do
    dev_info ← on_config (get_object "DeviceInfo")
    apns ← on_config (get_object "APNS")
    a ← or_throw apns
    mobile ← or_throw (j.get_string a "MobileToken")
    installation ← or_throw (j.get_string a "InstallationId")
    d ← or_throw dev_info
    name ← or_throw (j.get_string d "name")
    type ← or_throw (j.get_string d "type")
    manufacture ← or_throw (j.get_string d "manufacture")
    p ← get
    pure (packet "server.token" (token_request mobile installation name type manufacture p.uuid))

  unfoldable pub create_packet : RequestAction → Action (RegProxy O) O
  unfolding token_packet
  create_packet get_token = token_packet
  create_packet register = do
    p ← get
    pure (packet "server.register" (register_request p.token p.uuid))
  create_packet keepalive = do
    p ← get
    pure (packet "server.keepalive" (j.set_string j.empty "uuid" p.uuid))

  -- The text of a packet in a buffer of 512 bytes.
  abbrev pub packet_text : Syntax O → O → String
  packet_text s o = clip 510 (s.print o)
