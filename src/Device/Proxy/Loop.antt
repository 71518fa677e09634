-- ===== src/Device/Proxy/Loop.antt =====
-- The rounds of `onTimer` of CRegProxy, and the messages that reach it.
use Prim.Native.String.{String}
use shuchuang.Shared.{
  ℕ, ◌-◌, true, false, List, [], ◌∷◌, not, ◌&&◌, ◌==◌, ltb, leb, nat_key, string_key, if◌then◌else◌,
  is_some,
}
use shuchuang.Shared.Outcome.{
  Action, thrown, pure, throw, get, or_throw, modify, fail_if, ◌>>=◌, ◌>>◌,
}
use shuchuang.Shared.Poco.{Json, Digest}
use shuchuang.Common.Config.{get_object}
use shuchuang.Device.World.{Message, system_will_reboot, device_unbind_mobile, device_bind_mobile}
use shuchuang.Device.Proxy.{
  RegProxy, plain, secure, writes, light, requests, Exchange, Sent, text, Poll, quiet, ready,
  keepalive, Syntax, emit, deal_error, create_packet, packet, packet_text, check_period,
  keep_alive_timeout, on_config,
}
use shuchuang.Device.Proxy.Register.{register_to_server}

-- What a round of the loop meets.
pub record Round : Type 0 where
  pub token_exchange : Exchange
  pub register_exchange : Exchange
  pub polls : Poll
  pub keeps : Sent
  pub now : ℕ

module _ {O : Type 0} ⦃j : Json O⦄ where
  unfoldable pub register_round :
      ⦃g : Digest⦄ → Syntax O → Exchange → Exchange → ℕ → Action (RegProxy O) (Unit {0})
  unfolding emit register_to_server
  register_round s x y now = do
    done ← register_to_server s x y
    if done then (do modify (λ p. record p { last_check = now }); emit (light false)) else pure tt

  -- What follows a keepalive, by what `sendBytes` gave: it throws, or the time of a connection without
  -- one is over, or it was sent.
  unfoldable pub after_keep_alive : ℕ → Sent → Action (RegProxy O) (Unit {0})
  unfolding deal_error
  after_keep_alive now Sent.broken = throw
  after_keep_alive now Sent.refused = do
    p ← get
    if ltb keep_alive_timeout (now - p.last_check)
        then (do deal_error secure; deal_error plain)
        else pure tt
  after_keep_alive now Sent.done = modify (λ p. record p { last_check = now })

  unfoldable pub send_keep_alive : Syntax O → ℕ → Sent → Action (RegProxy O) (Unit {0})
  unfolding emit create_packet after_keep_alive
  send_keep_alive s now sent = do
    o ← create_packet keepalive
    emit (writes plain (packet_text s o))
    after_keep_alive now sent

  unfoldable pub keep_alive_round : Syntax O → ℕ → Sent → Action (RegProxy O) (Unit {0})
  unfolding send_keep_alive
  keep_alive_round s now sent = do
    p ← get
    if leb check_period (now - p.last_check) then send_keep_alive s now sent else pure tt

  -- A socket that is gone switches the light on, and the round ends.
  unfoldable pub lose_server : Action (RegProxy O) (Unit {0})
  unfolding emit deal_error
  lose_server = do emit (light true); deal_error plain

  unfoldable pub serve_round : Syntax O → Poll → Sent → ℕ → Action (RegProxy O) (Unit {0})
  unfolding emit keep_alive_round lose_server
  serve_round s quiet sent now = keep_alive_round s now sent
  serve_round s (ready (text t)) sent now = do emit (requests t); keep_alive_round s now sent
  serve_round s (ready _) sent now = lose_server

  -- The body of the loop of `onTimer`.
  unfoldable pub on_timer : ⦃g : Digest⦄ → Syntax O → Round → Action (RegProxy O) (Unit {0})
  unfolding register_round serve_round
  on_timer s r = do
    p ← get
    if p.sock
        then serve_round s r.polls r.keeps r.now
        else register_round s r.token_exchange r.register_exchange r.now

  -- The loop: it goes on while the proxy is started, and an exception ends it.
  unfoldable pub run : ⦃g : Digest⦄ → Syntax O → List Round → RegProxy O → RegProxy O
  run s [] p = p
  run s (r ∷ rs) p = elim p.started [
    | false ↦ p
    | true ↦ elim (on_timer s r p).0 [
      | thrown ↦ (on_timer s r p).1
      | _ ↦ run s rs (on_timer s r p).1
    ]
  ]

  unfoldable pub stop : Action (RegProxy O) (Unit {0})
  stop = modify (λ p. record p { started = false })

  abbrev pub bind_request : String → String → String → O
  bind_request uuid mobile installation =
      j.set_string (j.set_string (j.set_string j.empty "uuid" uuid) "mobiletoken" mobile)
        "installationid" installation

  -- A message goes out on the socket; where there is none, the null pointer is used.
  unfoldable pub write_plain : Syntax O → O → Action (RegProxy O) (Unit {0})
  unfolding emit
  write_plain s o = do p ← get; if p.sock then emit (writes plain (s.print o)) else throw

  -- `handleMessage`
  unfoldable pub handle_message : Syntax O → Message → Action (RegProxy O) (Unit {0})
  unfolding stop deal_error write_plain
  handle_message s system_will_reboot = do stop; deal_error plain
  handle_message s (device_bind_mobile mobile installation) = do
    p ← get
    write_plain s (packet "server.bind" (bind_request p.uuid mobile installation))
  handle_message s device_unbind_mobile = do
    p ← get
    write_plain s (packet "server.unbind" (j.set_string j.empty "uuid" p.uuid))

  -- `handleNf`: the response of CRPCServer to a request. The number of the request is the address of the
  -- socket that it came on, and `here` the one of the socket that there is now; a response to a request of
  -- an earlier connection is dropped.
  unfoldable pub handle_response : Syntax O → ℕ → ℕ → O → Action (RegProxy O) (Unit {0})
  unfolding emit
  handle_response s here id response = do
    p ← get
    if id == (if p.sock then here else 0) && p.sock
        then emit (writes plain (s.print response))
        else pure tt

  -- `start`, where CRPCServer is there: the address of the server and the uuid are read.
  unfoldable pub start : Action (RegProxy O) (Unit {0})
  unfolding emit on_config
  start = do
    p ← get
    fail_if p.started "started"
    settings ← on_config (get_object "RegProxy")
    fail_if (not (is_some settings)) "RegProxy"
    c ← or_throw settings
    host ← or_throw (j.get_string c "host")
    ssl_port ← or_throw (j.extract_int c "ssl_port")
    reg_port ← or_throw (j.extract_int c "reg_port")
    dev_info ← on_config (get_object "DeviceInfo")
    d ← or_throw dev_info
    uuid ← or_throw (j.get_string d "uuid")
    emit (light true)
    modify (λ p. record p { uuid = uuid; started = true })
