-- ===== src/Together/Admission.antt =====
-- The whole way of a device into the registry of the server: `registerToServer` of CRegProxy against
-- two runs of `runTask` of CRegMsgHandler, one for the token and one with it.
use Prim.Native.String.{String}
use shuchuang.Shared.{ℕ, ◌≡◌, refl, ap, true, false, none, some, List, [], ◌∷◌, string_key}
use shuchuang.Shared.Outcome.{ok, ◌>>=◌}
use shuchuang.Shared.Poco.{Json, Digest}
use shuchuang.Device.Rpc.{object}
use shuchuang.Device.Proxy.{
  RegProxy, Exchange, Sent, Reply, text, Syntax, packet, packet_text, token_request,
  register_request,
}
use shuchuang.Device.Proxy.Register.{register_to_server, is_good}
use shuchuang.Server.Devices.Admits.{device_online-bind_mobile}
use shuchuang.Together.Identity.{
  Identity, IsConfigured, identity_packet, register_to_server-IsConfigured,
}
use shuchuang.Server.Devices.{DeviceManager, add_device, bind_mobile, device_online, check_device}
use shuchuang.Server.Messages.{MsgHandler, Library, Kind, ssl, reg, SocketState, chunks}
use shuchuang.Server.Messages.Handle.{run_task, handle_parsed}
use shuchuang.Together.Token.{token_answer, handle_ssl_msg-packet, token_of_answer-token_answer}
use shuchuang.Together.Registration.{handle_register-packet}

module _ {O : Type 0} ⦃j : Json O⦄ where
  -- A task of the server, newly made, for a socket on which a device has just come.
  abbrev pub new_task : Kind → ℕ → DeviceManager → MsgHandler O
  new_task kind sock m = record {
    kind = kind;
    sock = sock;
    state = SocketState.disconnected;
    receive = false;
    req_id = 0;
    http_response = none;
    result = j.empty;
    sent = [];
    devices = m;
  }

  -- What comes back on the socket: the text of the answer, or nothing.
  abbrev pub reply : Syntax O → List O → Reply
  reply s [] = Reply.nothing
  reply s (o ∷ _) = text (s.print o)

  -- A connection on which nothing breaks.
  abbrev pub exchange_with : Syntax O → MsgHandler O → Exchange
  exchange_with s h = record {
    resolves = true;
    connects = true;
    sends = Sent.done;
    replies = reply s h.sent;
  }

module _ {O : Type 0} ⦃j : Json O⦄ ⦃g : Digest⦄ where
  run_task-token :
      (lib : Library O) (s : Syntax O) (now sock : ℕ)
      (mobile installation name type manufacture uuid token t : String) (m : DeviceManager)
      → s.parse t
        ≡ object
            (packet "server.token" (token_request mobile installation name type manufacture uuid))
      → (add_device uuid sock type now m).0 ≡ some token
      → let h = run_task lib s.parse now (chunks t []) (new_task ssl sock m) in
        let o =
          packet {O = O} "server.token"
            (token_request mobile installation name type manufacture uuid) in
        (h.sent ≡ token_answer (lib.rebuild o) uuid token (lib.decimal now) ∷ [])
        × (h.devices ≡ (bind_mobile uuid mobile installation (add_device uuid sock type now m).1).1)
  unfolding run_task handle_parsed ◌>>=◌
  run_task-token lib s now sock mobile installation name type manufacture uuid token t m read
        given =
      let o =
        packet "server.token" (token_request mobile installation name type manufacture uuid) in
      let h = record (new_task ssl sock m) {
        state = SocketState.connected;
        receive = true;
        result = lib.rebuild o;
      } in
      rw
        (
          read,
          handle_ssl_msg-packet lib now mobile installation name type manufacture uuid token h
              given,
        )
        (refl, refl)

  -- The result of a handler that has taken a device online.
  abbrev pub register_answer : O → O
  register_answer result =
      j.set_string (j.set_string (j.set_string result "type" "response") "action" "server.register")
        "result" "good"

  run_task-register :
      (lib : Library O) (s : Syntax O) (now sock : ℕ) (uuid token t : String) (m : DeviceManager)
      → s.parse t ≡ object (packet "server.register" (register_request token uuid))
      → (device_online uuid token sock now m).0 ≡ true
      → let h = run_task lib s.parse now (chunks t []) (new_task reg sock m) in
        let o = packet {O = O} "server.register" (register_request token uuid) in
        (h.sent ≡ register_answer (lib.rebuild o) ∷ [])
        × (h.devices ≡ (device_online uuid token sock now m).1)
  unfolding run_task handle_parsed ◌>>=◌
  run_task-register lib s now sock uuid token t m read done =
      let o = packet "server.register" (register_request token uuid) in
      let h = record (new_task reg sock m) {
        state = SocketState.connected;
        receive = true;
        result = lib.rebuild o;
      } in
      rw (read, handle_register-packet now token uuid h, done) (refl, refl)

  -- The answer to a registration that went well is one that the device takes.
  is_good-set_string : (o : O) → is_good (object (j.set_string o "result" "good")) ≡ true
  is_good-set_string o =
      rw
        (
          j.has-set_string o "result" "result" "good",
          j.get_string-set_string o "result" "result" "good",
        )
        refl

  -- A text is parsed to the object that was printed; a packet comes whole where its text, as long as
  -- it fits the buffer, is.
  abbrev pub IsRead : Syntax O → O → Type 0
  IsRead s o = s.parse (s.print o) ≡ object o

  abbrev pub Fits : Syntax O → O → Type 0
  Fits s o = s.parse (packet_text s o) ≡ object o

  -- The run of the server over the packet that asks for a token, and over the one with the token.
  abbrev pub asked : Syntax O → Library O → Identity → String → ℕ → ℕ → DeviceManager → MsgHandler O
  asked s lib i uuid now sock m =
      run_task lib s.parse now (chunks (packet_text s (identity_packet i uuid)) [])
        (new_task ssl sock m)

  abbrev pub entered : Syntax O → Library O → String → String → ℕ → ℕ → DeviceManager → MsgHandler O
  entered s lib token uuid now sock m =
      run_task lib s.parse now
        (chunks (packet_text s (packet "server.register" (register_request token uuid))) [])
        (new_task reg sock m)

  -- A device whose configuration is complete and that the server does not know as online gets in: in
  -- one run of `registerToServer` against the handlers of the server, where no connection breaks, the
  -- packets fit their buffer and the answers are read as they were printed, it fetches the token that the registry has made for it, it is told that it
  -- is registered, and `checkDevice` then says that it is online.
  pub register_to_server-check_device :
      (s : Syntax O) (lib : Library O) (i : Identity) (p : RegProxy O) (m : DeviceManager)
      (now later ssl_sock reg_sock : ℕ) (token : String)
      → IsConfigured i p.config
      → Fits s (identity_packet i p.uuid)
      → Fits s (packet "server.register" (register_request token p.uuid))
      → IsRead s
          (token_answer (lib.rebuild (identity_packet i p.uuid)) p.uuid token (lib.decimal now))
      → IsRead s
          (register_answer (lib.rebuild (packet "server.register" (register_request token p.uuid))))
      → (add_device p.uuid ssl_sock i.type now m).0 ≡ some token
      → let h = asked s lib i p.uuid now ssl_sock m in
        let k = entered s lib token p.uuid later reg_sock h.devices in
        let (r, p') = register_to_server s (exchange_with s h) (exchange_with s k) p in
        (r ≡ ok true)
        × (p'.token ≡ token)
        × (p'.sock ≡ true)
        × (check_device p.uuid k.devices ≡ true)
  register_to_server-check_device s lib i p m now later ssl_sock reg_sock token cfg whole whole'
        read read' given =
      let noted =
        (bind_mobile p.uuid i.mobile i.installation
          (add_device p.uuid ssl_sock i.type now m).1).1 in
      let (sent, devices) =
        run_task-token lib s now ssl_sock i.mobile i.installation i.name i.type i.manufacture p.uuid
          token (packet_text s (identity_packet i p.uuid)) m whole given in
      let (done, online) =
        device_online-bind_mobile p.uuid ssl_sock i.type token i.mobile i.installation reg_sock now
          later m given in
      let (sent', devices') =
        run_task-register lib s later reg_sock p.uuid token _ noted whole' done in
      let (r, has, up) =
        register_to_server-IsConfigured s (exchange_with s (asked s lib i p.uuid now ssl_sock m))
          (exchange_with s (entered s lib token p.uuid later reg_sock noted)) i p _ _ token cfg
          (refl, refl, refl, ap (reply s) sent) (refl, refl, refl, ap (reply s) sent')
          (rw read (token_of_answer-token_answer _ p.uuid token (lib.decimal now)))
          (rw read' (is_good-set_string _)) in
      rw devices (r, has, up, rw devices' online)
