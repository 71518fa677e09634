-- ===== src/Together/Registration.antt =====
-- A device asks for a token and registers: what CRegProxy sends is what CRegMsgHandler takes, and the
-- other way round.
use Prim.Native.String.{String}
use shuchuang.Shared.{ℕ, ◌≡◌, refl, true, false, some, not, ◌||◌, string_key, if◌then◌else◌}
use shuchuang.Shared.Outcome.{ok, ◌>>=◌}
use shuchuang.Shared.Poco.{Json, Digest}
use shuchuang.Device.Rpc.{parse_action}
use shuchuang.Device.Proxy.{packet, register_request}
use shuchuang.Server.Devices.{device_online}
use shuchuang.Server.Messages.{
  MsgHandler, format_check, named, set_result, set_good, on_devices, when_lacking, extract_param,
  lacks_field,
}
use shuchuang.Server.Messages.Handle.{
  handle_reg_msg, handle_request, handle_method, handle_register, is_response,
}

-- What the server reads of the parameter of "server.register".
register_fields :
    {O : Type 0} (j : Json O) (token uuid : String)
    → let p = register_request ⦃j = j⦄ token uuid in
      ((not (j.has p "token") || not (j.has p "uuid")) ≡ false)
      × (j.get_string p "token" ≡ some token)
      × (j.get_string p "uuid" ≡ some uuid)
register_fields j token uuid =
    (simp j.has-set_string, simp j.get_string-set_string, simp j.get_string-set_string)

module _ {O : Type 0} ⦃j : Json O⦄ ⦃g : Digest⦄ where
  -- The server reads of a packet what the device put in.
  pub packet_fields :
      (action : String) (p : O)
      → (lacks_field (packet action p) ≡ false)
        × (j.has (packet action p) "type" ≡ true)
        × (j.get_string (packet action p) "type" ≡ some "request")
        × (j.get_string (packet action p) "action" ≡ some action)
        × (j.get_object (packet action p) "param" ≡ some p)
  packet_fields action p = (
    simp (j.has-set_object, j.has-set_string),
    simp (j.has-set_object, j.has-set_string),
    simp (j.get_string-set_object, j.get_string-set_string),
    simp (j.get_string-set_object, j.get_string-set_string),
    simp j.get_object-set_object,
  )

  -- The format of a packet is right, and the result says that it is a response.
  pub format_check-packet :
      (action : String) (p : O) (h : MsgHandler O)
      → format_check (packet action p) h
        ≡ (ok p, record h { result = j.set_string h.result "type" "response" })
  unfolding format_check set_result when_lacking extract_param ◌>>=◌
  format_check-packet action p h = let (l, y, t, a, o) = packet_fields action p in rw (l, t, o) refl

  handle_register-request :
      (now : ℕ) (token uuid : String) (h : MsgHandler O)
      → let (done, m) = device_online uuid token h.sock now h.devices in
        handle_register now (register_request token uuid) h ≡ (
          ok tt,
          record h {
            result = j.set_string h.result "result" (if done then "good" else "failed");
            devices = m;
          },
        )
  unfolding handle_register when_lacking on_devices set_good set_result ◌>>=◌
  handle_register-request now token uuid h =
      let (l, t, u) = register_fields j token uuid in rw (l, t, u) refl

  is_response-packet :
      (action : String) (p : O) (h : MsgHandler O) → is_response (packet action p) h ≡ (ok false, h)
  unfolding is_response ◌>>=◌
  is_response-packet action p h = let (l, y, t, a, o) = packet_fields action p in rw (y, t) refl

  handle_request-register :
      (now : ℕ) (token uuid : String) (h : MsgHandler O)
      → let (done, m) = device_online uuid token h.sock now h.devices in
        handle_request now (packet "server.register" (register_request token uuid)) h ≡ (
          ok tt,
          record h {
            result =
                j.set_string
                  (j.set_string
                    (j.set_string h.result "type" "response")
                    "action"
                    "server.register")
                  "result"
                  (if done then "good" else "failed");
            devices = m;
          },
        )
  unfolding handle_request handle_method named when_lacking set_result parse_action ◌>>=◌
  handle_request-register now token uuid h =
      let p = register_request token uuid in
      let (l, y, t, a, o) = packet_fields "server.register" p in
      rw (format_check-packet "server.register" p h, a) (handle_register-request now token uuid _)

  -- A packet "server.register" with a token and a uuid: the registry is asked to take the device
  -- online, and the answer says what it said.
  pub handle_register-packet :
      (now : ℕ) (token uuid : String) (h : MsgHandler O)
      → let (done, m) = device_online uuid token h.sock now h.devices in
        handle_reg_msg now (packet "server.register" (register_request token uuid)) h ≡ (
          ok tt,
          record h {
            result =
                j.set_string
                  (j.set_string
                    (j.set_string h.result "type" "response")
                    "action"
                    "server.register")
                  "result"
                  (if done then "good" else "failed");
            devices = m;
          },
        )
  unfolding handle_reg_msg is_response handle_request ◌>>=◌
  handle_register-packet now token uuid h =
      let (l, y, t, a, o) = packet_fields "server.register" (register_request token uuid) in
      rw (is_response-packet "server.register" (register_request token uuid) h)
        (handle_request-register now token uuid h)
