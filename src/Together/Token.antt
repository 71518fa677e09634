-- ===== src/Together/Token.antt =====
-- A device asks for a token: the request that CRegProxy sends, at CRegMsgHandler, and the answer back
-- at CRegProxy.
use Prim.Native.String.{String, ◌++◌ as append_text}
use shuchuang.Shared.{ℕ, ◌≡◌, refl, false, some, eq_refl, string_key}
use shuchuang.Shared.Outcome.{ok, ◌>>=◌}
use shuchuang.Shared.Poco.{Json, Digest}
use shuchuang.Device.Rpc.{object, parse_action}
use shuchuang.Device.Proxy.{packet, token_request}
use shuchuang.Device.Proxy.Register.{token_of_answer, token_of_param, lacks_answer, lacks_token}
use shuchuang.Server.Devices.{add_device, bind_mobile}
use shuchuang.Server.Messages.{MsgHandler, Library, set_result, named, on_devices, when_lacking}
use shuchuang.Server.Messages.Handle.{handle_ssl_msg, answer_token, token_param, lacks_device}
use shuchuang.Together.Registration.{packet_fields, format_check-packet}

-- What the server reads of the parameter of "server.token".
token_fields :
    {O : Type 0} (j : Json O) (mobile installation name type manufacture uuid : String)
    → let p = token_request ⦃j = j⦄ mobile installation name type manufacture uuid in
      (lacks_device ⦃j = j⦄ p ≡ false)
      × (j.get_string p "uuid" ≡ some uuid)
      × (j.get_string p "type" ≡ some type)
      × (j.get_string p "name" ≡ some name)
      × (j.get_string p "mobiletoken" ≡ some mobile)
      × (j.get_string p "installationid" ≡ some installation)
token_fields j mobile installation name type manufacture uuid = (
  simp j.has-set_string,
  simp j.get_string-set_string,
  simp j.get_string-set_string,
  simp j.get_string-set_string,
  simp j.get_string-set_string,
  simp j.get_string-set_string,
)

-- What the device reads of the parameter of the answer.
param_fields :
    {O : Type 0} (j : Json O) (uuid token tms key : String)
    → let p = token_param ⦃j = j⦄ uuid token tms key in
      (lacks_token ⦃j = j⦄ p ≡ false)
      × (j.get_string p "uuid" ≡ some uuid)
      × (j.get_string p "key" ≡ some key)
      × (j.get_string p "timestamp" ≡ some tms)
      × (j.get_string p "token" ≡ some token)
param_fields j uuid token tms key = (
  simp j.has-set_string,
  simp j.get_string-set_string,
  simp j.get_string-set_string,
  simp j.get_string-set_string,
  simp j.get_string-set_string,
)

module _ {O : Type 0} ⦃j : Json O⦄ ⦃g : Digest⦄ where
  -- The result of a handler that has given a token.
  abbrev pub token_answer : O → String → String → String → O
  token_answer result uuid token tms =
      j.set_object
        (j.remove (j.set_string (j.set_string result "type" "response") "result" "good") "param")
        "param" (token_param uuid token tms (g.md5 (append_text "alpha2015" tms)))

  pub handle_ssl_msg-packet :
      (lib : Library O) (now : ℕ) (mobile installation name type manufacture uuid token : String)
      (h : MsgHandler O)
      → (add_device uuid h.sock type now h.devices).0 ≡ some token
      → let m = (add_device uuid h.sock type now h.devices).1 in
        handle_ssl_msg lib now
          (packet "server.token" (token_request mobile installation name type manufacture uuid))
          h
        ≡ (
          ok tt,
          record h {
            result = token_answer h.result uuid token (lib.decimal now);
            devices = (bind_mobile uuid mobile installation m).1;
          },
        )
  unfolding handle_ssl_msg named when_lacking on_devices answer_token set_result parse_action ◌>>=◌
  handle_ssl_msg-packet lib now mobile installation name type manufacture uuid token h given =
      let p = token_request mobile installation name type manufacture uuid in
      let (l, y, t, a, o) = packet_fields "server.token" p in
      let (lacks, u, ty, na, mo, ins) =
        token_fields j mobile installation name type manufacture uuid in
      rw (format_check-packet "server.token" p h, a, lacks, u, ty, na, mo, ins, given) refl

  -- What the device reads of such a result.
  answer_fields :
      (result : O) (uuid token tms : String)
      → let o = token_answer result uuid token tms in
        (lacks_answer o ≡ false)
        × (j.get_string o "type" ≡ some "response")
        × (j.get_string o "result" ≡ some "good")
        × (j.get_object o "param"
            ≡ some (token_param uuid token tms (g.md5 (append_text "alpha2015" tms))))
  answer_fields result uuid token tms = (
    simp (j.has-set_object, j.has-remove, j.has-set_string),
    simp (j.get_string-set_object, j.get_string-remove, j.get_string-set_string),
    simp (j.get_string-set_object, j.get_string-remove, j.get_string-set_string),
    simp j.get_object-set_object,
  )

  -- The key is the digest that the device computes, so it takes the token.
  pub token_of_answer-token_answer :
      (result : O) (uuid token tms : String)
      → token_of_answer uuid (object (token_answer result uuid token tms)) ≡ some token
  unfolding token_of_answer token_of_param
  token_of_answer-token_answer result uuid token tms =
      let key = g.md5 (append_text "alpha2015" tms) in
      let (lacks, type, good, param) = answer_fields result uuid token tms in
      let (lacks_p, u, k, time, given) = param_fields j uuid token tms key in
      rw (lacks, type, good, param, lacks_p, u, k, time, given, eq_refl uuid, eq_refl key) refl
