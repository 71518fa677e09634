-- ===== src/Device/Proxy/Register.antt =====
-- How CRegProxy gets a token and registers with it: `getRegisterToken` and `registerToServer`.
use Prim.Native.String.{String, ◌++◌ as append_text}
use shuchuang.Shared.{
  Bool, true, false, Option, none, some, not, ◌||◌, ◌==◌, string_key, if◌then◌else◌, ◌&&◌,
}
use shuchuang.Shared.Outcome.{Action, pure, throw, get, modify, ◌>>=◌, ◌>>◌}
use shuchuang.Shared.Poco.{Json, Digest}
use shuchuang.Device.Rpc.{Parsed, object}
use shuchuang.Device.Proxy.{
  RegProxy, plain, secure, closes, writes, Exchange, Sent, Reply, text, get_token, register, Syntax,
  emit, deal_error, give_up, create_packet, packet_text,
}

abbrev pub is_text : Option String → String → Bool
is_text none s = false
is_text (some t) s = t == s

-- The key of the server is the digest of a constant and its time.
abbrev pub key_matches : ⦃g : Digest⦄ → Option String → Option String → Bool
key_matches ⦃g⦄ (some key) (some timestamp) = key == g.md5 (append_text "alpha2015" timestamp)
key_matches _ _ = false

module _ {O : Type 0} ⦃j : Json O⦄ where
  abbrev pub lacks_answer : O → Bool
  lacks_answer o = not (j.has o "type") || (not (j.has o "result") || not (j.has o "param"))

  abbrev pub lacks_token : O → Bool
  lacks_token p =
      not (j.has p "uuid")
      || (not (j.has p "key") || (not (j.has p "timestamp") || not (j.has p "token")))

  -- The token of the parameter, where its uuid and its key are right. Each text that is missing or of
  -- another kind ends the check: it throws to the handler that returns false.
  unfoldable pub token_of_param : ⦃g : Digest⦄ → String → Option O → Option String
  token_of_param uuid none = none
  token_of_param uuid (some p) =
      if lacks_token p
      then none
      else if not (is_text (j.get_string p "uuid") uuid)
      then none
      else if not (key_matches (j.get_string p "key") (j.get_string p "timestamp"))
      then none
      else j.get_string p "token"

  unfoldable pub token_of_answer : ⦃g : Digest⦄ → String → Parsed O → Option String
  unfolding token_of_param
  token_of_answer uuid (object o) =
      if lacks_answer o
      then none
      else if not (is_text (j.get_string o "type") "response")
      then none
      else if not (is_text (j.get_string o "result") "good")
      then none
      else token_of_param uuid (j.get_object o "param")
  token_of_answer uuid _ = none

  unfoldable pub take_token : Option String → Action (RegProxy O) Bool
  take_token none = pure false
  take_token (some token) = do modify (λ p. record p { token = token }); pure true

  unfoldable pub receive_token : ⦃g : Digest⦄ → Syntax O → Reply → Action (RegProxy O) Bool
  unfolding emit give_up take_token token_of_answer
  receive_token s Reply.broken = give_up secure
  receive_token s Reply.nothing = pure false
  receive_token s (text t) = do
    emit (closes secure)
    modify (λ p. record p { ssl_sock = false })
    p ← get
    take_token (token_of_answer p.uuid (s.parse t))

  unfoldable pub send_token_request : ⦃g : Digest⦄ → Syntax O → Exchange → Action (RegProxy O) Bool
  unfolding emit give_up create_packet receive_token
  send_token_request s x = do
    o ← create_packet get_token
    emit (writes secure (packet_text s o))
    elim x.sends [ Sent.done ↦ receive_token s x.replies | _ ↦ give_up secure ]

  unfoldable pub connect_secure : ⦃g : Digest⦄ → Syntax O → Exchange → Action (RegProxy O) Bool
  unfolding give_up send_token_request
  connect_secure s x = do
    modify (λ p. record p { ssl_sock = true })
    if x.connects then send_token_request s x else give_up secure

  -- `getRegisterToken`. An old socket is closed and deleted, and the pointer stays; the name of the
  -- server is looked up outside of the handlers, and throws where it is not found.
  unfoldable pub get_register_token : ⦃g : Digest⦄ → Syntax O → Exchange → Action (RegProxy O) Bool
  unfolding emit connect_secure
  get_register_token s x = do
    p ← get
    if p.ssl_sock then emit (closes secure) else pure tt
    if x.resolves then connect_secure s x else throw

  abbrev pub is_good : Parsed O → Bool
  is_good (object o) = j.has o "result" && is_text (j.get_string o "result") "good"
  is_good _ = false

  unfoldable pub receive_answer : Syntax O → Reply → Action (RegProxy O) Bool
  unfolding give_up
  receive_answer s (text t) = if is_good (s.parse t) then pure true else give_up plain
  receive_answer s _ = give_up plain

  unfoldable pub send_register : Syntax O → Exchange → Action (RegProxy O) Bool
  unfolding emit give_up create_packet receive_answer
  send_register s x = do
    o ← create_packet register
    emit (writes plain (packet_text s o))
    elim x.sends [ Sent.done ↦ receive_answer s x.replies | _ ↦ give_up plain ]

  unfoldable pub connect_plain : Syntax O → Exchange → Action (RegProxy O) Bool
  unfolding deal_error give_up send_register
  connect_plain s x = do
    deal_error plain
    modify (λ p. record p { sock = true })
    if x.connects then send_register s x else give_up plain

  unfoldable pub register_with : Syntax O → Exchange → Bool → Action (RegProxy O) Bool
  unfolding connect_plain
  register_with s x false = pure false
  register_with s x true = if x.resolves then connect_plain s x else throw

  -- `registerToServer`: one exchange for the token, and one with it.
  unfoldable pub register_to_server :
      ⦃g : Digest⦄ → Syntax O → Exchange → Exchange → Action (RegProxy O) Bool
  unfolding get_register_token register_with
  register_to_server s x y = do got ← get_register_token s x; register_with s y got
