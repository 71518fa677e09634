-- ===== src/Device/Proxy/Tokens.antt =====
-- CRegProxy: which token it takes.
use Prim.Native.String.{String, ◌++◌ as append_text}
use shuchuang.Shared.{
  ◌≡◌, refl, ap, Bool, true, false, Option, none, some, arith, not, string_key, eq_iff, ◌≢◌,
  if◌then◌else◌,
}
use shuchuang.Shared.Outcome.{ok, Action, get, modify, pure, throw, ◌>>=◌}
use shuchuang.Shared.Poco.{Json, Digest}
use shuchuang.Shared.Outcome.Keeps.{Keeps, keeps_rules}
use shuchuang.Shared.Outcome.Gives.{Ends, Ends-bind}
use shuchuang.Common.Config.{Config}
use shuchuang.Device.Rpc.{Parsed, object, unreadable, other}
use shuchuang.Device.Proxy.{
  RegProxy, Exchange, Sent, Reply, text, Syntax, Wire, plain, secure, give_up, create_packet,
  token_packet, on_config, Effect, closes, emit,
}
use shuchuang.Device.Proxy.Register.{
  get_register_token, token_of_answer, token_of_param, take_token, receive_token,
  send_token_request, connect_secure, is_text, key_matches, lacks_token, lacks_answer,
}

is_text-some : (o : Option String) (t : String) → is_text o t ≡ true → o ≡ some t
is_text-some none t e = ground arith
is_text-some (some s) t e = ap some ((eq_iff s t).0 e)

key_matches-md5 :
    (g : Digest) (key time : Option String)
    → key_matches ⦃g = g⦄ key time ≡ true
    → (t : String) × (time ≡ some t) × (key ≡ some (g.md5 (append_text "alpha2015" t)))
key_matches-md5 g none time e = ground arith
key_matches-md5 g (some k) none e = ground arith
key_matches-md5 g (some k) (some t) e =
    (t, refl, ap some ((eq_iff k (g.md5 (append_text "alpha2015" t))).0 e))

-- A result behind a test that refuses.
passes :
    {A : Type 0} (b : Bool) (o : Option A) (a : A)
    → (if b then none else o) ≡ some a
    → (b ≡ false) × (o ≡ some a)
passes true o a e = ground arith
passes false o a e = (refl, e)

holds_of_not : (b : Bool) → not b ≡ false → b ≡ true
holds_of_not b e = ground arith

module _ {O : Type 0} ⦃j : Json O⦄ ⦃g : Digest⦄ where
  -- An object that gives the token to the device of the uuid: its key is the digest of the constant
  -- and its time.
  pub Vouches : String → O → String → Type 0
  Vouches uuid p token =
      (time : String) × (j.get_string p "uuid" ≡ some uuid)
      × (j.get_string p "timestamp" ≡ some time)
      × (j.get_string p "key" ≡ some (g.md5 (append_text "alpha2015" time)))
      × (j.get_string p "token" ≡ some token)

  token_of_param-Vouches :
      (uuid : String) (o : Option O) (token : String)
      → token_of_param uuid o ≡ some token
      → (p : O) × (o ≡ some p) × Vouches uuid p token
  unfolding token_of_param Vouches
  token_of_param-Vouches uuid none token e = ground arith
  token_of_param-Vouches uuid (some p) token e =
      let (_, e1) = passes (lacks_token p) _ token e in
      let (u, e2) = passes (not (is_text (j.get_string p "uuid") uuid)) _ token e1 in
      let (k, e3) =
        passes (not (key_matches (j.get_string p "key") (j.get_string p "timestamp"))) _ token e2 in
      let (time, at, key) = key_matches-md5 g _ _ (holds_of_not _ k) in
      (p, refl, (time, is_text-some _ uuid (holds_of_not _ u), at, key, e3))

  token_of_answer-Vouches :
      (uuid : String) (x : Parsed O) (token : String)
      → token_of_answer uuid x ≡ some token
      → (o : O) × (p : O) × (x ≡ object o)
        × (j.get_object o "param" ≡ some p)
        × Vouches uuid p token
  unfolding token_of_answer
  token_of_answer-Vouches uuid unreadable token e = ground arith
  token_of_answer-Vouches uuid other token e = ground arith
  token_of_answer-Vouches uuid (object o) token e =
      let (_, e1) = passes (lacks_answer o) _ token e in
      let (_, e2) = passes (not (is_text (j.get_string o "type") "response")) _ token e1 in
      let (_, e3) = passes (not (is_text (j.get_string o "result") "good")) _ token e2 in
      let (p, at, v) = token_of_param-Vouches uuid (j.get_object o "param") token e3 in
      (o, p, refl, at, v)

  -- The reply that vouches for the token of a proxy.
  pub Took : String → Syntax O → Exchange → RegProxy O → Type 0
  Took uuid s x p =
      (t : String) × (o : O) × (q : O) × (x.replies ≡ text t)
      × (s.parse t ≡ object o)
      × (j.get_object o "param" ≡ some q)
      × Vouches uuid q p.token

  give_up-fails : (w : Wire) (p : RegProxy O) → (give_up {O = O} w p).0 ≢ ok true
  unfolding give_up ◌>>=◌
  give_up-fails plain p e = ground arith
  give_up-fails secure p e = ground arith

  take_token-ok :
      (t : Option String) (p : RegProxy O)
      → (take_token t p).0 ≡ ok true
      → t ≡ some (take_token t p).1.token
  unfolding take_token ◌>>=◌
  take_token-ok none p e = ground arith
  take_token-ok (some t) p e = refl

  receive_token-Took :
      (u : String) (s : Syntax O) (x : Exchange) (y : Reply) (p : RegProxy O)
      → p.uuid ≡ u
      → x.replies ≡ y
      → Ends true (Took u s x) (receive_token s y) p
  unfolding receive_token Took ◌>>=◌
  receive_token-Took u s x Reply.broken p h y e = elim (give_up-fails secure p e) [ ]
  receive_token-Took u s x Reply.nothing p h y e = ground arith
  receive_token-Took u s x (text t) p h y e =
      let (o, q, read, at, v) =
        token_of_answer-Vouches p.uuid (s.parse t) _ (take_token-ok _ _ e) in
      (t, o, q, y, read, at, rw⁻¹ h v)

  on_config-uuid :
      {A : Type 0} (u : String) (m : Action (Config O) A)
      → Keeps (λ (p : RegProxy O). p.uuid ≡ u) (on_config m)
  unfolding on_config
  on_config-uuid u m = record { at = λ p h. h }

  emit-uuid : (u : String) (e : Effect) (p : RegProxy O) → p.uuid ≡ u → (emit e p).1.uuid ≡ u
  unfolding emit modify
  emit-uuid u e p h = h

  closes-uuid :
      (u : String) (b : Bool) (p : RegProxy O)
      → p.uuid ≡ u
      → ((if b then emit (closes secure) else pure tt) p).1.uuid ≡ u
  unfolding emit modify pure
  closes-uuid u true p h = h
  closes-uuid u false p h = h

  token_packet-uuid : (u : String) → Keeps (λ (p : RegProxy O). p.uuid ≡ u) (token_packet {O = O})
  unfolding token_packet
  token_packet-uuid u = search (keeps_rules, on_config-uuid) depth 40

  after_send-Took :
      (u : String) (s : Syntax O) (x : Exchange) (y : Sent) (p : RegProxy O)
      → p.uuid ≡ u
      → Ends true
          (Took u s x)
          (elim y [ Sent.done ↦ receive_token s x.replies | _ ↦ give_up secure ])
          p
  after_send-Took u s x Sent.broken p h e = elim (give_up-fails secure p e) [ ]
  after_send-Took u s x Sent.refused p h e = elim (give_up-fails secure p e) [ ]
  after_send-Took u s x Sent.done p h e = receive_token-Took u s x x.replies p h refl e

  send_token_request-Took :
      (u : String) (s : Syntax O) (x : Exchange) (p : RegProxy O)
      → p.uuid ≡ u
      → Ends true (Took u s x) (send_token_request s x) p
  unfolding send_token_request create_packet
  send_token_request-Took u s x p h = Ends-bind (Took u s x) _ _ p true λ o made.
      Ends-bind (Took u s x) _ _ _ true
        λ _ _. after_send-Took u s x x.sends _ (emit-uuid u _ _ ((token_packet-uuid u).at p h))

  connected-Took :
      (u : String) (s : Syntax O) (x : Exchange) (b : Bool) (p : RegProxy O)
      → p.uuid ≡ u
      → Ends true (Took u s x) (if b then send_token_request s x else give_up secure) p
  connected-Took u s x true p h e = send_token_request-Took u s x p h e
  connected-Took u s x false p h e = elim (give_up-fails secure p e) [ ]

  connect_secure-Took :
      (u : String) (s : Syntax O) (x : Exchange) (p : RegProxy O)
      → p.uuid ≡ u
      → Ends true (Took u s x) (connect_secure s x) p
  unfolding connect_secure ◌>>=◌
  connect_secure-Took u s x p h = connected-Took u s x x.connects (record p { ssl_sock = true }) h

  resolved-Took :
      (u : String) (s : Syntax O) (x : Exchange) (b : Bool) (p : RegProxy O)
      → p.uuid ≡ u
      → Ends true (Took u s x) (if b then connect_secure s x else throw) p
  unfolding throw
  resolved-Took u s x true p h e = connect_secure-Took u s x p h e
  resolved-Took u s x false p h e = ground arith

  -- `getRegisterToken` says that it has a token only after a reply whose parameter is for the uuid of
  -- the device and has the digest of the constant and its time as its key, and the token that the
  -- proxy then has is the one of that parameter.
  pub get_register_token-Took :
      (s : Syntax O) (x : Exchange) (p : RegProxy O)
      → (get_register_token s x p).0 ≡ ok true
      → Took p.uuid s x (get_register_token s x p).1
  unfolding get_register_token get
  get_register_token-Took s x p = Ends-bind (Took p.uuid s x) get _ p true λ q got.
      Ends-bind (Took p.uuid s x) _ _ _ true
        λ _ _. resolved-Took p.uuid s x x.resolves _ (closes-uuid p.uuid q.ssl_sock p refl)
