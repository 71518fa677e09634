-- ===== src/Together/Identity.antt =====
-- CRegProxy with a configuration that is complete: which packet `createRequestPacket` makes, and how
-- the exchanges of `registerToServer` go where nothing breaks.
use Prim.Native.String.{String}
use shuchuang.Shared.{◌≡◌, refl, ◌∙◌, Bool, true, false, some, [], ◌∷◌, ◌++◌, if◌then◌else◌, arith}
use shuchuang.Shared.Outcome.{ok, ◌>>=◌, ◌>>◌, pure}
use shuchuang.Shared.Poco.{Json, Digest}
use shuchuang.Common.Config.{Config, get_object}
use shuchuang.Device.Proxy.{
  RegProxy, Exchange, Sent, text, get_token, Syntax, create_packet, packet, packet_text,
  token_request, secure, writes, closes, on_config, emit,
}
use shuchuang.Device.Proxy.Register.{
  register_to_server, register_with, token_of_answer, is_good, get_register_token, connect_secure,
  take_token, connect_plain,
}

-- What the device tells of itself and of the phone that it belongs to.
pub record Identity : Type 0 where
  pub mobile : String
  pub installation : String
  pub name : String
  pub type : String
  pub manufacture : String

module _ {O : Type 0} ⦃j : Json O⦄ where
  abbrev pub identity_packet : Identity → String → O
  identity_packet i uuid =
      packet "server.token" (token_request i.mobile i.installation i.name i.type i.manufacture uuid)

  -- The configuration holds the identity.
  unfoldable pub IsConfigured : Identity → Config O → Type 0
  IsConfigured i c =
      (d : O) × (a : O) × (get_object "DeviceInfo" c ≡ (ok (some d), c))
      × (get_object "APNS" c ≡ (ok (some a), c))
      × (j.get_string a "MobileToken" ≡ some i.mobile)
      × (j.get_string a "InstallationId" ≡ some i.installation)
      × (j.get_string d "name" ≡ some i.name)
      × (j.get_string d "type" ≡ some i.type)
      × (j.get_string d "manufacture" ≡ some i.manufacture)

  create_packet-IsConfigured :
      (i : Identity) (p : RegProxy O)
      → IsConfigured i p.config
      → create_packet get_token p ≡ (ok (identity_packet i p.uuid), p)
  unfolding create_packet on_config ◌>>=◌ IsConfigured
  create_packet-IsConfigured i p (d, a, read_d, read_a, mobile, installation, name, type, manu) =
      rw (read_d, read_a, mobile, installation, name, type, manu) refl

  module _ ⦃g : Digest⦄ where
    connect_secure-IsConfigured :
        (s : Syntax O) (x : Exchange) (i : Identity) (p : RegProxy O) (t token : String)
        → IsConfigured i p.config
        → x.connects ≡ true
        → x.sends ≡ Sent.done
        → x.replies ≡ text t
        → token_of_answer p.uuid (s.parse t) ≡ some token
        → connect_secure s x p ≡ (
          ok true,
          record p {
            ssl_sock = false;
            token = token;
            effects =
                (p.effects ++ writes secure (packet_text s (identity_packet i p.uuid)) ∷ [])
                ++ closes secure ∷ [];
          },
        )
    unfolding connect_secure take_token ◌>>=◌
    connect_secure-IsConfigured s x i p t token cfg c d y good =
        rw (c, create_packet-IsConfigured i (record p { ssl_sock = true }) cfg, d, y, good) refl

    closes_and_connects :
        (b : Bool) (s : Syntax O) (x : Exchange) (i : Identity) (p : RegProxy O) (t token : String)
        → IsConfigured i p.config
        → x.connects ≡ true
        → x.sends ≡ Sent.done
        → x.replies ≡ text t
        → token_of_answer p.uuid (s.parse t) ≡ some token
        → let (r, p') = ((if b then emit (closes secure) else pure tt) >> connect_secure s x) p in
          (r ≡ ok true) × (p'.token ≡ token) × (p'.uuid ≡ p.uuid)
    unfolding emit ◌>>=◌
    closes_and_connects false s x i p t token cfg c d y good =
        rw (connect_secure-IsConfigured s x i p t token cfg c d y good) (refl, refl, refl)
    closes_and_connects true s x i p t token cfg c d y good =
        rw
          (connect_secure-IsConfigured s x i
            (record p { effects = p.effects ++ closes secure ∷ [] }) t token cfg c d y good)
          (refl, refl, refl)

    -- The token is fetched where the reply is an answer that the device takes.
    get_register_token-IsConfigured :
        (s : Syntax O) (x : Exchange) (i : Identity) (p : RegProxy O) (t token : String)
        → IsConfigured i p.config
        → x.resolves ≡ true
        → x.connects ≡ true
        → x.sends ≡ Sent.done
        → x.replies ≡ text t
        → token_of_answer p.uuid (s.parse t) ≡ some token
        → let (r, p') = get_register_token s x p in
          (r ≡ ok true) × (p'.token ≡ token) × (p'.uuid ≡ p.uuid)
    unfolding get_register_token ◌>>=◌
    get_register_token-IsConfigured s x i p t token cfg r c d y good =
        rw r (closes_and_connects p.ssl_sock s x i p t token cfg c d y good)

    -- A good answer to the packet with the token ends the registration.
    register_with-good :
        (s : Syntax O) (x : Exchange) (p : RegProxy O) (t : String)
        → x.resolves ≡ true
        → x.connects ≡ true
        → x.sends ≡ Sent.done
        → x.replies ≡ text t
        → is_good (s.parse t) ≡ true
        → let (r, p') = register_with s x true p in
          (r ≡ ok true) × (p'.sock ≡ true) × (p'.token ≡ p.token)
    unfolding register_with connect_plain create_packet ◌>>=◌
    register_with-good s x p t r c d y good = rw (r, c, d, y, good) (ground arith)

    -- Both exchanges in a row.
    pub register_to_server-IsConfigured :
        (s : Syntax O) (x y : Exchange) (i : Identity) (p : RegProxy O) (t u token : String)
        → IsConfigured i p.config
        → (x.resolves ≡ true) × (x.connects ≡ true) × (x.sends ≡ Sent.done) × (x.replies ≡ text t)
        → (y.resolves ≡ true) × (y.connects ≡ true) × (y.sends ≡ Sent.done) × (y.replies ≡ text u)
        → token_of_answer p.uuid (s.parse t) ≡ some token
        → is_good (s.parse u) ≡ true
        → let (r, p') = register_to_server s x y p in
          (r ≡ ok true) × (p'.token ≡ token) × (p'.sock ≡ true)
    unfolding register_to_server ◌>>=◌
    register_to_server-IsConfigured s x y i p t u token cfg (r, c, d, e) (r', c', d', e') given
          good =
        let (got, has, same) = get_register_token-IsConfigured s x i p t token cfg r c d e given in
        let (done, up, kept) =
          register_with-good s y (get_register_token s x p).1 u r' c' d' e' good in
        rw got (done, kept ∙ has, up)
