-- ===== src/Device/Rpc/Guards.antt =====
-- What a request can reach at CRPCClient without a valid token, and without the authority of an admin.
use Prim.Native.String.{String}
use shuchuang.Shared.{◌≡◌, refl, ap, true, false, some, arith, ◌==◌, string_key, ◌⊎◌, inl, inr}
use shuchuang.Shared.Int.{ℤ, int_key}
use shuchuang.Shared.Outcome.{Action, ok, failed}
use shuchuang.Shared.Poco.{Json, Digest, Sqlite}
use shuchuang.Device.UserTable.{UserRecordNode}
use shuchuang.Device.World.{World, steps}
use shuchuang.Device.Users.{verify_user}
use shuchuang.Device.Rpc.{
  Parsed, object, bad, lacks_key, run_task, run_parsed, is_response, answer_request, serve_request,
  serve_named, serve_parsed, respond, parse_action, SystemHandlers, serve, serve_other, route,
  refuse, is_admin,
}

module _ {O : Type 0} ⦃j : Json O⦄ ⦃q : Sqlite UserRecordNode⦄ ⦃g : Digest⦄
    (system : SystemHandlers O) where
  -- A request that lacks nothing has a type.
  has_type : (request : O) → lacks_key request ≡ false → j.has request "type" ≡ true
  has_type request k = ground (arith, k)

  -- A request to another component than "user" whose token no valid user carries is refused with
  -- "402", and nothing changes.
  pub serve_invalid_token :
      (component method token : String) (o : O) (w : World O)
      → (component == "user") ≡ false
      → w.param ≡ some o
      → j.has o "token" ≡ true
      → j.get_string o "token" ≡ some token
      → verify_user token w.now w.users.table ≡ false
      → serve system component method w ≡ (failed "402", w)
  unfolding serve serve_other steps
  serve_invalid_token component method token o w c e h t v = rw (c, e, h, t, v) refl

  -- The components "task" and "system" serve admins only: another user is refused with "403", and
  -- only the token is removed from the parameter.
  pub serve_not_admin :
      (component method token : String) (o : O) (w : World O)
      → (component ≡ "task") ⊎ (component ≡ "system")
      → w.param ≡ some o
      → j.has o "token" ≡ true
      → j.get_string o "token" ≡ some token
      → verify_user token w.now w.users.table ≡ true
      → is_admin token w ≡ false
      → serve system component method w
        ≡ (failed "403", record w { param = some (j.remove o "token") })
  unfolding serve serve_other route refuse steps
  serve_not_admin component method token o w (inl n) e h t v a = rw (n, e, h, t, v, a) refl
  serve_not_admin component method token o w (inr n) e h t v a = rw (n, e, h, t, v, a) refl

  -- A failure is answered with its detail.
  respond_failed :
      (action d : String) (id : ℤ) (m : Action (World O) (Unit {0})) (w w' : World O)
      → m w ≡ (failed d, w')
      → respond action id m w ≡ (ok (bad action id d), w')
  unfolding respond
  respond_failed action d id m w w' e =
      rw (respond, ap (λ r. r.0) e) (ap (λ r. (ok (bad action id d), r.1)) e)

  -- A whole request of the server to another component than "user", with every field and a token
  -- that no valid user carries, is answered with its action, its number and "402"; nothing but the
  -- parameter that it brings is written.
  pub run_task_invalid_token :
      (parse : String → Parsed O) (text type action param component method token : String) (id : ℤ)
      (request o : O) (w : World O)
      → parse text ≡ object request
      → lacks_key request ≡ false
      → j.get_string request "type" ≡ some type
      → (type == "response") ≡ false
      → j.get_string request "action" ≡ some action
      → j.get_string request "param" ≡ some param
      → j.get_int request "requestid" ≡ some id
      → parse_action action ≡ some (component, method)
      → (component == "user") ≡ false
      → parse param ≡ object o
      → j.has o "token" ≡ true
      → j.get_string o "token" ≡ some token
      → verify_user token w.now w.users.table ≡ false
      → run_task system parse text w ≡ (ok (bad action id "402"), record w { param = some o })
  unfolding run_task run_parsed is_response answer_request serve_request serve_named serve_parsed
      steps
  run_task_invalid_token parse text type action param component method token id request o w p k ty
        nr ac pa rid pac c po h t v =
      let sent = record w { param = some o } in
      rw (p, has_type request k, ty, nr, k, ac, pa, rid, pac, po)
        (respond_failed action "402" id (serve system component method) sent sent
          (serve_invalid_token component method token o sent c refl h t v))
