-- ===== src/Device/Rpc/Labels.antt =====
-- The action and the number of the answers of CRPCClient, Src/Device/RPC/RPCClient.cpp.
use Prim.Native.String.{String}
use shuchuang.Shared.{
  ◌≡◌, refl, Bool, true, false, Option, none, some, arith, ◌==◌, string_key, if◌then◌else◌,
}
use shuchuang.Shared.Int.{ℤ, pos, int_key}
use shuchuang.Shared.Outcome.{Action, ok, ◌>>=◌}
use shuchuang.Shared.Outcome.Gives.{Gives}
use shuchuang.Shared.Poco.{Json, Digest, Sqlite}
use shuchuang.Device.UserTable.{UserRecordNode}
use shuchuang.Device.World.{World, write_param}
use shuchuang.Device.Rpc.{
  Parsed, unreadable, other, object, Response, silent, bad, good, lacks_key, run_task, run_parsed,
  is_response, answer_request, serve_request, serve_named, serve_parsed, respond, parse_action,
  SystemHandlers, serve,
}

-- The action and the number that a response carries.
abbrev pub label : {O : Type 0} → Response O → Option (String × ℤ)
label silent = none
label (good action id o) = some (action, id)
label (bad action id d) = some (action, id)

module _ {O : Type 0} ⦃j : Json O⦄ ⦃q : Sqlite UserRecordNode⦄ ⦃g : Digest⦄
    (system : SystemHandlers O) (action : String) (id : ℤ) where
  abbrev Labelled : Response O → Type 0
  Labelled r = label r ≡ some (action, id)

  respond-label :
      (m : Action (World O) (Unit {0})) (w : World O) → Gives Labelled (respond action id m) w
  unfolding respond
  respond-label m w r e = ground arith

  serve_parsed-label :
      (names : String × String) (p : Parsed O) (w : World O)
      → Gives Labelled (serve_parsed system action id names p) w
  unfolding serve_parsed write_param ◌>>=◌
  serve_parsed-label names unreadable w r e = ground arith
  serve_parsed-label names other w r e = ground arith
  serve_parsed-label names (object o) w r e =
      respond-label (serve system names.0 names.1) (record w { param = some o }) r e

  serve_named-label :
      (parse : String → Parsed O) (text : String) (names : Option (String × String)) (w : World O)
      → Gives Labelled (serve_named system parse action id text names) w
  unfolding serve_named ◌>>=◌
  serve_named-label parse text none w r e = ground arith
  serve_named-label parse text (some names) w r e = serve_parsed-label names (parse text) w r e

  serve_request-label :
      (parse : String → Parsed O) (request : O) (param : Option String) (w : World O)
      → j.get_string request "action" ≡ some action
      → j.get_string request "param" ≡ param
      → j.get_int request "requestid" ≡ some id
      → Gives Labelled (serve_request system parse request) w
  unfolding serve_request ◌>>=◌
  serve_request-label parse request none w a t i r e = (let e' = rw (a, t) at e in ground arith)
  serve_request-label parse request (some text) w a t i r e =
      serve_named-label parse text (parse_action action) w r (rw (a, t, i) at e)

  answered-label :
      (parse : String → Parsed O) (request : O) (b lacks : Bool) (w : World O)
      → lacks_key request ≡ lacks
      → j.get_string request "action" ≡ some action
      → j.get_int request "requestid" ≡ some id
      → Gives
          (λ r.
            label r ≡ (if b then none else if lacks then some ("", pos 0) else some (action, id)))
          (answer_request system parse request b)
          w
  unfolding answer_request ◌>>=◌
  answered-label parse request true lacks w k a i r e = ground arith
  answered-label parse request false true w k a i r e = (let e' = rw k at e in ground arith)
  answered-label parse request false false w k a i r e =
      serve_request-label parse request (j.get_string request "param") w a refl i r (rw k at e)

  -- An answer to an object with a type, an action and a number: none to a response; a request that lacks
  -- an entry is answered without an action, under the number 0; every other answer, whether it went well
  -- or not, has the action and the number of its request.
  pub run_task-label :
      (parse : String → Parsed O) (text type : String) (request : O) (w : World O) (r : Response O)
      → parse text ≡ object request
      → j.has request "type" ≡ true
      → j.get_string request "type" ≡ some type
      → j.get_string request "action" ≡ some action
      → j.get_int request "requestid" ≡ some id
      → (run_task system parse text w).0 ≡ ok r
      → label r ≡ (
          if type == "response"
          then none
          else if lacks_key request
          then some ("", pos 0)
          else some (action, id))
  unfolding run_task run_parsed is_response ◌>>=◌
  run_task-label parse text type request w r p h t a i e =
      answered-label parse request (type == "response") (lacks_key request) w refl a i r
        (rw (p, h, t) at e)
