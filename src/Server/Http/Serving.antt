-- ===== src/Server/Http/Serving.antt =====
-- CHTTPServer and its factory, Src/TransmitServer/HTTPServer: the server of the phones, with POCO's
-- HTTP server as a pointer.
use shuchuang.Shared.{
  String, ◌≡◌, refl, ap, ℕ, ◌-◌, ◌^◌, ◌%◌, Bool, true, false, List, [], ◌∷◌, map, Option, none,
  some, not, ◌||◌, ◌==◌, string_key, arith, if◌then◌else◌,
}
use shuchuang.Shared.Int.{ℤ, pos, negsuc}
use shuchuang.Shared.Course.{
  Course, returns, throws, crashes, Pointer, null, live, Call, give, end_by, value_or_throw, update,
  ◌>>=◌, ◌>>◌,
}
use shuchuang.Shared.Poco.{Json}
use shuchuang.Common.Config.{Config, get_object}
use shuchuang.Server.Registrar.Listening.{config_read, deleted}

-- A live pointer is to a server at this port.
pub record HttpServer : Type 0 where
  pub started : Bool
  pub svr : Pointer ℕ

abbrev pub constructed : HttpServer
constructed = record { started = false; svr = null }

abbrev pub is_null : {A : Type 0} → Pointer A → Bool
is_null null = true
is_null _ = false

-- `(UInt16)` of an int.
unfoldable pub port_of : ℤ → ℕ
port_of (pos n) = n % 2 ^ 16
port_of (negsuc n) = 2 ^ 16 - 1 - n % 2 ^ 16

module _ {O : Type 0} ⦃j : Json O⦄ where
  abbrev lacks_entry : O → Bool
  lacks_entry o = not (j.has o "port") || (not (j.has o "cert") || not (j.has o "privkey"))

  -- `listens` says whether a context of the key and the certificate can be made, and a socket listens
  -- at the port; where not, it throws.
  unfoldable pub start_with : (ℕ → String → String → Bool) → Option O → Call HttpServer Bool
  unfolding port_of
  start_with listens none = give false
  start_with listens (some o) = if lacks_entry o then give false else (do
    port ← value_or_throw (j.get_int o "port")
    cert ← value_or_throw (j.get_string o "cert")
    key ← value_or_throw (j.get_string o "privkey")
    if listens (port_of port) cert key then give tt else end_by throws
    update (λ s. record s { svr = live (port_of port); started = true })
    give true)

  unfoldable pub start_stopped : Config O → (ℕ → String → String → Bool) → Call HttpServer Bool
  unfolding start_with config_read
  start_stopped config listens = do
    entry ← end_by (config_read (get_object "HTTPServer" config).0)
    start_with listens entry

  unfoldable pub start : Config O → (ℕ → String → String → Bool) → Call HttpServer Bool
  unfolding start_stopped
  start config listens s =
      if s.started || not (is_null s.svr)
      then (returns false, s)
      else start_stopped config listens s

-- `stop` leaves the pointer.
unfoldable pub stop : Call HttpServer Bool
stop s =
    if not s.started || is_null s.svr
    then (returns false, s)
    else (returns true, record s { started = false })

-- `createRequestHandler` of the factory, by the path of the request: whether there is a handler.
unfoldable pub create_request_handler : String → Bool
create_request_handler uri = uri == "/"

-- `~CHTTPServer()`.
unfoldable pub destroy : Call HttpServer (Unit {0})
unfolding deleted
destroy s = elim (deleted s.svr) [
  | none ↦ (crashes, s)
  | some p ↦ (returns tt, record s { svr = p })
]

stopped_for_good :
    (s : HttpServer)
    → (stop s).0 ≡ returns true
    → ((stop s).1.started ≡ false) × (is_null (stop s).1.svr ≡ false)
unfolding stop
stopped_for_good s e = ground arith

-- A call of a client, with what it meets.
pub data Request (O : Type 0) : Type 0 where
  starts : Config O → (ℕ → String → String → Bool) → Request O
  stops : Request O

module _ {O : Type 0} ⦃j : Json O⦄ where
  unfoldable pub serve : Request O → Call HttpServer Bool
  serve (starts config listens) = start config listens
  serve stops = stop

  -- What each of the calls comes to.
  unfoldable pub serve_all : List (Request O) → HttpServer → List (Course Bool)
  unfolding serve
  serve_all [] s = []
  serve_all (r ∷ rs) s = let (c, s') = serve r s in c ∷ serve_all rs s'

  serve_stopped :
      (r : Request O) (s : HttpServer)
      → s.started ≡ false
      → is_null s.svr ≡ false
      → serve r s ≡ (returns false, s)
  unfolding serve start stop
  serve_stopped (starts config listens) s e n = ground arith
  serve_stopped stops s e n = ground arith

  serve_all_stopped :
      (rs : List (Request O)) (s : HttpServer)
      → s.started ≡ false
      → is_null s.svr ≡ false
      → serve_all rs s ≡ map (λ r. returns false) rs
  unfolding serve_all
  serve_all_stopped [] s e n = refl
  serve_all_stopped (r ∷ rs) s e n =
      rw (serve_stopped r s e n) (ap (λ cs. returns false ∷ cs) (serve_all_stopped rs s e n))

  -- Once a stop of the server of the phones has ended well, it is over: whatever calls of `start` and
  -- `stop` come after it, with whatever configuration, each returns false.
  pub stop-serve_all :
      (rs : List (Request O)) (s : HttpServer)
      → (stop s).0 ≡ returns true
      → serve_all rs (stop s).1 ≡ map (λ r. returns false) rs
  stop-serve_all rs s e =
      let (off, there) = stopped_for_good s e in serve_all_stopped rs (stop s).1 off there
