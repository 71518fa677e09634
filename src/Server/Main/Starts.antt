-- ===== src/Server/Main/Starts.antt =====
-- The main function of the transmit server, Src/TransmitServer/Main.cpp: what its configuration leads to.
use shuchuang.Shared.{
  ℕ, String, ◌≡◌, refl, Bool, true, false, Option, none, some, [], if◌then◌else◌, if-rule,
}
use shuchuang.Shared.Course.{Course, returns, throws, blocks, live, ◌>>=◌}
use shuchuang.Shared.Outcome
use shuchuang.Shared.Outcome.{ok}
use shuchuang.Shared.Poco.{Json}
use shuchuang.Common.Config.{Config, get_object}
use shuchuang.Common.Config.Files.{init, init_unreadable}
use shuchuang.Server.Devices
use shuchuang.Server.PushCenter
use shuchuang.Server.PushCenter.{PushCenter}
use shuchuang.Shared.Int.{ℤ}
use shuchuang.Server.Registrar.Listening.{config_read}
use shuchuang.Server.Registrar.Listening.Bound.{
  GoesWell, HasPorts, listening, silent, start_bound, stop_bound,
}
use shuchuang.Server.Http.Serving
use shuchuang.Server.Http.Serving.{HttpServer, port_of}
use shuchuang.Server.Main.{
  Program, Meeting, fresh, on_registrar, on_http, read_entry, init_config, stop_devices,
  wait_for_end, wait_and_stop, init_push, start_stopped_devices, start_devices, start_registrar,
  start_http, set_update_path, init_update, start_all, main_program,
}

module _ {O : Type 0} ⦃j : Json O⦄ where
  -- Where the configuration cannot be read, `init` says so, and `main` does not ask: it ends by an
  -- exception that nothing catches, and no part of the server is started.
  pub main_program_unreadable :
      (w : Meeting O) → (init w.file).0 ≡ false → main_program w fresh ≡ (throws, fresh)
  unfolding main_program start_all init_config start_devices start_stopped_devices read_entry
      config_read get_object Devices.init Outcome.◌>>=◌ ◌>>=◌
  main_program_unreadable w e = rw (init_unreadable w.file e) refl

  -- The entries of the configuration `c` are there.
  pub record IsComplete (w : Meeting O) (c : Config O) (push : PushCenter O) (p q : ℕ) (port : ℤ)
      (path : String) : Type 0 where
    pub apns : Option O
    pub pushing : Bool
    pub reg : O
    pub o_http : O
    pub o_update : O
    pub cert : String
    pub key : String
    pub file : (init w.file).1 ≡ c
    pub has_apns : (get_object "APNS" c).0 ≡ ok apns
    pub pushes :
        PushCenter.init w.proxies apns (record { bmob_info = none; tried = [] })
        ≡ (ok pushing, push)
    pub ports : HasPorts c reg p q
    pub http : (get_object "HTTPServer" c).0 ≡ ok (some o_http)
    pub has_port : j.has o_http "port" ≡ true
    pub has_cert : j.has o_http "cert" ≡ true
    pub has_key : j.has o_http "privkey" ≡ true
    pub http_port : j.get_int o_http "port" ≡ some port
    pub http_cert : j.get_string o_http "cert" ≡ some cert
    pub http_key : j.get_string o_http "privkey" ≡ some key
    pub listens : w.listens (port_of port) cert key ≡ true
    pub update : (get_object "Update" c).0 ≡ ok (some o_update)
    pub has_path : j.has o_update "DirPath" ≡ true
    pub the_path : j.get_string o_update "DirPath" ≡ some path

  -- Every part is started.
  abbrev pub serving : Config O → PushCenter O → ℕ → ℕ → ℤ → String → Program O
  serving c push p q port path = record {
    config = c;
    push = push;
    devices = record Devices.init { started = true };
    registrar = listening p q;
    http = record { started = true; svr = live (port_of port) };
    update_path = path;
  }

  -- Every part is stopped again.
  abbrev pub stopped : Config O → PushCenter O → ℕ → ℕ → ℤ → String → Program O
  stopped c push p q port path = record (serving c push p q port path) {
    devices = Devices.init;
    registrar = silent p q;
    http = record { started = false; svr = live (port_of port) };
  }

  module _ (w : Meeting O) (c : Config O) (push : PushCenter O) (p q : ℕ) (port : ℤ) (path : String)
      (h : IsComplete w c push p q port path) (g : GoesWell w.sockets) where
    start_http_complete :
        Serving.start c w.listens Serving.constructed
        ≡ (returns true, record { started = true; svr = live (port_of port) })
    unfolding Serving.start Serving.start_stopped config_read Serving.start_with ◌>>=◌
    start_http_complete =
        rw
          (
            h.http, h.has_port, h.has_cert, h.has_key, h.http_port, h.http_cert, h.http_key,
            h.listens,
          )
          refl

    set_path_complete :
        (s : Program O)
        → s.config ≡ c
        → init_update w s ≡ (returns (w.is_directory path), record s { update_path = path })
    unfolding init_update read_entry config_read set_update_path ◌>>=◌
    set_path_complete s e = rw (e, h.update, h.has_path, h.the_path) refl

    start_devices_complete : start_devices w (record fresh { config = c }) ≡ (
      returns true,
      record fresh { config = c; push = push; devices = record Devices.init { started = true } },
    )
    unfolding start_devices start_stopped_devices read_entry config_read init_push Devices.start
        Devices.init ◌>>=◌
    start_devices_complete = rw (h.has_apns, h.pushes) refl

    start_all_complete : start_all w fresh ≡ (returns tt, serving c push p q port path)
    unfolding start_all init_config start_registrar on_registrar start_http on_http ◌>>=◌
    start_all_complete =
        rw
          (
            h.file,
            start_devices_complete,
            start_bound c w.sockets h.reg p q h.ports g,
            start_http_complete,
            set_path_complete (record (serving c push p q port path) { update_path = "" }) refl,
          )
          refl

    stop_complete :
        w.wait_throws ≡ true
        → wait_and_stop w (serving c push p q port path) ≡ (returns 0, stopped c push p q port path)
    unfolding wait_and_stop wait_for_end on_http Serving.stop on_registrar stop_devices Devices.stop
        Devices.init ◌>>=◌
    stop_complete t = rw (t, stop_bound w.sockets p q g) refl

    wait_complete :
        w.wait_throws ≡ false
        → wait_and_stop w (serving c push p q port path) ≡ (blocks, serving c push p q port path)
    unfolding wait_and_stop wait_for_end ◌>>=◌
    wait_complete f = rw f refl

    -- A server whose configuration has every entry, and for which all goes well, serves for ever: both
    -- ports of the devices and the port of the phones, modulo 2^16, listen. Where the wait throws, it
    -- ends with 0, and both ports of the devices are closed.
    pub main_program-serving : main_program w fresh ≡ (
        if w.wait_throws
        then (returns 0, stopped c push p q port path)
        else (blocks, serving c push p q port path))
    unfolding main_program ◌>>=◌
    main_program-serving = rw start_all_complete (
        if-rule {A = Course ℕ × Program O} (λ r. wait_and_stop w (serving c push p q port path) ≡ r)
          w.wait_throws stop_complete wait_complete)
