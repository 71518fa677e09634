-- ===== src/Tests/Startup.antt =====
-- Runs of the theorems on the start of the transmit server.
use shuchuang.Shared.{◌≡◌, ◌≢◌, refl, List, true, false, none, some, [], ◌∷◌, map, string_key}
use shuchuang.Shared.Int.{pos}
use shuchuang.Shared.Dict.{find}
use shuchuang.Shared.Course.{returns, crashes, live}
use shuchuang.Shared.Outcome
use shuchuang.Common.Config.{Config, object, get_object}
use shuchuang.Common.Config.Files.{ConfigFile, holds, init, config_of}
use shuchuang.Server.PushCenter
use shuchuang.Server.Registrar.Listening.{
  Surrounding, constructed, bound, refused, start, stop, as_port, Poll, accept_round, sleeps,
}
use shuchuang.Server.Registrar.Listening.Sequences.{starts, stops, calls, calls-safe}
use shuchuang.Server.Registrar.Listening.Unbound.{start_unbound}
use shuchuang.Server.Http.Serving
use shuchuang.Server.Http.Serving.{HttpServer, serve_all, stop-serve_all}
use shuchuang.Server.Main.{Meeting, fresh, main_program}
use shuchuang.Server.Main.Starts.{stopped, main_program-serving}
use shuchuang.Tests.Objects.{
  Fields, nil, field, text as text_value, int, lookup, as_text, as_number, fields_json,
}

abbrev well : Surrounding
well = record {
  ssl_connects = true;
  reg_connects = true;
  inner_stops = true;
  ssl_bind = bound;
  reg_bind = bound;
  timers_start = true;
  timers_stop = true;
}

abbrev taken : Surrounding
taken = record well { ssl_bind = refused }

abbrev ports : Fields
ports = field "ssl_port" (int (pos 13000)) (field "reg_port" (int (pos 13001)) nil)

abbrev phones : Fields
phones =
    field "port" (int (pos 70000))
      (field "cert" (text_value "c") (field "privkey" (text_value "k") nil))

abbrev directory : Fields
directory = field "DirPath" (text_value "updates") nil

abbrev entries : Config Fields
entries = some (
    ("RegServer", object ports) ∷ ("HTTPServer", object phones) ∷ ("Update", object directory) ∷ [])

abbrev meeting : ConfigFile Fields → Meeting Fields
meeting file = record {
  file = file;
  proxies = λ o. none;
  sockets = well;
  listens = λ port cert key. true;
  is_directory = λ path. true;
  wait_throws = true;
}

abbrev full : Meeting Fields
full = meeting (
    holds (
      ("RegServer", object ports)
      ∷ ("HTTPServer", object phones)
      ∷ ("Update", object directory)
      ∷ []))

calls-safe_example :
    (calls (starts entries well ∷ stops well ∷ starts entries well ∷ []) constructed).0 ≢ crashes
calls-safe_example =
    calls-safe (starts entries well ∷ stops well ∷ starts entries well ∷ [])
      ((refl, refl), ((refl, refl), tt))

taken-ne-bound : taken.ssl_bind ≢ bound
taken-ne-bound e = cc

start_unbound_example :
    let (c, s) = start entries taken constructed in
    (c ≡ returns true)
    × ((polls : List Poll) → accept_round s.ssl_sock polls ≡ sleeps)
    × ((stop taken s).0 ≡ crashes)
unfolding get_object find as_port fields_json lookup as_number Outcome.◌>>=◌
start_unbound_example =
    start_unbound entries taken ports 13000 13001 refl refl refl refl refl refl taken-ne-bound refl
      refl refl

abbrev on_air : HttpServer
on_air = record { started = true; svr = live 443 }

stop-serve_all_example :
    serve_all
      (Serving.starts entries (λ port cert key. true) ∷ Serving.stops ∷ [])
      (Serving.stop on_air).1
    ≡ map (λ r. returns false) (Serving.starts entries (λ port cert key. true) ∷ Serving.stops ∷ [])
unfolding Serving.stop
stop-serve_all_example =
    stop-serve_all (Serving.starts entries (λ port cert key. true) ∷ Serving.stops ∷ []) on_air refl

main_program-serving_example : main_program full fresh ≡ (
  returns 0,
  stopped entries (record { bmob_info = none; tried = [] }) 13000 13001 (pos 70000) "updates",
)
unfolding get_object find as_port fields_json lookup as_number as_text Outcome.◌>>=◌ init config_of
    PushCenter.init
main_program-serving_example =
    main_program-serving full entries (record { bmob_info = none; tried = [] }) 13000 13001
      (pos 70000) "updates"
      (record {
        apns = none;
        pushing = false;
        reg = ports;
        o_http = phones;
        o_update = directory;
        cert = "c";
        key = "k";
        file = refl;
        has_apns = refl;
        pushes = refl;
        ports = record {
          entry = refl;
          has_ssl = refl;
          has_reg = refl;
          ssl_port = refl;
          reg_port = refl;
        };
        http = refl;
        has_port = refl;
        has_cert = refl;
        has_key = refl;
        http_port = refl;
        http_cert = refl;
        http_key = refl;
        listens = refl;
        update = refl;
        has_path = refl;
        the_path = refl;
      })
      (record {
        ssl_connects = refl;
        reg_connects = refl;
        inner_stops = refl;
        ssl_bind = refl;
        reg_bind = refl;
        timers_start = refl;
        timers_stop = refl;
      })
