-- ===== src/Server/Registrar/Listening/Bound.antt =====
-- CRegServer, Src/TransmitServer/RegServer/RegServer.cpp: a start where all goes well, and its stop.
use shuchuang.Shared.{ℕ, ◌≡◌, refl, true, false, some, [], ◌∷◌}
use shuchuang.Shared.Course.{returns, freed, live, ◌>>=◌}
use shuchuang.Shared.Outcome.{ok}
use shuchuang.Shared.Poco.{Json}
use shuchuang.Common.Config.{Config, get_object}
use shuchuang.Server.Registrar.Listening.{
  Listening, constructed, bound, Surrounding, create_inner_socket, listen, listen_ssl, listen_reg,
  start_threads, open_sockets, as_port, config_read, start_with, start_stopped, start, close_socket,
  close_ssl, close_reg, stop_all, stop_pool, stop_started, stop,
}

-- All that the library is asked for goes well.
pub record GoesWell (w : Surrounding) : Type 0 where
  pub ssl_connects : w.ssl_connects ≡ true
  pub reg_connects : w.reg_connects ≡ true
  pub inner_stops : w.inner_stops ≡ true
  pub ssl_bind : w.ssl_bind ≡ bound
  pub reg_bind : w.reg_bind ≡ bound
  pub timers_start : w.timers_start ≡ true
  pub timers_stop : w.timers_stop ≡ true

-- The entry of the configuration has both ports.
pub record HasPorts {O : Type 0} ⦃j : Json O⦄ (config : Config O) (o : O) (p q : ℕ) : Type 0 where
  pub entry : (get_object "RegServer" config).0 ≡ ok (some o)
  pub has_ssl : j.has o "ssl_port" ≡ true
  pub has_reg : j.has o "reg_port" ≡ true
  pub ssl_port : as_port (j.get_int o "ssl_port") ≡ some p
  pub reg_port : as_port (j.get_int o "reg_port") ≡ some q

-- The server listens at both ports.
abbrev pub listening : ℕ → ℕ → Listening
listening p q = record {
  started = true;
  ssl_port = p;
  reg_port = q;
  ssl_sock = live p;
  reg_sock = live q;
  thread_pool = live tt;
  task_manager = live tt;
  inner_listed = true;
  closed = [];
}

-- The server is stopped, and both sockets are closed.
abbrev pub silent : ℕ → ℕ → Listening
silent p q = record (listening p q) {
  started = false;
  ssl_sock = freed;
  reg_sock = freed;
  closed = q ∷ p ∷ [];
}

open_sockets_bound :
    (w : Surrounding) (p q : ℕ)
    → GoesWell w
    → open_sockets w (record constructed { ssl_port = p; reg_port = q })
      ≡ (returns true, listening p q)
unfolding open_sockets create_inner_socket listen_ssl listen_reg listen start_threads ◌>>=◌
open_sockets_bound w p q g =
    rw (g.inner_stops, g.ssl_connects, g.reg_connects, g.ssl_bind, g.reg_bind, g.timers_start) refl

module _ {O : Type 0} ⦃j : Json O⦄ where
  pub start_bound :
      (config : Config O) (w : Surrounding) (o : O) (p q : ℕ)
      → HasPorts config o p q
      → GoesWell w
      → start config w constructed ≡ (returns true, listening p q)
  unfolding start start_stopped start_with config_read ◌>>=◌
  start_bound config w o p q h g =
      rw (h.entry, h.has_ssl, h.has_reg, h.ssl_port, h.reg_port) (open_sockets_bound w p q g)

pub stop_bound :
    (w : Surrounding) (p q : ℕ) → GoesWell w → stop w (listening p q) ≡ (returns true, silent p q)
unfolding stop stop_started close_ssl close_reg close_socket stop_pool stop_all ◌>>=◌
stop_bound w p q g = rw g.timers_stop refl
